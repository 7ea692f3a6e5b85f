-- ===== src/Audit/Summary.antt =====
-- `auditSummaryEvent` as a whole, and `EmitAuditSummary`.
use gtv_final_submission.Prelude.Dict.{Dict, lookup, or_zero}
use gtv_final_submission.Prelude.Int.{ℤ, pos}
use gtv_final_submission.Prelude.{
  ℕ, ◌+◌, String, ◌&&◌, Option, none, some, List, [], ◌∷◌, ◌==◌, nat_eq, string_eq, if◌then◌else◌,
}
use gtv_final_submission.Timeline.{
  Millis, Fields, UnmatchedTotals, TimelineEvent, zero_event, end, object, number, texts, channels,
  totals,
}
use gtv_final_submission.Parse.State.{ParseState}
use gtv_final_submission.Parse.Machine.{
  Callback, M, emit, get_state, modify, give, skip, ◌>>=◌, ◌>>◌,
}
use gtv_final_submission.Parse.Finalize.{finalize_pending_goroutines}
use gtv_final_submission.Unmatched.{set_field, sort_keys, entries}
use gtv_final_submission.Deadlock.Search.{deadlock_cycle_event, quiescence_warning_event}
use gtv_final_submission.Audit.Channels.{tally_state, waiting_channels, waiting_sends}
use gtv_final_submission.Audit.Blocked.{if_any, add_blocked}

abbrev pub set_counts : Dict String ℕ → Fields → Fields
set_counts [] fs = fs
set_counts ((k, n) ∷ m) fs = set_counts m (set_field k (number (pos n)) fs)

abbrev pub set_some : Option Fields → Fields → Fields
set_some none fs = fs
set_some (some cycle) fs = set_field "deadlock_cycle" (object cycle) fs

abbrev pub add_waiting : ParseState → Fields → Fields
add_waiting st fs =
    if waiting_sends st.sends_by_key == 0
    then fs
    else set_field "unmatched_send_channels" (number (pos (waiting_channels st.sends_by_key)))
        (set_field "unmatched_send_pending" (number (pos (waiting_sends st.sends_by_key))) fs)

abbrev pub add_unmatched : ParseState → Fields → Fields
add_unmatched st fs =
    let t = tally_state st in
    let sums : UnmatchedTotals = record {
      sends = t.sends;
      recvs = t.recvs;
      unknown_channel_id = st.unknown_channel_id;
    } in
    let by_channel =
      if_any t.acc (set_field "unmatched_by_channel" (channels (entries (sort_keys t.acc)))) fs in
    if (t.sends == 0) && ((t.recvs == 0) && (st.unknown_channel_id == 0))
    then by_channel
    else set_field "unmatched_totals" (totals sums) by_channel

abbrev pub add_filtered : ParseState → Fields → Fields
add_filtered st fs =
    let n =
      or_zero 0 (lookup "goroutine_lifecycle_filtered_by_name" st.audit_counts)
      + or_zero 0 (lookup "goroutine_lifecycle_filtered_by_missing_ops" st.audit_counts) in
    if n == 0 then fs else set_field "goroutine_filtered_total" (number (pos n)) fs

-- The value of the summary.
unfoldable pub audit_fields : ParseState → Fields
audit_fields st = add_blocked st (
    if_any st.unparsed_region_samples
      (set_field "unparsed_region_samples" (texts st.unparsed_region_samples))
      (add_filtered st (
        add_unmatched st
          (add_waiting st (set_some st.deadlock_cycle (set_counts st.audit_counts end))))))

-- The summary of a state whose goroutines are finalized.
unfoldable pub summary_event : String → ParseState → TimelineEvent
summary_event source st = record zero_event {
  time_ms = st.last_time_ms;
  time_ns = st.last_time_ns;
  event = "audit_summary";
  source = source;
  value = object (audit_fields st);
}

abbrev pub emit_some : Callback → Option TimelineEvent → M (Unit {0})
emit_some cb none = skip
emit_some cb (some ev) = emit cb ev

module _ (cb : Callback) (range : List ℤ → List ℤ) (threshold window : Millis) where
  unfoldable pub audit_summary_event : String → M TimelineEvent
  audit_summary_event source = do
    modify (finalize_pending_goroutines range)
    st ← get_state
    give (summary_event source st)

  unfoldable pub warn_quiescence : M (Unit {0})
  warn_quiescence = do st ← get_state; emit_some cb (quiescence_warning_event st threshold)

  unfoldable pub warn_deadlock : M (Unit {0})
  warn_deadlock = do
    st ← get_state
    modify (λ s. (deadlock_cycle_event range s window).0)
    emit_some cb (deadlock_cycle_event range st window).1

  unfoldable pub emit_audit_summary : String → M (Unit {0})
  emit_audit_summary source = do
    warn_quiescence
    warn_deadlock
    ev ← audit_summary_event source
    emit cb ev
