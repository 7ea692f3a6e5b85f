-- ===== src/Audit/Cycle.antt =====
-- The entry of a deadlock in the value of the summary.
use gtv_final_submission.Prelude.Dict.{lookup, or_zero}
use gtv_final_submission.Prelude.Int.{pos, ltb_ℤ}
use gtv_final_submission.Prelude.{
  ◌+◌, String, Bool, true, false, ◌&&◌, Option, some, List, [], ◌∷◌, ◌==◌, nat_eq, string_eq, ◌≡◌,
  refl, ap, ◌∙◌, if◌then◌else◌,
}
use gtv_final_submission.Timeline.{
  Value, Fields, UnmatchedTotals, end, object, number, texts, channels, totals, millis, durations,
}
use gtv_final_submission.Parse.State.{ParseState}
use gtv_final_submission.Unmatched.{set_field, sort_keys, entries}
use gtv_final_submission.Unmatched.Entries.{field_of, field_of-set_field}
use gtv_final_submission.Audit.Channels.{tally_state, waiting_channels, waiting_sends}
use gtv_final_submission.Audit.Blocked.{if_any, top_items, top_of, longest, waits, add_blocked}
use gtv_final_submission.Audit.Summary.{
  set_counts, set_some, add_waiting, add_unmatched, add_filtered, audit_fields,
}

-- The key of the cycle, and what writes to another key.
abbrev pub cycle_of : Fields → Option Value
cycle_of fs = field_of "deadlock_cycle" fs

other_key :
    (j : String) (v : Value) (fs : Fields)
    → (j == "deadlock_cycle") ≡ false
    → cycle_of (set_field j v fs) ≡ cycle_of fs
other_key j v fs h = field_of-set_field "deadlock_cycle" j v fs ∙ rw h refl

skipped :
    (b : Bool) (fs gs : Fields)
    → cycle_of fs ≡ cycle_of gs
    → cycle_of (if b then gs else fs) ≡ cycle_of gs
skipped true fs gs h = refl
skipped false fs gs h = h

added :
    (b : Bool) (fs gs : Fields)
    → cycle_of gs ≡ cycle_of fs
    → cycle_of (if b then gs else fs) ≡ cycle_of fs
added true fs gs h = h
added false fs gs h = refl

if_any_same {ℓ} :
    {A : Type ℓ} (xs : List A) (j : String) (v : Value) (fs : Fields)
    → (j == "deadlock_cycle") ≡ false
    → cycle_of (if_any xs (set_field j v) fs) ≡ cycle_of fs
if_any_same [] j v fs h = refl
if_any_same (x ∷ xs) j v fs h = other_key j v fs h

add_waiting_same : (st : ParseState) (fs : Fields) → cycle_of (add_waiting st fs) ≡ cycle_of fs
add_waiting_same st fs =
    let sends = number (pos (waiting_sends st.sends_by_key)) in
    let chans = number (pos (waiting_channels st.sends_by_key)) in
    let one = set_field "unmatched_send_pending" sends fs in
    skipped (waiting_sends st.sends_by_key == 0) (set_field "unmatched_send_channels" chans one) fs
      (other_key "unmatched_send_channels" chans one refl
        ∙ other_key "unmatched_send_pending" sends fs refl)

add_unmatched_same : (st : ParseState) (fs : Fields) → cycle_of (add_unmatched st fs) ≡ cycle_of fs
add_unmatched_same st fs =
    let t = tally_state st in
    let sums : UnmatchedTotals = record {
      sends = t.sends;
      recvs = t.recvs;
      unknown_channel_id = st.unknown_channel_id;
    } in
    let by_channel =
      if_any t.acc (set_field "unmatched_by_channel" (channels (entries (sort_keys t.acc)))) fs in
    skipped ((t.sends == 0) && ((t.recvs == 0) && (st.unknown_channel_id == 0)))
      (set_field "unmatched_totals" (totals sums) by_channel) by_channel
      (other_key "unmatched_totals" (totals sums) by_channel refl)
    ∙ if_any_same t.acc "unmatched_by_channel" (channels (entries (sort_keys t.acc))) fs refl

add_filtered_same : (st : ParseState) (fs : Fields) → cycle_of (add_filtered st fs) ≡ cycle_of fs
add_filtered_same st fs =
    let n =
      or_zero 0 (lookup "goroutine_lifecycle_filtered_by_name" st.audit_counts)
      + or_zero 0 (lookup "goroutine_lifecycle_filtered_by_missing_ops" st.audit_counts) in
    skipped (n == 0) (set_field "goroutine_filtered_total" (number (pos n)) fs) fs
      (other_key "goroutine_filtered_total" (number (pos n)) fs refl)

add_blocked_same : (st : ParseState) (fs : Fields) → cycle_of (add_blocked st fs) ≡ cycle_of fs
unfolding add_blocked
add_blocked_same st fs =
    let items = top_items st in
    let top = top_of [] items in
    let most = longest (pos 0) items in
    let gs = set_field "max_blocked_ms" (millis most) fs in
    let fs1 = if ltb_ℤ (pos 0) most then gs else fs in
    let fs2 = if_any top (set_field "blocked_total_ms_by_gid" (durations top)) fs1 in
    if_any_same (waits st).by_reason "blocked_total_ms_by_reason" (durations (waits st).by_reason)
      fs2 refl
    ∙ if_any_same top "blocked_total_ms_by_gid" (durations top) fs1 refl
    ∙ added (ltb_ℤ (pos 0) most) fs gs (other_key "max_blocked_ms" (millis most) fs refl)

pub audit_fields_cycle :
    (st : ParseState) (cycle : Fields)
    → st.deadlock_cycle ≡ some cycle
    → cycle_of (audit_fields st) ≡ some (object cycle)
unfolding audit_fields
audit_fields_cycle st cycle h =
    let counts = set_counts st.audit_counts end in
    let fs0 = set_some st.deadlock_cycle counts in
    let fs1 = add_waiting st fs0 in
    let fs2 = add_unmatched st fs1 in
    let fs3 = add_filtered st fs2 in
    let fs4 =
      if_any st.unparsed_region_samples
        (set_field "unparsed_region_samples" (texts st.unparsed_region_samples)) fs3 in
    add_blocked_same st fs4
    ∙ if_any_same st.unparsed_region_samples "unparsed_region_samples"
        (texts st.unparsed_region_samples) fs3 refl
    ∙ add_filtered_same st fs2
    ∙ add_unmatched_same st fs1
    ∙ add_waiting_same st fs0
    ∙ ap (λ (o : Option Fields). cycle_of (set_some o counts)) h
    ∙ field_of-set_field "deadlock_cycle" "deadlock_cycle" (object cycle) counts
