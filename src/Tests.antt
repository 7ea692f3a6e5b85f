-- ===== src/Tests.antt =====
-- The theorems at concrete timelines and runs.
mod Lifecycle
mod Analysis
mod Setup
use mathlib.Core.List.{Sublistᴰ}
use gtv_final_submission.Dedup.{dedup_key, dedup_timeline}
use gtv_final_submission.Dedup.Counters.{IsExact, dedup_timeline_counters}
use gtv_final_submission.Dedup.Order.{
  has_key, Distinct, dedup_timeline-snoc, dedup_timeline-Distinct, dedup_timeline_idempotent,
}
use gtv_final_submission.Parse.Keys.{op_key, channel_key}
use gtv_final_submission.Parse.Waiting.{wait_select_recv_twice}
use gtv_final_submission.Prelude.Text.{to_lower, trim_space, split_first}
use gtv_final_submission.Unmatched.{
  Scan, zero_scan, scan_events, entry_of, tally, compute_unmatched_audit_from_events,
  merge_unmatched_audit_into_summary,
}
use gtv_final_submission.Unmatched.Merge.{
  last_summary, summary_entry, new_entry, old_entry, added, strip, merge_updates_last,
}
use gtv_final_submission.Unmatched.Totals.{
  matched_on, unmatched_on, alone_on, is_alone, tally_counts,
}
use gtv_final_submission.Unmatched.Sums.{sum_of, mp, us, ur, blank, is_named_alone, audit_accounts}
use gtv_final_submission.Prelude.Int.{ℤ, pos, negsuc}
use gtv_final_submission.Prelude.Dict.{Dict, lookup, insert, count_entries}
use gtv_final_submission.Prelude.{
  ℕ, ◌+◌, ◌-◌, ◌<◌, ◌≤◌, String, Bool, true, false, Option, none, some, List, [], ◌∷◌, ◌++◌, ◌≡◌,
  ◌≢◌, ◌↔◌, refl, arith, length, map, if◌then◌else◌, ◌==◌, string_eq, text_eq,
}
use gtv_final_submission.Timeline.{
  GoroutineFilterMode, filter_timeline_event_for_mode, normalize_mode, teach_name, TimelineEvent,
  zero_event, UnmatchedTotals, ChannelUnmatchedAudit,
}
use gtv_final_submission.Timeline.Mode.{filter_idempotent}
use gtv_final_submission.Topology.{
  TopologyValidator, no_normalized_identity, observe, validate_topology,
}
use gtv_final_submission.Topology.Soundness.{
  IsPointerConsistent, IsNamed, validate_topology_iff, no_identity_unreachable,
}
use gtv_final_submission.Parse.Machine.{Callback, Machine, emit}
use gtv_final_submission.Parse.Messages.{KeepsIds, sent, received, count_events}
use gtv_final_submission.Parse.Messages.Rule.{IdOk}
use gtv_final_submission.Parse.Messages.Regions.{handle_region_op_unique}
use gtv_final_submission.Parse.Messages.Selects.{emit_select_chosen_case_unique}
use gtv_final_submission.Parse.Messages.Runs.{
  Reachable, start, region_end, case_chosen, delivered_once,
}
use gtv_final_submission.Parse.Pairing.{
  handle_region_op, settle_send, draw_msg_id, count_unknown, put_sends, recv_queue,
}
use gtv_final_submission.Parse.Select.{emit_select_chosen_case, wait_select_recv}
use gtv_final_submission.Parse.Queues.{
  select_recvs_at, pop_pending_recv, resolve_pending_select_recv, find_send_queue_by_name,
}
use gtv_final_submission.Parse.Keys.{parse_ch_key}
use gtv_final_submission.Parse.State.{ChKey, Options, ParseState, SelectCaseInfo, new_parse_state}

-- A callback that accepts every event, without wrappers.
abbrev accepting : Callback
accepting = record {
  wrap = λ ev. ev;
  refuses = λ out ev. false;
  range = λ ks. ks;
  skip_pairing_channels = [];
}

accepting-KeepsIds : KeepsIds accepting
accepting-KeepsIds ev = (refl, refl)

abbrev options : Options
options = record {
  synth_on_recv = false;
  drop_block_no_ch = false;
  emit_atomic = true;
  mode = "";
  goroutine_filter = GoroutineFilterMode.ops;
}

abbrev start_machine : Machine
start_machine = record { st = new_parse_state options; out = [] }

-- Goroutine 7 sends on a channel, and then goroutine 8 receives.
abbrev after_send : Machine
after_send =
    (handle_region_op accepting "jobs" (pos 7) "worker" (pos 1000000) "send" "0x1" start_machine).0

abbrev after_recv : Machine
after_recv =
    (handle_region_op accepting "jobs" (pos 8) "main" (pos 2000000) "recv" "0x1" after_send).0

abbrev send_then_recv : Reachable accepting options after_recv
send_then_recv =
    region_end "jobs" (pos 8) "main" (pos 2000000) "recv" "0x1"
      (region_end "jobs" (pos 7) "worker" (pos 1000000) "send" "0x1" start)

delivered_once_example : (received 1 after_recv ≤ sent 1 after_recv) × (sent 1 after_recv ≤ 1)
delivered_once_example =
    delivered_once accepting accepting-KeepsIds options 1 (omega arith) send_then_recv

-- The message arrives.
after_recv-received : received 1 after_recv ≡ 1
unfolding handle_region_op new_parse_state count_events emit lookup settle_send pop_pending_recv
    draw_msg_id count_unknown to_lower trim_space parse_ch_key split_first
    resolve_pending_select_recv put_sends insert channel_key recv_queue find_send_queue_by_name
after_recv-received = refl

start_machine-IdOk : IdOk 1 0 start_machine
unfolding new_parse_state count_events
start_machine-IdOk = (omega arith, omega arith)

handle_region_op_unique_example : IdOk 1 0 after_send
handle_region_op_unique_example =
    handle_region_op_unique accepting accepting-KeepsIds 1 "jobs" (pos 7) "worker" (pos 1000000)
      "send" "0x1" start_machine start_machine-IdOk

abbrev send_case : SelectCaseInfo
send_case = record {
  kind = "send";
  ch_ptr = "0x1";
  ch_key = "jobs";
  ch_name = "jobs";
  role = "worker";
  g = pos 7;
  time_ns = pos 1;
  index = pos 0;
}

emit_select_chosen_case_unique_example :
    IdOk 1 0
      (emit_select_chosen_case accepting "s1" send_case (pos 1000000) (pos 7) start_machine).0
emit_select_chosen_case_unique_example =
    emit_select_chosen_case_unique accepting accepting-KeepsIds 1 (omega arith) "s1" send_case
      (pos 1000000) (pos 7) start_machine start_machine-IdOk

abbrev jobs_key : ChKey
jobs_key = record { name = "jobs"; client_id = negsuc 0 }

wait_select_recv_twice_example :
    select_recvs_at
      (wait_select_recv jobs_key (op_key jobs_key "") start_machine.st)
      (op_key jobs_key "")
    ≡ select_recvs_at start_machine.st (op_key jobs_key "") + 2
wait_select_recv_twice_example = wait_select_recv_twice jobs_key start_machine.st refl

-- A send, a repetition of it, and a receive.
abbrev a_send : TimelineEvent
a_send = record zero_event {
  time_ms = pos 1000000;
  event = "chan_send";
  g = pos 7;
  channel = "jobs";
  ch_ptr = "0x1";
  source = "paired";
  msg_id = 1;
}

abbrev a_recv : TimelineEvent
a_recv = record zero_event {
  time_ms = pos 2000000;
  event = "chan_recv";
  g = pos 8;
  channel = "jobs";
  ch_ptr = "0x1";
  source = "paired";
  peer_g = pos 7;
  msg_id = 1;
}

abbrev timeline : List TimelineEvent
timeline = a_send ∷ a_send ∷ a_recv ∷ []

dedup_timeline-snoc_example :
    (dedup_timeline (timeline ++ a_recv ∷ [])).0
    ≡ (dedup_timeline timeline).0
      ++ (if has_key (dedup_key a_recv) timeline then [] else a_recv ∷ [])
dedup_timeline-snoc_example = dedup_timeline-snoc timeline a_recv

dedup_timeline-Distinct_example :
    Sublistᴰ (dedup_timeline timeline).0 timeline
    × Distinct (dedup_timeline timeline).0
    × ((k : String) → has_key k (dedup_timeline timeline).0 ≡ has_key k timeline)
dedup_timeline-Distinct_example = dedup_timeline-Distinct timeline

dedup_timeline_idempotent_example :
    let once = (dedup_timeline timeline).0 in
    ((dedup_timeline once).0 ≡ once) × ((dedup_timeline once).1.dropped ≡ 0)
dedup_timeline_idempotent_example = dedup_timeline_idempotent timeline

dedup_timeline_counters_example :
    let (kept, a) = dedup_timeline timeline in
    (a.total ≡ length timeline)
    × (a.dropped + length kept ≡ a.total)
    × (a.dropped_with_identity ≡ pos (a.dropped - a.dropped_missing_identity))
    × (a.dropped_missing_identity ≤ a.dropped)
    × IsExact timeline kept a
dedup_timeline_counters_example = dedup_timeline_counters timeline

validate_topology_iff_example :
    (validate_topology timeline ≡ none) ↔ (IsPointerConsistent timeline × IsNamed timeline)
validate_topology_iff_example = validate_topology_iff timeline

no_identity_unreachable_example :
    (observe (record { pointer_to_identity = [] }) a_send 0).1
    ≢ some (no_normalized_identity 0 "chan_send" "0x1")
no_identity_unreachable_example =
    no_identity_unreachable (record { pointer_to_identity = [] }) a_send 0 0 "chan_send" "0x1"

abbrev scan : Scan
scan = record {
  send_by_key = ("msg:1", "jobs") ∷ ("msg:2", "jobs") ∷ [];
  recv_by_key = ("msg:1", "jobs") ∷ [];
  unknown_channel_id = 0;
  warnings = [];
}

tally_counts_example :
    let e = entry_of "jobs" (tally scan).acc in
    (e.matched_pairs ≡ count_entries (matched_on scan.recv_by_key "jobs") scan.send_by_key)
    × (e.unmatched_sends ≡ count_entries (unmatched_on scan.recv_by_key "jobs") scan.send_by_key)
    × (e.unmatched_recvs ≡ count_entries (alone_on scan.send_by_key "jobs") scan.recv_by_key)
tally_counts_example = tally_counts scan "jobs" (λ e. cc)

audit_accounts_example :
    let (rows, tot, _) = compute_unmatched_audit_from_events timeline in
    let s = scan_events zero_scan timeline in
    (sum_of mp rows + tot.sends ≡ length s.send_by_key)
    × (sum_of us rows + count_entries blank s.send_by_key ≡ tot.sends)
    × (sum_of ur rows ≡ count_entries (is_named_alone s.send_by_key) s.recv_by_key)
    × (tot.recvs ≡ count_entries (is_alone s.send_by_key) s.recv_by_key)
audit_accounts_example = audit_accounts timeline

abbrev lost : UnmatchedTotals
lost = record { sends = 1; recvs = 0; unknown_channel_id = 0 }

merge_updates_last_example :
    let merged = merge_unmatched_audit_into_summary timeline [] lost [] in
    (summary_entry "unmatched_totals" merged
      ≡ new_entry [] lost [] "unmatched_totals"
          (old_entry "unmatched_totals" (last_summary timeline)))
    × (map strip merged ≡ map strip timeline ++ added timeline (last_summary timeline))
merge_updates_last_example = merge_updates_last timeline [] lost [] "unmatched_totals" refl

filter_idempotent_example :
    let ev' =
      (filter_timeline_event_for_mode (record a_send { event = "blocked_send" }) "Teach").0 in
    filter_timeline_event_for_mode ev' "Teach" ≡ (ev', true, "")
unfolding filter_timeline_event_for_mode normalize_mode to_lower trim_space teach_name lookup
filter_idempotent_example =
    filter_idempotent (record a_send { event = "blocked_send" }) "Teach" refl
