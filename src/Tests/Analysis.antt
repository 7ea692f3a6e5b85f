-- ===== src/Tests/Analysis.antt =====
-- The search for deadlocks and the normalization, at concrete states and timelines.
use mathlib.Core.List.{Perm}
use gtv_final_submission.Prelude.Dict.{lookup, insert, keys}
use gtv_final_submission.Prelude.Int.{ℤ, pos, ltb_ℤ, ◌≤ℤ◌, ◌-ℤ◌, ◌+ℤ◌, int_eq}
use gtv_final_submission.Prelude.Members.{member}
use gtv_final_submission.Prelude.Sort.{IsAscending, sort_by, place_by}
use gtv_final_submission.Prelude.Text.{to_lower, trim_space, show_ℤ}
use gtv_final_submission.Prelude.TextOrder.{text_ltb}
use gtv_final_submission.Prelude.{
  String, some, List, [], ◌∷◌, ◌++◌, map, length, ◌≡◌, ◌≢◌, refl, All, text_eq, string_eq,
}
use gtv_final_submission.Timeline.{
  TimelineEvent, zero_event, gids, field, object, millis, number, end, normalize_mode,
}
use gtv_final_submission.Parse.State.{ParseState, BlockedInfo, new_parse_state}
use gtv_final_submission.Deadlock.Graph.{wait_edge, resolve_candidate}
use gtv_final_submission.Deadlock.Search.{
  deadlock_cycle_event, find_cycle, out_of_fuel, quiescence_warning_event, sort_gids, place,
}
use gtv_final_submission.Deadlock.Walks.{IsRing}
use gtv_final_submission.Deadlock.Quiet.{IsSorted, quiescence_warning_event_lists}
use gtv_final_submission.Deadlock.Fuel.{find_cycle_ends}
use gtv_final_submission.Deadlock.Cycles.{
  waits_for, IsWarningOf, deadlock_cycle_event-IsRing, deadlock_cycle_event_finds,
}
use gtv_final_submission.Normalize.Summary.{validate_channel_identities}
use gtv_final_submission.Normalize.Envelope.{normalize_timeline, normalized}
use gtv_final_submission.Normalize.Entities.{
  EntitiesTable, tables, collect, build_entities_from_timeline,
}
use gtv_final_submission.Normalize.Order.{IsOrdered}
use gtv_final_submission.Normalize.Shape.{
  IsPlain, IsClosedBy, drop_summaries, normalize_timeline-IsOrdered, normalize_timeline_keeps,
}
use gtv_final_submission.Normalize.Identity.{normalize_timeline-validate}
use gtv_final_submission.Normalize.Codes.{IsCoded, normalize_timeline-IsCoded}
use gtv_final_submission.Normalize.Entry.{gid_of, chan_id_of, runs_on, names_channel, some_event}
use gtv_final_submission.Normalize.Roster.{
  no_maps, build_entities-goroutines, build_entities-channels,
}
use gtv_final_submission.Parse.Machine.{Machine}
use gtv_final_submission.Normalize.Summary.{fields_of}
use gtv_final_submission.Audit.Blocked.{waits, add_present, longest, top_items, top_of}
use gtv_final_submission.Audit.Cycle.{cycle_of}
use gtv_final_submission.Audit.Summary.{emit_audit_summary}
use gtv_final_submission.Audit.Report.{emit_audit_summary_reports}
use gtv_final_submission.Tests.{accepting, options, timeline}

abbrev waits_on : String → BlockedInfo
waits_on ch = record { reason = "recv"; ch = ch; channel_id = ch; confidence = "" }

-- Goroutines 1 and 2 each wait to receive from the channel on which the other one sent last.
abbrev deadlocked : ParseState
deadlocked =
    let st = new_parse_state options in
    record st {
      last_time_ms = pos 5;
      blocking = record st.blocking {
        blocked = (pos 1, waits_on "a") ∷ (pos 2, waits_on "b") ∷ [];
        last_progress_ms = pos 1;
      };
      activity = record st.activity {
        last_send_by_channel =
            ("a", record { g = pos 2; time_ms = pos 4 })
            ∷ ("b", record { g = pos 1; time_ms = pos 3 })
            ∷ [];
      };
    }

abbrev ring : List ℤ
ring = pos 1 ∷ pos 2 ∷ pos 1 ∷ []

ring-IsRing : IsRing (waits_for deadlocked (pos 100)) ring
unfolding new_parse_state wait_edge resolve_candidate lookup ◌-ℤ◌
ring-IsRing = (pos 1, pos 2 ∷ [], refl, (refl, (refl, tt)))

deadlock_cycle_event_finds_example :
    (ev : TimelineEvent) × ((deadlock_cycle_event (λ gs. gs) deadlocked (pos 100)).1 ≡ some ev)
deadlock_cycle_event_finds_example =
    deadlock_cycle_event_finds (λ gs. gs) deadlocked (pos 100) ring (λ l x. refl) ring-IsRing

abbrev the_warning :
    (ev : TimelineEvent) × ((deadlock_cycle_event (λ gs. gs) deadlocked (pos 100)).1 ≡ some ev)
the_warning =
    deadlock_cycle_event_finds (λ gs. gs) deadlocked (pos 100) ring (λ l x. refl) ring-IsRing

deadlock_cycle_event-IsRing_example :
    (c : List ℤ) × IsRing (waits_for deadlocked (pos 100)) c
    × IsWarningOf (λ gs. gs) c the_warning.0
deadlock_cycle_event-IsRing_example =
    deadlock_cycle_event-IsRing (λ gs. gs) deadlocked (pos 100) the_warning.0 (λ l x. refl)
      the_warning.1

find_cycle_ends_example :
    find_cycle ((pos 1, pos 2 ∷ []) ∷ (pos 2, pos 1 ∷ []) ∷ []) (pos 1 ∷ pos 2 ∷ []) ≢ out_of_fuel
find_cycle_ends_example =
    find_cycle_ends ((pos 1, pos 2 ∷ []) ∷ (pos 2, pos 1 ∷ []) ∷ []) (pos 1 ∷ pos 2 ∷ [])

abbrev quiet_event : TimelineEvent
quiet_event = record zero_event {
  time_ms = pos 5;
  event = "warn_quiescence";
  source = "audit";
  value = object (
      field "since_ms" (millis (pos 4)) (
        field "blocked_count" (number (pos 2))
          (field "blocked_gids" (gids (pos 1 ∷ pos 2 ∷ [])) end)));
}

quiescence_warning_event_lists_example :
    (l : List ℤ) × IsSorted l
    × Perm l (keys deadlocked.blocked)
    × (pos 3 ≤ℤ (deadlocked.last_time_ms -ℤ deadlocked.last_progress_ms))
    × (quiet_event.value
        ≡ object (
            field "since_ms" (millis (deadlocked.last_time_ms -ℤ deadlocked.last_progress_ms)) (
              field "blocked_count" (number (pos (length l))) (field "blocked_gids" (gids l) end))))
unfolding new_parse_state quiescence_warning_event sort_gids place ◌-ℤ◌
quiescence_warning_event_lists_example =
    quiescence_warning_event_lists deadlocked (pos 3) quiet_event refl

normalize_timeline-IsOrdered_example :
    (body : List TimelineEvent) × IsOrdered body
    × All IsPlain body
    × IsClosedBy body (normalize_timeline "teach" timeline).events
normalize_timeline-IsOrdered_example = normalize_timeline-IsOrdered "teach" timeline

debug_is_other : normalize_mode "debug" ≢ "teach"
unfolding normalize_mode to_lower trim_space
debug_is_other e = let h = (text_eq "debug" "teach").1 e in cc

normalize_timeline_keeps_example :
    Perm
      (drop_summaries (normalize_timeline "debug" timeline).events)
      (drop_summaries (normalized timeline).0)
normalize_timeline_keeps_example = normalize_timeline_keeps "debug" timeline debug_is_other

normalize_timeline-validate_example :
    validate_channel_identities (normalize_timeline "debug" timeline).events ≡ []
normalize_timeline-validate_example = normalize_timeline-validate "debug" timeline debug_is_other

normalize_timeline-IsCoded_example : All IsCoded (normalize_timeline "" timeline).warnings_v2
normalize_timeline-IsCoded_example = normalize_timeline-IsCoded "" timeline

abbrev the_table : EntitiesTable
the_table = tables (collect no_maps timeline)

build_entities-goroutines_example :
    IsAscending gid_of ltb_ℤ the_table.goroutines
    × ((x : ℤ) → member x (map gid_of the_table.goroutines) ≡ some_event (runs_on x) timeline)
unfolding build_entities_from_timeline
build_entities-goroutines_example = build_entities-goroutines timeline the_table refl

build_entities-channels_example :
    IsAscending chan_id_of text_ltb the_table.channels
    × ((x : String)
        → member x (map chan_id_of the_table.channels) ≡ some_event (names_channel x) timeline)
unfolding build_entities_from_timeline
build_entities-channels_example = build_entities-channels timeline the_table refl

abbrev deadlocked_machine : Machine
deadlocked_machine = record { st = deadlocked; out = [] }

emit_audit_summary_reports_example :
    (before : List TimelineEvent) × (s : TimelineEvent) × ((emit_audit_summary accepting
        (λ gs. gs)
        (pos 3)
        (pos 100)
        "run"
        deadlocked_machine).0.out
      ≡ before ++ (the_warning.0 ∷ s ∷ []))
    × (s.event ≡ "audit_summary")
    × (cycle_of (fields_of s.value) ≡ some the_warning.0.value)
emit_audit_summary_reports_example =
    emit_audit_summary_reports accepting (λ gs. gs) (pos 3) (pos 100) "run" deadlocked_machine
      the_warning.0 (λ out ev. refl) the_warning.1

-- Goroutine 7 was blocked for 10 and is blocked for 3 more.
abbrev blocked_again : ParseState
blocked_again =
    let st = new_parse_state options in
    record st {
      last_time_ms = pos 8;
      blocking = record st.blocking {
        blocked_at = (pos 7, pos 5) ∷ [];
        blocked_total_ms = (pos 7, pos 10) ∷ [];
      };
    }

blocked_again-longest : longest (pos 0) (top_items blocked_again) ≡ pos 13
unfolding new_parse_state waits add_present sort_by place_by lookup insert ◌-ℤ◌ ◌+ℤ◌ longest
blocked_again-longest = refl

blocked_again_top : top_of [] (top_items blocked_again) ≡ ("g7", pos 10) ∷ []
unfolding new_parse_state waits add_present sort_by place_by lookup insert ◌-ℤ◌ ◌+ℤ◌ top_of show_ℤ
blocked_again_top = refl
