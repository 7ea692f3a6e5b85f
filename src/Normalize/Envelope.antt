-- ===== src/Normalize/Envelope.antt =====
-- `NormalizeTimeline` as a whole.
use mathlib.Core.List.{◌++◌ as append}
use gtv_final_submission.Prelude.Dict.{Dict, lookup, insert, or_zero}
use gtv_final_submission.Prelude.Int.{ℤ, pos, ◌+ℤ◌}
use gtv_final_submission.Prelude.{
  ℕ, String, Bool, not, ◌&&◌, Option, List, [], ◌∷◌, ◌==◌, string_eq, if◌then◌else◌, length, nat_eq,
}
use gtv_final_submission.Timeline.{
  Fields, TimelineEvent, zero_event, text, number, object, counters, normalize_mode,
}
use gtv_final_submission.Unmatched.{set_field}
use gtv_final_submission.Normalize.Fields.{normalize_events, learn_names}
use gtv_final_submission.Normalize.Summary.{
  WarningEntry, code_warnings, sort_events, filter_events, merge_audit_summaries, is_summary,
  fields_of,
}
use gtv_final_submission.Normalize.Entities.{
  EntitiesTable, build_entities_from_timeline, compute_capabilities,
}

pub record TimelineEnvelope : Type 0 where
  pub schema_version : ℕ
  pub capabilities : List String
  pub events : List TimelineEvent
  pub entities : Option EntitiesTable
  pub warnings : List String
  pub warnings_v2 : List WarningEntry

abbrev pub timeline_schema_version : ℕ
timeline_schema_version = 1

abbrev pub set_value : (Fields → Fields) → TimelineEvent → TimelineEvent
set_value f ev = record ev { value = object (f (fields_of ev.value)) }

abbrev drop_counts : Dict String ℤ → Fields → Fields
drop_counts [] fs = fs
drop_counts drops fs = set_field "mode_drop_counts" (counters drops) fs

-- What the "teach" mode adds to the summary.
abbrev teach_fields : ℕ → ℕ → Dict String ℤ → Fields → Fields
teach_fields before after drops fs = drop_counts drops (
    set_field "events_after" (number (pos after))
      (set_field "events_before" (number (pos before)) (set_field "mode" (text "teach") fs)))

unfoldable pub count_by_type : Dict String ℤ → List TimelineEvent → Dict String ℤ
count_by_type m [] = m
count_by_type m (ev ∷ evs) =
    count_by_type
      (if ev.event == ""
        then m
        else insert ev.event (or_zero (pos 0) (lookup ev.event m) +ℤ pos 1) m)
      evs

-- The counts go into the last event, if that is a summary.
unfoldable pub set_last : (Fields → Fields) → List TimelineEvent → List TimelineEvent
set_last f [] = []
set_last f (ev ∷ []) = (if is_summary ev then set_value f ev else ev) ∷ []
set_last f (ev ∷ e ∷ evs) = ev ∷ set_last f (e ∷ evs)

abbrev pub is_teach : String → Bool
is_teach mode = normalize_mode mode == "teach"

-- The events without the summaries, and the summary, with what "teach" adds.
unfoldable pub arrange : String → List TimelineEvent → List TimelineEvent × TimelineEvent
arrange mode normalized =
    let filtered = if is_teach mode then filter_events mode [] normalized else (normalized, []) in
    let r = merge_audit_summaries zero_event (sort_events filtered.0) in
    (
      r.0,
      if is_teach mode && (not (length r.0 == 0) && (r.1.event == "audit_summary"))
          then set_value (teach_fields (length normalized) (length r.0) filtered.1) r.1
          else r.1,
    )

-- The summary comes last, with the counts of all the events.
unfoldable pub close : List TimelineEvent × TimelineEvent → List TimelineEvent
close (evs, merged) =
    let all_events = if merged.event == "audit_summary" then append evs (merged ∷ []) else evs in
    set_last (set_field "event_counts_by_type" (counters (count_by_type [] all_events))) all_events

-- The two loops, from no alias on.
unfoldable pub normalized : List TimelineEvent → List TimelineEvent × List String
normalized events =
    normalize_events (learn_names [] events) 0 (record { ptr_aliases = []; alias_seq = 0 }) events

-- The mode is that of the parser's options, "" where there is no parser. The warnings of
-- validateChannelIdentities are computed when the list of warnings has been read: nothing uses them.
unfoldable pub normalize_timeline : String → List TimelineEvent → TimelineEnvelope
normalize_timeline mode events =
    let r = normalized events in
    let evs = close (arrange mode r.0) in
    let entities = build_entities_from_timeline evs in
    record {
      schema_version = timeline_schema_version;
      capabilities = compute_capabilities evs entities;
      events = evs;
      entities = entities;
      warnings = [];
      warnings_v2 = code_warnings r.1;
    }
