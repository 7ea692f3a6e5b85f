-- ===== src/Normalize/Summary.antt =====
-- The order of a normalized timeline, its filter, and its one audit summary.
use Prim.Native.String.{◌++◌}
use gtv_final_submission.Prelude.Dict.{Dict, lookup, insert, or_zero}
use gtv_final_submission.Prelude.Int.{ℤ, pos, ltb_ℤ, ◌+ℤ◌, int_eq}
use gtv_final_submission.Prelude.Text.{to_lower, show_ℤ, starts_with}
use gtv_final_submission.Prelude.TextOrder.{text_ltb}
use gtv_final_submission.Prelude.{
  String, Bool, not, ◌&&◌, List, [], ◌∷◌, ◌==◌, string_eq, if◌then◌else◌,
}
use gtv_final_submission.Timeline.{
  Value, Fields, TimelineEvent, nil, end, field, object, counters, number, summary, deduped,
  filter_timeline_event_for_mode,
}
use gtv_final_submission.Timeline.Kinds.{timeline_channel_identity, is_channel_event}
use gtv_final_submission.Unmatched.{set_field, add_warnings}

-- The order that sort.SliceStable is given.
unfoldable pub comes_before : TimelineEvent → TimelineEvent → Bool
comes_before a b =
    if not (a.time_ns == b.time_ns)
    then ltb_ℤ a.time_ns b.time_ns
    else if not (a.seq == b.seq)
    then ltb_ℤ a.seq b.seq
    else if not (a.g == b.g)
    then ltb_ℤ a.g b.g
    else text_ltb (to_lower a.event) (to_lower b.event)

-- An event goes in front of those that do not come before it.
unfoldable pub place_event : TimelineEvent → List TimelineEvent → List TimelineEvent
place_event ev [] = ev ∷ []
place_event ev (e ∷ es) =
    let below = place_event ev es in if comes_before e ev then e ∷ below else ev ∷ e ∷ es

unfoldable pub sort_events : List TimelineEvent → List TimelineEvent
sort_events [] = []
sort_events (ev ∷ evs) = place_event ev (sort_events evs)

-- The loop of the "teach" mode, with the counts of what it drops.
unfoldable pub filter_events :
    String → Dict String ℤ → List TimelineEvent → List TimelineEvent × Dict String ℤ
filter_events mode drops [] = ([], drops)
filter_events mode drops (ev ∷ evs) =
    let r = filter_timeline_event_for_mode ev mode in
    let counted = or_zero (pos 0) (lookup r.2 drops) +ℤ pos 1 in
    let rest = filter_events mode (if r.1 then drops else insert r.2 counted drops) evs in
    (if r.1 then r.0 ∷ rest.0 else rest.0, rest.1)

abbrev pub set_counters : Dict String ℤ → Fields → Fields
set_counters [] fs = fs
set_counters ((k, n) ∷ m) fs = set_counters m (set_field k (number n) fs)

abbrev pub set_all : Fields → Fields → Fields
set_all end fs = fs
set_all (field k v more) fs = set_all more (set_field k v fs)

-- The closure `mergeValue`: the switch on the dynamic type of the value.
unfoldable pub merge_summary_value : Fields → Value → Fields
merge_summary_value dst (object fs) = set_all fs dst
merge_summary_value dst (counters m) = set_counters m dst
merge_summary_value dst (summary s) =
    add_warnings s.warnings (set_field "dedup" (deduped s.dedup) dst)
merge_summary_value dst nil = dst
merge_summary_value dst v = set_field "summary" v dst

abbrev pub is_summary : TimelineEvent → Bool
is_summary ev = to_lower ev.event == "audit_summary"

-- A type assertion to map[string]any.
abbrev pub fields_of : Value → Fields
fields_of (object fs) = fs
fields_of v = end

unfoldable pub merge_summary : TimelineEvent → TimelineEvent → TimelineEvent
merge_summary merged ev =
    if merged.event == ""
    then record ev { value = object (merge_summary_value end ev.value) }
    else record merged {
      value = object (merge_summary_value (fields_of merged.value) ev.value);
      time_ns = if ltb_ℤ merged.time_ns ev.time_ns then ev.time_ns else merged.time_ns;
      time_ms = if ltb_ℤ merged.time_ns ev.time_ns then ev.time_ms else merged.time_ms;
      source = ev.source;
    }

-- The events that are no summary, and the summaries in one.
unfoldable pub merge_audit_summaries :
    TimelineEvent → List TimelineEvent → List TimelineEvent × TimelineEvent
merge_audit_summaries merged [] = ([], merged)
merge_audit_summaries merged (ev ∷ evs) =
    let rest =
      merge_audit_summaries (if is_summary ev then merge_summary merged ev else merged) evs in
    (if is_summary ev then rest.0 else ev ∷ rest.0, rest.1)

unfoldable pub validate_channel_identities : List TimelineEvent → List String
validate_channel_identities [] = []
validate_channel_identities (ev ∷ evs) =
    let rest = validate_channel_identities evs in
    if is_channel_event (to_lower ev.event) && (timeline_channel_identity ev == "")
    then ("validation: channel identity missing for "
        ++ ev.event
        ++ " (g="
        ++ show_ℤ ev.g
        ++ " seq="
        ++ show_ℤ ev.seq
        ++ " time_ns="
        ++ show_ℤ ev.time_ns
        ++ ")")
      ∷ rest
    else rest

-- The codes of the warnings.
pub record WarningEntry : Type 0 where
  pub code : String
  pub message : String

abbrev pub generic_code : String
generic_code = "warning"

abbrev pub goroutine_code : String
goroutine_code = "missing_goroutine_id"

abbrev pub identity_code : String
identity_code = "missing_channel_identity"

abbrev pub pairing_code : String
pairing_code = "missing_pairing_fields"

abbrev pub validation_code : String
validation_code = "validation_channel_identity_missing"

unfoldable pub warning_code : String → String
warning_code w =
    let low = to_lower w in
    if starts_with low "missing goroutine id"
    then goroutine_code
    else if starts_with low "missing channel identity"
    then identity_code
    else if starts_with low "missing pairing fields"
    then pairing_code
    else if starts_with low "validation: channel identity missing"
    then validation_code
    else generic_code

abbrev pub code_warnings : List String → List WarningEntry
code_warnings [] = []
code_warnings (w ∷ ws) = record { code = warning_code w; message = w } ∷ code_warnings ws
