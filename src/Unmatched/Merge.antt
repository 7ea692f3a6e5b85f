-- ===== src/Unmatched/Merge.antt =====
-- What `MergeUnmatchedAuditIntoSummary` changes in a timeline.
use mathlib.Core.List.{append-nil}
use gtv_final_submission.Dedup.{last_time}
use gtv_final_submission.Prelude.Dict.{Dict, lookup}
use gtv_final_submission.Prelude.Int.{ℤ}
use gtv_final_submission.Prelude.{
  String, false, not, ◌&&◌, Option, none, some, List, [], ◌∷◌, ◌++◌, map, ◌==◌, ◌≡◌, refl, ap, sym,
  ◌∙◌, arith, text_eq, string_eq, if◌then◌else◌, inl, inr, Option-cases, Bool-cases,
}
use gtv_final_submission.Timeline.{
  Value, Fields, Warning, ChannelUnmatchedAudit, UnmatchedTotals, TimelineEvent, nil, end, field,
  object, channels, totals, warned, counters, number, zero_event,
}
use gtv_final_submission.Unmatched.{
  payload, set_field, is_empty, counter_fields, merge_value, merge_last, nothing_unmatched,
  merge_unmatched_audit_into_summary,
}
use gtv_final_submission.Unmatched.Entries.{field_of, field_of-set_field}

-- An event but for its value.
abbrev pub strip : TimelineEvent → TimelineEvent
strip ev = record ev { value = nil }

-- The value of the last summary.
unfoldable pub last_summary : List TimelineEvent → Option Value
last_summary [] = none
last_summary (ev ∷ evs) = elim (last_summary evs) [
  | some v ↦ some v
  | none ↦ if ev.event == "audit_summary" then some ev.value else none
]

merge_last-none :
    (f : Value → Value) (evs : List TimelineEvent)
    → last_summary evs ≡ none
    → merge_last f evs ≡ none
unfolding last_summary merge_last
merge_last-none f [] h = refl
merge_last-none f (ev ∷ evs) h = ground (arith, merge_last-none f evs)

-- The timeline with the last summary rewritten.
abbrev Rewrites : (Value → Value) → List TimelineEvent → Value → List TimelineEvent → Type 0
Rewrites f evs v evs' =
    (merge_last f evs ≡ some evs')
    × (map strip evs' ≡ map strip evs)
    × (last_summary evs' ≡ some (f v))

merge_last_some :
    (f : Value → Value) (evs : List TimelineEvent) (v : Value)
    → last_summary evs ≡ some v
    → (evs' : List TimelineEvent) × Rewrites f evs v evs'
unfolding last_summary merge_last
merge_last_some f [] v h = cc
merge_last_some f (ev ∷ evs) v h = elim (Option-cases (last_summary evs)) [
  | inl e ↦ (
    record ev { value = f ev.value } ∷ evs,
    (ground (arith, merge_last-none f evs e), refl, ground arith),
  )
  | inr (w, e) ↦
      let (evs', r) = merge_last_some f evs w e in
      let (same, kept, last) = r in (ev ∷ evs', (rw same, ap (◌∷◌ (strip ev)) kept, ground arith))
]

last_summary-snoc :
    (evs : List TimelineEvent) (ev : TimelineEvent)
    → ev.event ≡ "audit_summary"
    → last_summary (evs ++ ev ∷ []) ≡ some ev.value
unfolding last_summary
last_summary-snoc [] ev h = rw ((text_eq ev.event "audit_summary").1 h)
last_summary-snoc (e ∷ evs) ev h = ground (arith, last_summary-snoc evs ev h)

-- The entry of a summary's value under a key, where the value is an object.
abbrev pub entry_of_value : String → Value → Option Value
entry_of_value k (object fs) = field_of k fs
entry_of_value k v = none

abbrev pub entry_in : String → Option Value → Option Value
entry_in k none = none
entry_in k (some v) = entry_of_value k v

abbrev pub summary_entry : String → List TimelineEvent → Option Value
summary_entry k evs = entry_in k (last_summary evs)

-- A counter of a table as an entry.
abbrev pub counter_entry : Option ℤ → Option Value
counter_entry none = none
counter_entry (some n) = some (number n)

-- What a summary brings into a merge under a key: a table of counters has its counters, and a value
-- of another type is put under "summary".
abbrev pub value_entry : String → Value → Option Value
value_entry k (object fs) = field_of k fs
value_entry k (counters m) = counter_entry (lookup k m)
value_entry k v = if "summary" == k then some v else none

abbrev pub old_entry : String → Option Value → Option Value
old_entry k none = none
old_entry k (some v) = value_entry k v

-- What the summary has under a key after it.
abbrev pub new_entry :
    List ChannelUnmatchedAudit
    → UnmatchedTotals
    → List Warning
    → String
    → Option Value
    → Option Value
new_entry by tot ws k old =
    if not (is_empty ws) && ("warnings" == k)
    then some (warned ws)
    else if "unmatched_totals" == k
    then some (totals tot)
    else if "unmatched_by_channel" == k
    then some (channels by)
    else old

module _ (by : List ChannelUnmatchedAudit) (tot : UnmatchedTotals) (k : String) where
  payload_entry :
      (ws : List Warning) (fs : Fields)
      → field_of k (payload by tot ws fs) ≡ new_entry by tot ws k (field_of k fs)
  payload_entry [] fs =
      rw
        (
          field_of-set_field k "unmatched_totals" (totals tot)
              (set_field "unmatched_by_channel" (channels by) fs),
          field_of-set_field k "unmatched_by_channel" (channels by) fs,
        )
        refl
  payload_entry (w ∷ ws) fs =
      rw
        (
          field_of-set_field k "warnings" (warned (w ∷ ws)) (
              set_field "unmatched_totals" (totals tot)
                (set_field "unmatched_by_channel" (channels by) fs)),
          field_of-set_field k "unmatched_totals" (totals tot)
              (set_field "unmatched_by_channel" (channels by) fs),
          field_of-set_field k "unmatched_by_channel" (channels by) fs,
        )
        refl

counter_fields-entry :
    (k : String) (m : Dict String ℤ) → field_of k (counter_fields m) ≡ counter_entry (lookup k m)
unfolding field_of lookup
counter_fields-entry k [] = refl
counter_fields-entry k ((j, n) ∷ m) = elim (Bool-cases (j == k)) [
  | inl e ↦ rw (e, lookup, field_of) refl
  | inr e ↦ rw (e, lookup, field_of) (counter_fields-entry k m)
]

abbrev pub added : List TimelineEvent → Option Value → List TimelineEvent
added events none =
    record zero_event { time_ms = last_time events; event = "audit_summary"; source = "audit" } ∷ []
added events (some v) = []

map-strip-append :
    (xs ys : List TimelineEvent) → map strip (xs ++ ys) ≡ map strip xs ++ map strip ys
map-strip-append [] ys = refl
map-strip-append (x ∷ xs) ys = ap (◌∷◌ (strip x)) (map-strip-append xs ys)

module _ (by : List ChannelUnmatchedAudit) (tot : UnmatchedTotals) (ws : List Warning)
    (k : String) where
  wrapped_entry :
      (v : Value)
      → field_of k (payload by tot ws (field "summary" v end))
        ≡ new_entry by tot ws k (if "summary" == k then some v else none)
  unfolding field_of
  wrapped_entry v = payload_entry by tot k ws (field "summary" v end)

  merge_value-entry :
      (v : Value)
      → entry_of_value k (merge_value by tot ws v) ≡ new_entry by tot ws k (value_entry k v)
  unfolding merge_value
  merge_value-entry (object fs) = payload_entry by tot k ws fs
  merge_value-entry (counters m) =
      payload_entry by tot k ws (counter_fields m)
      ∙ ap (new_entry by tot ws k) (counter_fields-entry k m)
  merge_value-entry Value.nil = wrapped_entry Value.nil
  merge_value-entry (Value.text s) = wrapped_entry (Value.text s)
  merge_value-entry (Value.number n) = wrapped_entry (Value.number n)
  merge_value-entry (Value.millis t) = wrapped_entry (Value.millis t)
  merge_value-entry (Value.gids gs) = wrapped_entry (Value.gids gs)
  merge_value-entry (Value.texts ss) = wrapped_entry (Value.texts ss)
  merge_value-entry (Value.warned w) = wrapped_entry (Value.warned w)
  merge_value-entry (Value.channels es) = wrapped_entry (Value.channels es)
  merge_value-entry (Value.totals t) = wrapped_entry (Value.totals t)
  merge_value-entry (Value.durations m) = wrapped_entry (Value.durations m)
  merge_value-entry (Value.summary a) = wrapped_entry (Value.summary a)
  merge_value-entry (Value.deduped d) = wrapped_entry (Value.deduped d)

-- Where there is something to report, the last summary of the result has the rows of the channels and
-- the totals, and the warnings if there are any, each under its key, and under every other key what
-- the last summary had before; but for that value the timeline stays as it is, and without a summary
-- one event for it is added at the end.
pub merge_updates_last :
    (events : List TimelineEvent) (by : List ChannelUnmatchedAudit) (tot : UnmatchedTotals)
    (ws : List Warning) (k : String)
    → nothing_unmatched by tot ≡ false
    → let merged = merge_unmatched_audit_into_summary events by tot ws in
      (summary_entry k merged ≡ new_entry by tot ws k (old_entry k (last_summary events)))
      × (map strip merged ≡ map strip events ++ added events (last_summary events))
unfolding merge_unmatched_audit_into_summary field_of
merge_updates_last events by tot ws k h = elim (Option-cases (last_summary events)) [
  | inl e ↦
      rw (h, e, merge_last-none (merge_value by tot ws) events e)
        (
          ap (entry_in k) (last_summary-snoc events _ refl) ∙ payload_entry by tot k ws end,
          map-strip-append events _,
        )
  | inr (v, e) ↦
      let (evs', r) = merge_last_some (merge_value by tot ws) events v e in
      let (same, kept, last) = r in
      rw (h, e, same)
        (ap (entry_in k) last ∙ merge_value-entry by tot ws k v, kept ∙ sym (append-nil _))
]
