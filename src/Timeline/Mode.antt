-- ===== src/Timeline/Mode.antt =====
-- FilterTimelineEventForMode of internal/traceproc/traceproc.go, run on an event that it has kept:
-- it is called on the live stream and again on the whole timeline.
use gtv_final_submission.Prelude.Dict.{lookup, lookup-All}
use gtv_final_submission.Prelude.Text.{to_lower}
use gtv_final_submission.Prelude.{
  String, true, Option, none, some, ◌≡◌, refl, inl, inr, arith, string_eq, ◌==◌, Bool-cases, All,
}
use gtv_final_submission.Timeline.Event.{TimelineEvent}
use gtv_final_submission.Timeline.Filter.{
  allow, teach_name, rename, normalize_mode, filter_timeline_event_for_mode,
}

-- A name that "teach" shows: it is in lower case, and is shown as it is.
abbrev IsShown : String → Type 0
IsShown name = (to_lower name ≡ name) × (teach_name name ≡ some name)

allow-IsShown : All (λ (e : String × String). IsShown e.1) allow
unfolding lookup to_lower teach_name
allow-IsShown = ground arith

teach_name-IsShown : (name : String) {m : String} → teach_name name ≡ some m → IsShown m
unfolding teach_name
teach_name-IsShown name {m} h =
    lookup-All (λ (e : String × String). IsShown e.1) name allow allow-IsShown (ground arith)

rename_twice :
    (ev : TimelineEvent) (name : String) (o : Option String)
    → teach_name name ≡ o
    → (rename ev name o).1 ≡ true
    → let ev' = (rename ev name o).0 in
      rename ev' (to_lower ev'.event) (teach_name (to_lower ev'.event)) ≡ (ev', true, "")
rename_twice ev name none e h = cc
rename_twice ev name (some m) e h = let (low, shown) = teach_name-IsShown name e in rw (low, shown)

-- An event that a mode keeps it keeps again, under the same name, whatever the mode is.
pub filter_idempotent :
    (ev : TimelineEvent) (mode : String)
    → (filter_timeline_event_for_mode ev mode).1 ≡ true
    → let ev' = (filter_timeline_event_for_mode ev mode).0 in
      filter_timeline_event_for_mode ev' mode ≡ (ev', true, "")
unfolding filter_timeline_event_for_mode
filter_idempotent ev mode h = elim (Bool-cases (normalize_mode mode == "teach")) [
  | inl teach ↦
      rw (teach, filter_timeline_event_for_mode)
        (rename_twice ev (to_lower ev.event) (teach_name (to_lower ev.event)) refl (ground arith))
  | inr other ↦ rw (other, filter_timeline_event_for_mode)
]
