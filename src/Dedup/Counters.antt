-- ===== src/Dedup/Counters.antt =====
-- What the counters of `DedupTimeline` say of its result.
use gtv_final_submission.Prelude.Dict.{insert}
use gtv_final_submission.Prelude.Int.{pos}
use gtv_final_submission.Prelude.{
  ℕ, suc, ◌+◌, ◌-◌, ◌≤◌, Bool, ◌&&◌, List, [], ◌∷◌, ◌≡◌, arith, ◌==◌, string_eq, inl, inr,
  Bool-cases, length, if◌then◌else◌,
}
use gtv_final_submission.Timeline.{TimelineEvent, DedupAudit}
use gtv_final_submission.Topology.{normalize_pointer, normalize_channel_key}
use gtv_final_submission.Dedup.{
  Seen, zero_audit, dedup_key, dedup_identity, identity_of, note_missing, note_dropped, dedup_from,
  dedup_timeline,
}
use gtv_final_submission.Dedup.Order.{was_seen, dedup_from_seen, dedup_from_new}

-- How many events of a timeline pass a test.
unfoldable pub count_of : (TimelineEvent → Bool) → List TimelineEvent → ℕ
count_of p [] = 0
count_of p (ev ∷ evs) = if p ev then suc (count_of p evs) else count_of p evs

-- The names of its channel that an event can lack, and an event that lacks them all.
abbrev pub lacks_ptr : TimelineEvent → Bool
lacks_ptr ev = normalize_pointer ev.ch_ptr == ""

abbrev pub lacks_key : TimelineEvent → Bool
lacks_key ev = normalize_channel_key ev.channel_key == ""

abbrev pub lacks_name : TimelineEvent → Bool
lacks_name ev = normalize_channel_key ev.channel == ""

abbrev pub lacks_all : TimelineEvent → Bool
lacks_all ev = lacks_ptr ev && (lacks_key ev && lacks_name ev)

identity_lacks : (ev : TimelineEvent) → (identity_of ev == "") ≡ lacks_all ev
unfolding dedup_identity
identity_lacks ev = ground arith

-- One counter of a lack, and its counter of what is left out, from before to after the loop.
abbrev Counted : (TimelineEvent → Bool) → List TimelineEvent → ℕ → ℕ → Type 0
Counted p evs before after = after ≡ before + count_of p evs

abbrev Dropped : (TimelineEvent → Bool) → List TimelineEvent → List TimelineEvent → ℕ → ℕ → Type 0
Dropped p evs kept before after = after + count_of p kept ≡ before + count_of p evs

record Grows (a b : DedupAudit) (evs kept : List TimelineEvent) : Type 0 where
  same_total : b.total ≡ a.total
  accounted : b.dropped + length kept ≡ a.dropped + length evs
  within : b.dropped_missing_identity + a.dropped ≤ b.dropped + a.dropped_missing_identity
  ptr : Counted lacks_ptr evs a.missing_ch_ptr b.missing_ch_ptr
  key : Counted lacks_key evs a.missing_channel_key b.missing_channel_key
  name : Counted lacks_name evs a.missing_channel b.missing_channel
  all : Counted lacks_all evs a.missing_identity b.missing_identity
  dropped_ptr : Dropped lacks_ptr evs kept a.dropped_missing_ch_ptr b.dropped_missing_ch_ptr
  dropped_key :
      Dropped lacks_key evs kept a.dropped_missing_channel_key b.dropped_missing_channel_key
  dropped_name : Dropped lacks_name evs kept a.dropped_missing_channel b.dropped_missing_channel
  dropped_all : Dropped lacks_all evs kept a.dropped_missing_identity b.dropped_missing_identity

Grows-drop :
    (ev : TimelineEvent) (a b : DedupAudit) (evs kept : List TimelineEvent)
    → Grows (note_dropped ev (note_missing ev a)) b evs kept
    → Grows a b (ev ∷ evs) kept
unfolding note_missing note_dropped count_of
Grows-drop ev a b evs kept g = ground (arith, g, identity_lacks ev)

Grows-keep :
    (ev : TimelineEvent) (a b : DedupAudit) (evs kept : List TimelineEvent)
    → Grows (note_missing ev a) b evs kept
    → Grows a b (ev ∷ evs) (ev ∷ kept)
unfolding note_missing count_of
Grows-keep ev a b evs kept g = ground (arith, g, identity_lacks ev)

dedup_from-Grows :
    (seen : Seen) (a : DedupAudit) (evs : List TimelineEvent)
    → let r = dedup_from seen a evs in Grows a r.1 evs r.0
unfolding dedup_from count_of
dedup_from-Grows seen a [] = ground arith
dedup_from-Grows seen a (ev ∷ evs) = elim (Bool-cases (was_seen (dedup_key ev) seen)) [
  | inl old ↦
      rw (dedup_from_seen seen a ev evs old)
        (Grows-drop ev a _ evs _ (dedup_from-Grows seen (note_dropped ev (note_missing ev a)) evs))
  | inr new ↦ rw (dedup_from_new seen a ev evs new) (
      Grows-keep ev a _ evs _
        (dedup_from-Grows (insert (dedup_key ev) tt seen) (note_missing ev a) evs))
]

-- The counters of an audit are those of the events that lack a name, or all three names, among the
-- events given, and among those that are not kept.
abbrev pub IsExact : List TimelineEvent → List TimelineEvent → DedupAudit → Type 0
IsExact evs kept a =
    (a.missing_ch_ptr ≡ count_of lacks_ptr evs)
    × (a.missing_channel_key ≡ count_of lacks_key evs)
    × (a.missing_channel ≡ count_of lacks_name evs)
    × (a.missing_identity ≡ count_of lacks_all evs)
    × (a.dropped_missing_ch_ptr + count_of lacks_ptr kept ≡ count_of lacks_ptr evs)
    × (a.dropped_missing_channel_key + count_of lacks_key kept ≡ count_of lacks_key evs)
    × (a.dropped_missing_channel + count_of lacks_name kept ≡ count_of lacks_name evs)
    × (a.dropped_missing_identity + count_of lacks_all kept ≡ count_of lacks_all evs)

-- The counters of a timeline: the events kept and those dropped add up to the total; of each of the
-- three names of a channel, and of all three together, the events without it are counted, and so
-- are those among the dropped ones; the dropped ones with an identity are the dropped ones less those
-- without any name.
pub dedup_timeline_counters :
    (evs : List TimelineEvent)
    → let (kept, a) = dedup_timeline evs in
      (a.total ≡ length evs)
      × (a.dropped + length kept ≡ a.total)
      × (a.dropped_with_identity ≡ pos (a.dropped - a.dropped_missing_identity))
      × (a.dropped_missing_identity ≤ a.dropped)
      × IsExact evs kept a
unfolding dedup_timeline
dedup_timeline_counters evs =
    let g = dedup_from-Grows [] (record zero_audit { total = length evs }) evs in ground (arith, g)
