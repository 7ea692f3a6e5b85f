-- ===== src/Dedup/Order.antt =====
-- Which events `DedupTimeline` keeps.
use mathlib.Core.List.{Sublistᴰ}
use gtv_final_submission.Prelude.Dict.{lookup, insert, is_some, lookup-insert}
use gtv_final_submission.Prelude.{
  String, Bool, true, false, ◌||◌, List, [], ◌∷◌, ◌++◌, ◌≡◌, refl, ap, ◌∙◌, arith, ◌==◌, text_eq,
  string_eq, if◌then◌else◌, inl, inr, Bool-cases, length,
}
use gtv_final_submission.Timeline.{TimelineEvent, DedupAudit}
use gtv_final_submission.Dedup.{
  Seen, zero_audit, dedup_key, note_missing, note_dropped, dedup_from, dedup_timeline,
}

-- An event of the list has the key.
unfoldable pub has_key : String → List TimelineEvent → Bool
has_key k [] = false
has_key k (ev ∷ evs) = (dedup_key ev == k) || has_key k evs

-- No two events of the list have one key.
abbrev pub Distinct : List TimelineEvent → Type 0
Distinct [] = Unit
Distinct (ev ∷ evs) = (has_key (dedup_key ev) evs ≡ false) × Distinct evs

abbrev pub was_seen : String → Seen → Bool
was_seen k seen = is_some (lookup k seen)

was_seen-insert :
    (j k : String) (seen : Seen) → was_seen k (insert j tt seen) ≡ ((j == k) || was_seen k seen)
was_seen-insert j k seen = ground (arith, lookup-insert j k tt seen)

-- The rounds of the loop, by whether the key was seen.
module _ (seen : Seen) (a : DedupAudit) (ev : TimelineEvent) (evs : List TimelineEvent) where
  pub dedup_from_seen :
      was_seen (dedup_key ev) seen ≡ true
      → dedup_from seen a (ev ∷ evs) ≡ dedup_from seen (note_dropped ev (note_missing ev a)) evs
  unfolding dedup_from
  dedup_from_seen h = rw h

  pub dedup_from_new :
      was_seen (dedup_key ev) seen ≡ false
      → let rest = dedup_from (insert (dedup_key ev) tt seen) (note_missing ev a) evs in
        dedup_from seen a (ev ∷ evs) ≡ (ev ∷ rest.0, rest.1)
  unfolding dedup_from
  dedup_from_new h = rw h

dedup_from-sublist :
    (seen : Seen) (a : DedupAudit) (evs : List TimelineEvent)
    → Sublistᴰ (dedup_from seen a evs).0 evs
unfolding dedup_from
dedup_from-sublist seen a [] = Sublistᴰ.slnil
dedup_from-sublist seen a (ev ∷ evs) = elim (Bool-cases (was_seen (dedup_key ev) seen)) [
  | inl old ↦
      rw (dedup_from_seen seen a ev evs old)
        (Sublistᴰ.cons (dedup_from-sublist seen (note_dropped ev (note_missing ev a)) evs))
  | inr new ↦ rw (dedup_from_new seen a ev evs new) (
      Sublistᴰ.cons-cons refl
        (dedup_from-sublist (insert (dedup_key ev) tt seen) (note_missing ev a) evs))
]

-- The keys seen before or kept are those seen before or given.
has_key-dedup_from :
    (k : String) (seen : Seen) (a : DedupAudit) (evs : List TimelineEvent)
    → (was_seen k seen || has_key k (dedup_from seen a evs).0) ≡ (was_seen k seen || has_key k evs)
unfolding dedup_from has_key
has_key-dedup_from k seen a [] = refl
has_key-dedup_from k seen a (ev ∷ evs) = ground (
  arith,
  text_eq (dedup_key ev) k,
  was_seen-insert (dedup_key ev) k seen,
  has_key-dedup_from k seen (note_dropped ev (note_missing ev a)) evs,
  has_key-dedup_from k (insert (dedup_key ev) tt seen) (note_missing ev a) evs,
)

-- A key that was seen is not kept again.
unseen-dedup_from :
    (k : String) (seen : Seen) (a : DedupAudit) (evs : List TimelineEvent)
    → was_seen k seen ≡ true
    → has_key k (dedup_from seen a evs).0 ≡ false
unfolding dedup_from has_key
unseen-dedup_from k seen a [] h = refl
unseen-dedup_from k seen a (ev ∷ evs) h = ground (
  arith,
  text_eq (dedup_key ev) k,
  was_seen-insert (dedup_key ev) k seen,
  unseen-dedup_from k seen (note_dropped ev (note_missing ev a)) evs,
  unseen-dedup_from k (insert (dedup_key ev) tt seen) (note_missing ev a) evs,
)

dedup_from-Distinct :
    (seen : Seen) (a : DedupAudit) (evs : List TimelineEvent) → Distinct (dedup_from seen a evs).0
unfolding dedup_from
dedup_from-Distinct seen a [] = tt
dedup_from-Distinct seen a (ev ∷ evs) = elim (Bool-cases (was_seen (dedup_key ev) seen)) [
  | inl old ↦
      rw (dedup_from_seen seen a ev evs old)
        (dedup_from-Distinct seen (note_dropped ev (note_missing ev a)) evs)
  | inr new ↦ rw (dedup_from_new seen a ev evs new) (
    unseen-dedup_from (dedup_key ev) _ _ evs (
        ground (
          arith,
          was_seen-insert (dedup_key ev) (dedup_key ev) seen,
          text_eq (dedup_key ev) (dedup_key ev),
        )),
    dedup_from-Distinct (insert (dedup_key ev) tt seen) (note_missing ev a) evs,
  )
]

or_left_comm : (a b c : Bool) → ((a || b) || c) ≡ (b || (a || c))
or_left_comm a b c = ground arith

-- The counters have no part in what is kept.
dedup_from-audit :
    (seen : Seen) (a b : DedupAudit) (evs : List TimelineEvent)
    → (dedup_from seen a evs).0 ≡ (dedup_from seen b evs).0
unfolding dedup_from
dedup_from-audit seen a b [] = refl
dedup_from-audit seen a b (ev ∷ evs) = elim (Bool-cases (was_seen (dedup_key ev) seen)) [
  | inl old ↦
      rw (dedup_from_seen seen a ev evs old, dedup_from_seen seen b ev evs old)
        (dedup_from-audit seen (note_dropped ev (note_missing ev a))
          (note_dropped ev (note_missing ev b)) evs)
  | inr new ↦
      rw (dedup_from_new seen a ev evs new, dedup_from_new seen b ev evs new)
        (ap (◌∷◌ ev) (
          dedup_from-audit (insert (dedup_key ev) tt seen) (note_missing ev a) (note_missing ev b)
            evs))
]

-- A round more at the end keeps the event unless its key was seen or given before.
dedup_from-snoc :
    (seen : Seen) (a : DedupAudit) (evs : List TimelineEvent) (ev : TimelineEvent)
    → (dedup_from seen a (evs ++ ev ∷ [])).0
      ≡ (dedup_from seen a evs).0
        ++ (if was_seen (dedup_key ev) seen || has_key (dedup_key ev) evs then [] else ev ∷ [])
unfolding dedup_from has_key
dedup_from-snoc seen a [] ev = ground arith
dedup_from-snoc seen a (e ∷ evs) ev = elim (Bool-cases (was_seen (dedup_key e) seen)) [
  | inl old ↦
      rw (dedup_from_seen seen a e (evs ++ ev ∷ []) old, dedup_from_seen seen a e evs old)
        (dedup_from-snoc seen (note_dropped e (note_missing e a)) evs ev
          ∙ ground (arith, text_eq (dedup_key e) (dedup_key ev)))
  | inr new ↦
      rw (dedup_from_new seen a e (evs ++ ev ∷ []) new, dedup_from_new seen a e evs new)
        (ap (◌∷◌ e) (
          dedup_from-snoc (insert (dedup_key e) tt seen) (note_missing e a) evs ev
          ∙ ap
              (λ (b : Bool).
                (dedup_from (insert (dedup_key e) tt seen) (note_missing e a) evs).0
                ++ (if b then [] else ev ∷ []))
              (ap (λ (b : Bool). b || has_key (dedup_key ev) evs)
                  (was_seen-insert (dedup_key e) (dedup_key ev) seen)
                ∙ or_left_comm (dedup_key e == dedup_key ev) _ _)))
]

-- Appending an event to a timeline appends it to what is kept, unless an earlier event has its key:
-- of the events with one key the first is kept, and the order stays.
pub dedup_timeline-snoc :
    (evs : List TimelineEvent) (ev : TimelineEvent)
    → (dedup_timeline (evs ++ ev ∷ [])).0
      ≡ (dedup_timeline evs).0 ++ (if has_key (dedup_key ev) evs then [] else ev ∷ [])
unfolding dedup_timeline lookup
dedup_timeline-snoc evs ev =
    dedup_from-audit [] _ _ (evs ++ ev ∷ [])
    ∙ dedup_from-snoc [] (record zero_audit { total = length evs }) evs ev

-- What is kept is a subsequence of the timeline, no two events of it have one key, and a key
-- occurs in it exactly if it occurs in the timeline.
pub dedup_timeline-Distinct :
    (evs : List TimelineEvent)
    → Sublistᴰ (dedup_timeline evs).0 evs
      × Distinct (dedup_timeline evs).0
      × ((k : String) → has_key k (dedup_timeline evs).0 ≡ has_key k evs)
unfolding dedup_timeline lookup
dedup_timeline-Distinct evs = (
  dedup_from-sublist [] (record zero_audit { total = length evs }) evs,
  dedup_from-Distinct [] (record zero_audit { total = length evs }) evs,
  λ k. has_key-dedup_from k [] (record zero_audit { total = length evs }) evs,
)

abbrev AllUnseen : Seen → List TimelineEvent → Type 0
AllUnseen seen [] = Unit
AllUnseen seen (ev ∷ evs) = (was_seen (dedup_key ev) seen ≡ false) × AllUnseen seen evs

AllUnseen-insert :
    (k : String) (seen : Seen) (evs : List TimelineEvent)
    → has_key k evs ≡ false
    → AllUnseen seen evs
    → AllUnseen (insert k tt seen) evs
unfolding has_key
AllUnseen-insert k seen [] h u = tt
AllUnseen-insert k seen (ev ∷ evs) h (p, u) = (
  ground (
    arith,
    was_seen-insert k (dedup_key ev) seen,
    text_eq k (dedup_key ev),
    text_eq (dedup_key ev) k,
  ),
  AllUnseen-insert k seen evs (ground arith) u,
)

-- Distinct events that were not seen are all kept, and none is counted as dropped.
dedup_from_fixed :
    (seen : Seen) (a : DedupAudit) (evs : List TimelineEvent)
    → Distinct evs
    → AllUnseen seen evs
    → ((dedup_from seen a evs).0 ≡ evs) × ((dedup_from seen a evs).1.dropped ≡ a.dropped)
unfolding dedup_from note_missing
dedup_from_fixed seen a [] d u = (refl, refl)
dedup_from_fixed seen a (ev ∷ evs) (p, d) (q, u) =
    let (kept, count) =
      dedup_from_fixed (insert (dedup_key ev) tt seen) (note_missing ev a) evs d
        (AllUnseen-insert (dedup_key ev) seen evs p u) in
    rw (dedup_from_new seen a ev evs q) (ap (◌∷◌ ev) kept, count ∙ refl)

AllUnseen-nil : (evs : List TimelineEvent) → AllUnseen [] evs
unfolding lookup
AllUnseen-nil [] = tt
AllUnseen-nil (ev ∷ evs) = (refl, AllUnseen-nil evs)

-- A second pass keeps everything and drops nothing.
pub dedup_timeline_idempotent :
    (evs : List TimelineEvent)
    → let once = (dedup_timeline evs).0 in
      ((dedup_timeline once).0 ≡ once) × ((dedup_timeline once).1.dropped ≡ 0)
unfolding dedup_timeline
dedup_timeline_idempotent evs =
    let once = (dedup_from [] (record zero_audit { total = length evs }) evs).0 in
    dedup_from_fixed [] (record zero_audit { total = length once }) once
      (dedup_from-Distinct [] (record zero_audit { total = length evs }) evs) (AllUnseen-nil once)
