-- ===== src/Normalize/Order.antt =====
-- The order of a normalized timeline.
use mathlib.Core.List.{Perm}
use mathlib.Core.List.Perm
use gtv_final_submission.Prelude.Int.{ℤ, ltb_ℤ, int_eq, ◌<ℤ◌}
use gtv_final_submission.Prelude.Text.{to_lower}
use gtv_final_submission.Prelude.TextOrder.{text_ltb, text_ltb-asym, text_ltb_trans}
use gtv_final_submission.Prelude.{
  Bool, true, false, not, List, [], ◌∷◌, ◌==◌, ◌≡◌, inl, inr, arith, Bool-cases, All, All-map,
  if◌then◌else◌, ◌⊎◌, refl,
}
use gtv_final_submission.Timeline.{TimelineEvent}
use gtv_final_submission.Normalize.Summary.{comes_before, place_event, sort_events}

-- One number of a comparison, and what decides where two are equal.
abbrev by_number : ℤ → ℤ → Bool → Bool
by_number a b rest = if not (a == b) then ltb_ℤ a b else rest

by_number-asym :
    (a b : ℤ) (p q : Bool)
    → (p ≡ false) ⊎ (q ≡ false)
    → by_number a b p ≡ true
    → by_number b a q ≡ false
by_number-asym a b p q h k = ground arith

by_number_trans :
    (a b c : ℤ) (p q r : Bool)
    → (p ≡ true) ⊎ ((q ≡ true) ⊎ (r ≡ false))
    → by_number b a p ≡ false
    → by_number c b q ≡ false
    → by_number c a r ≡ false
by_number_trans a b c p q r h k l = ground arith

weaken :
    (p q r : Bool) → (p ≡ false → q ≡ false → r ≡ false) → (p ≡ true) ⊎ ((q ≡ true) ⊎ (r ≡ false))
weaken true q r h = inl refl
weaken false true r h = inr (inl refl)
weaken false false r h = inr (inr (h refl refl))

decided : (p q : Bool) → (p ≡ true → q ≡ false) → (p ≡ false) ⊎ (q ≡ false)
decided true q h = inr (h refl)
decided false q h = inl refl

abbrev by_g : TimelineEvent → TimelineEvent → Bool
by_g a b = by_number a.g b.g (text_ltb (to_lower a.event) (to_lower b.event))

abbrev by_seq : TimelineEvent → TimelineEvent → Bool
by_seq a b = by_number a.seq b.seq (by_g a b)

by_g-asym : (a b : TimelineEvent) → by_g a b ≡ true → by_g b a ≡ false
by_g-asym a b =
    let s = to_lower a.event in
    let t = to_lower b.event in
    by_number-asym a.g b.g (text_ltb s t) (text_ltb t s)
      (decided (text_ltb s t) (text_ltb t s) (text_ltb-asym s t))

by_seq-asym : (a b : TimelineEvent) → by_seq a b ≡ true → by_seq b a ≡ false
by_seq-asym a b =
    by_number-asym a.seq b.seq (by_g a b) (by_g b a) (decided (by_g a b) (by_g b a) (by_g-asym a b))

pub comes_before-asym : (a b : TimelineEvent) → comes_before a b ≡ true → comes_before b a ≡ false
unfolding comes_before
comes_before-asym a b =
    by_number-asym a.time_ns b.time_ns (by_seq a b) (by_seq b a)
      (decided (by_seq a b) (by_seq b a) (by_seq-asym a b))

by_g_trans : (a b c : TimelineEvent) → by_g b a ≡ false → by_g c b ≡ false → by_g c a ≡ false
by_g_trans a b c =
    let r = to_lower a.event in
    let s = to_lower b.event in
    let t = to_lower c.event in
    by_number_trans a.g b.g c.g (text_ltb s r) (text_ltb t s) (text_ltb t r)
      (weaken (text_ltb s r) (text_ltb t s) (text_ltb t r) (text_ltb_trans r s t))

by_seq_trans :
    (a b c : TimelineEvent) → by_seq b a ≡ false → by_seq c b ≡ false → by_seq c a ≡ false
by_seq_trans a b c =
    by_number_trans a.seq b.seq c.seq (by_g b a) (by_g c b) (by_g c a)
      (weaken (by_g b a) (by_g c b) (by_g c a) (by_g_trans a b c))

pub comes_before_trans :
    (a b c : TimelineEvent)
    → comes_before b a ≡ false
    → comes_before c b ≡ false
    → comes_before c a ≡ false
unfolding comes_before
comes_before_trans a b c =
    by_number_trans a.time_ns b.time_ns c.time_ns (by_seq b a) (by_seq c b) (by_seq c a)
      (weaken (by_seq b a) (by_seq c b) (by_seq c a) (by_seq_trans a b c))

-- No event comes before one that stands in front of it.
abbrev pub IsSorted : List TimelineEvent → Type 0
IsSorted [] = Unit
IsSorted (ev ∷ evs) = All (λ e. comes_before e ev ≡ false) evs × IsSorted evs

place_event-All :
    (P : TimelineEvent → Type 0) (ev : TimelineEvent) (l : List TimelineEvent)
    → P ev
    → All P l
    → All P (place_event ev l)
unfolding place_event
place_event-All P ev [] p a = (p, tt)
place_event-All P ev (e ∷ l) p (q, a) = elim (Bool-cases (comes_before e ev)) [
  | inl first ↦ rw (first, place_event) (q, place_event-All P ev l p a)
  | inr after ↦ rw (after, place_event) (p, (q, a))
]

place_event-IsSorted :
    (ev : TimelineEvent) (l : List TimelineEvent) → IsSorted l → IsSorted (place_event ev l)
unfolding place_event
place_event-IsSorted ev [] o = (tt, tt)
place_event-IsSorted ev (e ∷ l) (a, o) = elim (Bool-cases (comes_before e ev)) [
  | inl first ↦
      rw (first, place_event)
        (
          place_event-All (λ x. comes_before x e ≡ false) ev l (comes_before-asym e ev first) a,
          place_event-IsSorted ev l o,
        )
  | inr after ↦
      rw (after, place_event)
        (
          (
            after,
            All-map (λ x. comes_before x e ≡ false) (λ x. comes_before x ev ≡ false) l
                (λ x h. comes_before_trans ev e x after h) a,
          ),
          (a, o),
        )
]

pub sort_events-IsSorted : (l : List TimelineEvent) → IsSorted (sort_events l)
unfolding sort_events
sort_events-IsSorted [] = tt
sort_events-IsSorted (ev ∷ l) = place_event-IsSorted ev (sort_events l) (sort_events-IsSorted l)

pub sort_events-All :
    (P : TimelineEvent → Type 0) (l : List TimelineEvent) → All P l → All P (sort_events l)
unfolding sort_events
sort_events-All P [] a = tt
sort_events-All P (ev ∷ l) (p, a) = place_event-All P ev (sort_events l) p (sort_events-All P l a)

pub place_event-Perm :
    (ev : TimelineEvent) (l : List TimelineEvent) → Perm (place_event ev l) (ev ∷ l)
unfolding place_event
place_event-Perm ev [] = Perm.refl (ev ∷ [])
place_event-Perm ev (e ∷ l) = elim (Bool-cases (comes_before e ev)) [
  | inl first ↦
      rw (first, place_event) (Perm.trans (Perm.cons e (place_event-Perm ev l)) (Perm.swap ev e l))
  | inr after ↦ rw (after, place_event) (Perm.refl (ev ∷ e ∷ l))
]

pub sort_events-Perm : (l : List TimelineEvent) → Perm (sort_events l) l
unfolding sort_events
sort_events-Perm [] = Perm.refl []
sort_events-Perm (ev ∷ l) =
    Perm.trans (place_event-Perm ev (sort_events l)) (Perm.cons ev (sort_events-Perm l))

-- Two numbers decide, and where they are equal, what comes after them does.
abbrev pub Then : ℤ → ℤ → Type 0 → Type 0
Then a b Rest = (a <ℤ b) ⊎ ((a ≡ b) × Rest)

-- The order of a timeline: by time, by sequence number, by goroutine, and by name in lower case.
abbrev pub IsNotAfter : TimelineEvent → TimelineEvent → Type 0
IsNotAfter a b =
    Then a.time_ns b.time_ns
      (Then a.seq b.seq (Then a.g b.g (text_ltb (to_lower b.event) (to_lower a.event) ≡ false)))

-- Every event is in order with all that stand behind it.
abbrev pub IsOrdered : List TimelineEvent → Type 0
IsOrdered [] = Unit
IsOrdered (ev ∷ evs) = All (IsNotAfter ev) evs × IsOrdered evs

by_number_decides :
    (a b : ℤ) (p : Bool) → by_number b a p ≡ false → (a <ℤ b) ⊎ ((a ≡ b) × (p ≡ false))
by_number_decides a b p h = ground arith

Then-map : {P Q : Type 0} (a b : ℤ) → (P → Q) → Then a b P → Then a b Q
Then-map a b f (inl l) = inl l
Then-map a b f (inr (e, p)) = inr (e, f p)

comes_before-IsNotAfter : (a b : TimelineEvent) → comes_before b a ≡ false → IsNotAfter a b
unfolding comes_before
comes_before-IsNotAfter a b h =
    let name : Bool = text_ltb (to_lower b.event) (to_lower a.event) in
    Then-map a.time_ns b.time_ns
      (λ (k : by_seq b a ≡ false).
        Then-map a.seq b.seq (λ (l : by_g b a ≡ false). by_number_decides a.g b.g name l)
          (by_number_decides a.seq b.seq (by_g b a) k))
      (by_number_decides a.time_ns b.time_ns (by_seq b a) h)

pub IsSorted-IsOrdered : (l : List TimelineEvent) → IsSorted l → IsOrdered l
IsSorted-IsOrdered [] o = tt
IsSorted-IsOrdered (ev ∷ l) (a, o) = (
  All-map (λ e. comes_before e ev ≡ false) (IsNotAfter ev) l (λ e h. comes_before-IsNotAfter ev e h)
      a,
  IsSorted-IsOrdered l o,
)
