-- ===== src/Deadlock/Walks.antt =====
-- Walks of a graph, forwards as they are reported and from the top of a stack down.
use gtv_final_submission.Prelude.Dict.{Dict}
use gtv_final_submission.Prelude.Int.{ℤ, int_eq, int_beq_iff}
use gtv_final_submission.Prelude.Members.{member}
use gtv_final_submission.Prelude.{
  Bool, true, List, [], ◌∷◌, ◌++◌, ◌==◌, ◌≡◌, refl, inl, inr, arith, Bool-cases,
}
use gtv_final_submission.Deadlock.Graph.{successors}
use gtv_final_submission.Deadlock.Search.{down_to, cycle_at, reverse}

-- An edge of the graph, as its successor lists have it.
unfoldable pub has_edge : Dict ℤ (List ℤ) → ℤ → ℤ → Bool
has_edge graph a b = member b (successors a graph)

module _ (edge : ℤ → ℤ → Bool) where
  -- Every node of the list but the last has an edge to the next.
  abbrev pub IsChain : List ℤ → Type 0
  IsChain [] = Unit
  IsChain (a ∷ []) = Unit
  IsChain (a ∷ b ∷ r) = (edge a b ≡ true) × IsChain (b ∷ r)

  -- A walk of at least one edge that ends where it begins.
  abbrev pub IsRing : List ℤ → Type 0
  IsRing c = (m : ℤ) × (middle : List ℤ) × (c ≡ m ∷ (middle ++ (m ∷ []))) × IsChain c

module _ (graph : Dict ℤ (List ℤ)) where
  abbrev pub IsWalk : List ℤ → Type 0
  IsWalk = IsChain (has_edge graph)

  -- A stack: every node but the last is entered by an edge from the one below it.
  abbrev pub IsTrail : List ℤ → Type 0
  IsTrail [] = Unit
  IsTrail (a ∷ []) = Unit
  IsTrail (a ∷ b ∷ r) = (has_edge graph b a ≡ true) × IsTrail (b ∷ r)

  abbrev pub IsCycle : List ℤ → Type 0
  IsCycle = IsRing (has_edge graph)

  pub IsWalk-snoc :
      (xs : List ℤ) (y z : ℤ)
      → IsWalk (xs ++ (y ∷ []))
      → has_edge graph y z ≡ true
      → IsWalk ((xs ++ (y ∷ [])) ++ (z ∷ []))
  IsWalk-snoc [] y z w e = (e, tt)
  IsWalk-snoc (a ∷ []) y z w e = (w.0, (e, tt))
  IsWalk-snoc (a ∷ b ∷ xs) y z w e = (w.0, IsWalk-snoc (b ∷ xs) y z w.1 e)

  pub reverse-IsWalk : (l : List ℤ) → IsTrail l → IsWalk (reverse l)
  reverse-IsWalk [] t = tt
  reverse-IsWalk (a ∷ []) t = tt
  reverse-IsWalk (a ∷ b ∷ r) t = IsWalk-snoc (reverse r) b a (reverse-IsWalk (b ∷ r) t.1) t.0

  pub down_to-IsTrail : (next : ℤ) (l : List ℤ) → IsTrail l → IsTrail (down_to next l)
  unfolding down_to
  down_to-IsTrail next [] t = tt
  down_to-IsTrail next (a ∷ []) t = ground arith
  down_to-IsTrail next (a ∷ b ∷ r) t = ground (arith, down_to-IsTrail next (b ∷ r) t.1)

reverse-append : (xs : List ℤ) (y : ℤ) → reverse (xs ++ (y ∷ [])) ≡ y ∷ reverse xs
reverse-append [] y = refl
reverse-append (x ∷ xs) y = rw (reverse-append xs y) refl

-- The part of the stack that the cycle keeps ends in the node that was looked for.
pub down_to-last :
    (next : ℤ) (l : List ℤ)
    → member next l ≡ true
    → (above : List ℤ) × (down_to next l ≡ above ++ (next ∷ []))
unfolding down_to member
down_to-last next [] h = cc
down_to-last next (a ∷ l) h = elim (Bool-cases (a == next)) [
  | inl hit ↦ ([], ground (arith, int_beq_iff a next))
  | inr miss ↦ let r = down_to-last next l (ground arith) in (a ∷ r.0, ground (arith, r.1))
]

module _ (graph : Dict ℤ (List ℤ)) where
  below-IsTrail :
      (next top : ℤ) (l : List ℤ)
      → has_edge graph top next ≡ true
      → IsTrail graph (down_to next (top ∷ l))
      → IsTrail graph (next ∷ down_to next (top ∷ l))
  unfolding down_to
  below-IsTrail next top l e t = ground arith

  pub cycle_at-IsCycle :
      (next top : ℤ) (l : List ℤ)
      → IsTrail graph (top ∷ l)
      → has_edge graph top next ≡ true
      → member next (top ∷ l) ≡ true
      → IsCycle graph (cycle_at next (top ∷ l))
  unfolding cycle_at
  cycle_at-IsCycle next top l t e h =
      let r = down_to-last next (top ∷ l) h in
      (
        next,
        reverse r.0,
        rw (r.1, reverse-append r.0 next) refl,
        reverse-IsWalk graph (next ∷ down_to next (top ∷ l))
            (below-IsTrail next top l e (down_to-IsTrail graph next (top ∷ l) t)),
      )
