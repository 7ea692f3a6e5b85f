-- ===== src/Deadlock/Acyclic.antt =====
-- A graph with all its nodes finished has no cycle.
use gtv_final_submission.Prelude.Dict.{Dict}
use gtv_final_submission.Prelude.Int.{ℤ, int_eq, int_beq_iff}
use gtv_final_submission.Prelude.Members.{member}
use gtv_final_submission.Prelude.{
  true, List, [], ◌∷◌, ◌++◌, ◌==◌, ◌≡◌, inl, inr, arith, Bool-cases, All, subst,
}
use gtv_final_submission.Deadlock.Graph.{successors}
use gtv_final_submission.Deadlock.Walks.{has_edge, IsWalk}
use gtv_final_submission.Deadlock.Correct.{IsRanked}

pub All-member : (P : ℤ → Type 0) (l : List ℤ) (x : ℤ) → All P l → member x l ≡ true → P x
unfolding member
All-member P [] x a h = cc
All-member P (y ∷ l) x (p, a) h = elim (Bool-cases (y == x)) [
  | inl hit ↦ subst P ((int_beq_iff y x).0 hit) p
  | inr miss ↦ All-member P l x a (ground arith)
]

module _ (graph : Dict ℤ (List ℤ)) where
  -- The finished nodes keep their edges to themselves.
  ranked_closed :
      (l : List ℤ) (a b : ℤ)
      → IsRanked graph l
      → member a l ≡ true
      → has_edge graph a b ≡ true
      → member b l ≡ true
  unfolding member
  ranked_closed [] a b r h e = cc
  ranked_closed (n ∷ l) a b (s, r) h e = elim (Bool-cases (n == a)) [
    | inl hit ↦
        let below : member b l ≡ true =
          All-member (λ m. member m l ≡ true) (successors a graph) b
            (subst (λ (k : ℤ). All (λ m. member m l ≡ true) (successors k graph))
              ((int_beq_iff n a).0 hit) s)
            (unfold has_edge in e) in
        ground arith
    | inr miss ↦ ground (arith, ranked_closed l a b r (ground arith) e)
  ]

  walk_stays :
      (l : List ℤ) (a : ℤ) (middle : List ℤ) (z : ℤ)
      → IsRanked graph l
      → member a l ≡ true
      → IsWalk graph (a ∷ (middle ++ (z ∷ [])))
      → member z l ≡ true
  walk_stays l a [] z r h w = ranked_closed l a z r h w.0
  walk_stays l a (b ∷ middle) z r h w = walk_stays l b middle z r (ranked_closed l a b r h w.0) w.1

  -- The first node of a walk behind its start.
  abbrev second : List ℤ → ℤ → ℤ
  second [] z = z
  second (b ∷ middle) z = b

  walk_below :
      (l : List ℤ) (a : ℤ) (middle : List ℤ) (z : ℤ)
      → IsRanked graph l
      → All (λ m. member m l ≡ true) (successors a graph)
      → IsWalk graph (a ∷ (middle ++ (z ∷ [])))
      → member z l ≡ true
  unfolding has_edge
  walk_below l a [] z r s w = All-member (λ m. member m l ≡ true) (successors a graph) z s w.0
  walk_below l a (b ∷ middle) z r s w =
      walk_stays l b middle z r (All-member (λ m. member m l ≡ true) (successors a graph) b s w.0)
        w.1

  pub ranked_acyclic :
      (l : List ℤ) (m : ℤ) (middle : List ℤ)
      → IsRanked graph l
      → member m l ≡ true
      → IsWalk graph (m ∷ (middle ++ (m ∷ [])))
      → ⊥
  unfolding member
  ranked_acyclic [] m middle r h w = cc
  ranked_acyclic (n ∷ l) m middle (s, r) h w = elim (Bool-cases (n == m)) [
    | inl hit ↦
        ranked_acyclic l m middle r
          (walk_below l m middle m r
            (subst (λ (k : ℤ). All (λ m. member m l ≡ true) (successors k graph))
              ((int_beq_iff n m).0 hit) s)
            w)
          w
    | inr miss ↦ ranked_acyclic l m middle r (ground arith) w
  ]
