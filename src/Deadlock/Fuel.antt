-- ===== src/Deadlock/Fuel.antt =====
-- The fuel of the depth-first search: each call but the last of a path marks a goroutine that waits.
use gtv_final_submission.Prelude.Dict.{Dict, lookup, insert}
use gtv_final_submission.Prelude.Int.{ℤ, int_eq, int_beq_iff}
use gtv_final_submission.Prelude.{
  ℕ, zero, suc, Bool, true, false, some, List, [], ◌∷◌, ◌==◌, ◌≡◌, inl, inr, arith, Bool-cases,
  Option-cases, ◌<◌, ◌≤◌, ◌≢◌, if◌then◌else◌, length, ap,
}
use gtv_final_submission.Deadlock.Graph.{successors}
use gtv_final_submission.Deadlock.Search.{
  Search, Probe, found, backtracked, out_of_fuel, is_set, enter, leave, and_then, try_all, dfs,
  search_from, no_search, find_cycle,
}
use gtv_final_submission.Deadlock.Correct.{is_set-insert}

-- How many nodes with edges are not visited.
unfoldable pub fresh_count : Dict ℤ (List ℤ) → Dict ℤ Bool → ℕ
fresh_count [] v = 0
fresh_count ((k, ms) ∷ g) v = if is_set k v then fresh_count g v else suc (fresh_count g v)

abbrev Grows : Dict ℤ Bool → Dict ℤ Bool → Type 0
Grows v w = (x : ℤ) → is_set x v ≡ true → is_set x w ≡ true

fresh_count-Grows :
    (g : Dict ℤ (List ℤ)) (v w : Dict ℤ Bool) → Grows v w → fresh_count g w ≤ fresh_count g v
unfolding fresh_count
fresh_count-Grows [] v w h = omega arith
fresh_count-Grows ((k, ms) ∷ g) v w h = ground (arith, h k, fresh_count-Grows g v w h)

enter-Grows : (n : ℤ) (v : Dict ℤ Bool) → Grows v (insert n true v)
enter-Grows n v x h = ground (arith, is_set-insert n x true v)

fresh_count-insert :
    (n : ℤ) (ms : List ℤ) (g : Dict ℤ (List ℤ)) (v : Dict ℤ Bool)
    → lookup n g ≡ some ms
    → is_set n v ≡ false
    → fresh_count g (insert n true v) < fresh_count g v
unfolding fresh_count lookup
fresh_count-insert n ms [] v e f = cc
fresh_count-insert n ms ((k, ks) ∷ g) v e f = elim (Bool-cases (k == n)) [
  | inl hit ↦ ground (
    arith,
    int_beq_iff k n,
    is_set-insert n k true v,
    fresh_count-Grows g v (insert n true v) (enter-Grows n v),
    ap (λ (x : ℤ). is_set x v) ((int_beq_iff k n).0 hit),
  )
  | inr miss ↦ ground (
    arith,
    is_set-insert n k true v,
    int_beq_iff n k,
    fresh_count-insert n ms g v (ground arith) f,
  )
]

fresh_count-length : (g : Dict ℤ (List ℤ)) (v : Dict ℤ Bool) → fresh_count g v ≤ length g
unfolding fresh_count
fresh_count-length [] v = omega arith
fresh_count-length ((k, ms) ∷ g) v = ground (arith, fresh_count-length g v)

-- The search ends, and what was visited stays so.
abbrev Stops : Search → Probe → Type 0
Stops s (found c) = Unit
Stops s (backtracked t) = Grows s.visited t.visited
Stops s out_of_fuel = ⊥

resume-Stops : (s t : Search) (p : Probe) → Grows s.visited t.visited → Stops t p → Stops s p
resume-Stops s t (found c) g h = tt
resume-Stops s t (backtracked u) g h = λ x k. h x (g x k)
resume-Stops s t out_of_fuel g h = h

leave-Stops : (n : ℤ) (s : Search) (p : Probe) → Stops s p → Stops s (leave n p)
leave-Stops n s (found c) h = tt
leave-Stops n s (backtracked u) h = h
leave-Stops n s out_of_fuel h = h

and_then-Stops :
    (s : Search) (p : Probe) (k : Search → Probe)
    → Stops s p
    → ((t : Search) → Grows s.visited t.visited → Stops t (k t))
    → Stops s (and_then p k)
and_then-Stops s (found c) k h next = tt
and_then-Stops s out_of_fuel k h next = h
and_then-Stops s (backtracked t) k h next = resume-Stops s t (k t) h (next t h)

module _ (graph : Dict ℤ (List ℤ)) where
  try_all-Stops :
      (fuel : ℕ) (go : ℤ → Search → Probe)
      → ((n : ℤ) (s : Search)
          → is_set n s.visited ≡ false
          → fresh_count graph s.visited < fuel
          → Stops s (go n s))
      → (rest : List ℤ) (s : Search) → fresh_count graph s.visited < fuel
      → Stops s (try_all go rest s)
  unfolding try_all
  try_all-Stops fuel go spec [] s h = λ x k. k
  try_all-Stops fuel go spec (next ∷ rest) s h = elim (Bool-cases (is_set next s.visited)) [
    | inl seen ↦ elim (Bool-cases (is_set next s.on_stack)) [
      | inl up ↦ rw (seen, up, try_all) tt
      | inr off ↦ rw (seen, off, try_all) (try_all-Stops fuel go spec rest s h)
    ]
    | inr fresh ↦
        rw (fresh, try_all)
          (and_then-Stops s (go next s) (try_all go rest) (spec next s fresh h) (λ t g.
            try_all-Stops fuel go spec rest t
              (omega (arith, h, fresh_count-Grows graph s.visited t.visited g))))
  ]

  dfs-Stops :
      (fuel : ℕ) (n : ℤ) (s : Search)
      → is_set n s.visited ≡ false
      → fresh_count graph s.visited < fuel
      → Stops s (dfs fuel graph n s)
  unfolding dfs successors
  dfs-Stops zero n s fresh h = omega (arith, h)
  dfs-Stops (suc fuel) n s fresh h =
      let p : Probe = try_all (dfs fuel graph) (successors n graph) (enter n s) in
      leave-Stops n s p (
        resume-Stops s (enter n s) p (enter-Grows n s.visited)
          (elim (Option-cases (lookup n graph)) [
            | inl e ↦ rw e (unfold try_all in (λ x k. k))
            | inr (ms, e) ↦
                try_all-Stops fuel (dfs fuel graph) (dfs-Stops fuel) (successors n graph)
                  (enter n s) (omega (arith, h, fresh_count-insert n ms graph s.visited e fresh))
          ]))

  search_from-Stops :
      (fuel : ℕ) (nodes : List ℤ) (s : Search)
      → fresh_count graph s.visited < fuel
      → Stops s (search_from fuel graph nodes s)
  unfolding search_from
  search_from-Stops fuel [] s h = λ x k. k
  search_from-Stops fuel (n ∷ nodes) s h = elim (Bool-cases (is_set n s.visited)) [
    | inl seen ↦ rw (seen, search_from) (search_from-Stops fuel nodes s h)
    | inr fresh ↦
        rw (fresh, search_from)
          (and_then-Stops s (dfs fuel graph n s) (search_from fuel graph nodes)
            (dfs-Stops fuel n s fresh h)
            (λ t g.
              search_from-Stops fuel nodes t
                (omega (arith, h, fresh_count-Grows graph s.visited t.visited g))))
  ]

Stops-ends : (s : Search) (p : Probe) → Stops s p → p ≢ out_of_fuel
Stops-ends s (found c) h e = cc
Stops-ends s (backtracked t) h e = cc
Stops-ends s out_of_fuel h e = h

-- The depth-first search of the wait graph ends within the fuel it is given, one more than the
-- goroutines with an edge, for every graph and every order of its nodes.
pub find_cycle_ends :
    (graph : Dict ℤ (List ℤ)) (nodes : List ℤ) → find_cycle graph nodes ≢ out_of_fuel
unfolding find_cycle
find_cycle_ends graph nodes = Stops-ends no_search (find_cycle graph nodes) (
    search_from-Stops graph (suc (length graph)) nodes no_search
      (omega (arith, fresh_count-length graph [])))
