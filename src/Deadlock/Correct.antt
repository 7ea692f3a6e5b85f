-- ===== src/Deadlock/Correct.antt =====
-- The depth-first search: what its variables say at every point, and that its fuel is enough.
use gtv_final_submission.Prelude.Dict.{Dict, insert, lookup-insert}
use gtv_final_submission.Prelude.Int.{ℤ, int_eq, int_beq_iff}
use gtv_final_submission.Prelude.Members.{member}
use gtv_final_submission.Prelude.{
  if◌then◌else◌, ℕ, zero, suc, Bool, true, false, ◌||◌, List, [], ◌∷◌, ◌==◌, ◌≡◌, refl, inl, inr,
  arith, Bool-cases, All, All-map, ap, subst, sym, ◌∙◌,
}
use gtv_final_submission.Deadlock.Graph.{successors}
use gtv_final_submission.Deadlock.Search.{
  Search, Probe, found, backtracked, out_of_fuel, is_set, enter, pop, leave, and_then, try_all, dfs,
  search_from,
}
use gtv_final_submission.Deadlock.Walks.{has_edge, IsTrail, IsCycle, cycle_at-IsCycle}

pub is_set-insert :
    (n x : ℤ) (b : Bool) (m : Dict ℤ Bool)
    → is_set x (insert n b m) ≡ (if n == x then b else is_set x m)
unfolding is_set
is_set-insert n x b m = ground (arith, lookup-insert n x b m)

member-head : (n : ℤ) (l : List ℤ) → member n (n ∷ l) ≡ true
unfolding member
member-head n l = ground arith

member-tail : (n x : ℤ) (l : List ℤ) → member x l ≡ true → member x (n ∷ l) ≡ true
unfolding member
member-tail n x l h = ground arith

pub members_of : (l : List ℤ) → All (λ m. member m l ≡ true) l
members_of [] = tt
members_of (x ∷ l) = (
  member-head x l,
  All-map (λ m. member m l ≡ true) (λ m. member m (x ∷ l) ≡ true) l (λ m. member-tail x m l)
      (members_of l),
)

module _ (graph : Dict ℤ (List ℤ)) where
  -- The finished nodes, the last one in front: an edge of one leads to one finished before.
  abbrev pub IsRanked : List ℤ → Type 0
  IsRanked [] = Unit
  IsRanked (n ∷ ns) = All (λ m. member m ns ≡ true) (successors n graph) × IsRanked ns

  -- A visited node is on the stack or finished, and the stack is a trail.
  pub record Inv (done : List ℤ) (s : Search) : Type 0 where
    pub is_visited : (x : ℤ) → is_set x s.visited ≡ (member x s.stack || member x done)
    pub is_stacked : (x : ℤ) → is_set x s.on_stack ≡ member x s.stack
    pub is_trail : IsTrail graph s.stack
    pub is_ranked : IsRanked done

  -- The list has every member of the other one.
  abbrev pub Extends : List ℤ → List ℤ → Type 0
  Extends old new = (x : ℤ) → member x old ≡ true → member x new ≡ true

  -- A cycle that is found is one, and a search that goes back has the stack it began with and the
  -- goals finished.
  abbrev pub Searched : List ℤ → Search → List ℤ → Probe → Type 0
  Searched done s goals (found c) = IsCycle graph c
  Searched done s goals (backtracked t) =
      (after : List ℤ) × Inv after t
      × (t.stack ≡ s.stack)
      × Extends done after
      × All (λ g. member g after ≡ true) goals
  Searched done s goals out_of_fuel = Unit

  enter-Inv :
      (done : List ℤ) (n : ℤ) (s : Search)
      → Inv done s
      → IsTrail graph (n ∷ s.stack)
      → Inv done (enter n s)
  unfolding member
  enter-Inv done n s inv t = record {
    is_visited = λ x. ground (arith, inv.is_visited x, is_set-insert n x true s.visited);
    is_stacked = λ x. ground (arith, inv.is_stacked x, is_set-insert n x true s.on_stack);
    is_trail = t;
    is_ranked = inv.is_ranked;
  }

  All-Extends :
      (old new l : List ℤ)
      → Extends old new
      → All (λ m. member m old ≡ true) l
      → All (λ m. member m new ≡ true) l
  All-Extends old new [] e h = tt
  All-Extends old new (x ∷ l) e (p, h) = (e x p, All-Extends old new l e h)

  left-Inv :
      (done : List ℤ) (n : ℤ) (s : Search) (after : List ℤ) (t : Search)
      → Inv done s
      → is_set n s.visited ≡ false
      → Inv after t
      → t.stack ≡ n ∷ s.stack
      → All (λ m. member m after ≡ true) (successors n graph)
      → Inv (n ∷ after) (record t { on_stack = insert n false t.on_stack; stack = s.stack })
  unfolding member
  left-Inv done n s after t inv fresh inv' same goals =
      let off : member n s.stack ≡ false = ground (arith, inv.is_visited n) in
      record {
        is_visited = λ x. ground (arith, inv'.is_visited x, ap (member x) same);
        is_stacked = λ x. ground (
          arith,
          inv'.is_stacked x,
          ap (member x) same,
          is_set-insert n x false t.on_stack,
          int_beq_iff n x,
        );
        is_trail = inv.is_trail;
        is_ranked = (goals, inv'.is_ranked);
      }

  leave-Searched :
      (done : List ℤ) (n : ℤ) (s : Search) (p : Probe)
      → Inv done s
      → is_set n s.visited ≡ false
      → Searched done (enter n s) (successors n graph) p
      → Searched done s (n ∷ []) (leave n p)
  leave-Searched done n s (found c) inv fresh h = h
  leave-Searched done n s out_of_fuel inv fresh h = tt
  leave-Searched done n s (backtracked t) inv fresh (after, inv', same, ext, goals) = (
    n ∷ after,
    subst
        (λ (k : List ℤ).
          Inv (n ∷ after) (record t { on_stack = insert n false t.on_stack; stack = k }))
        (sym (ap pop same)) (left-Inv done n s after t inv fresh inv' same goals),
    ap pop same,
    (λ x h. member-tail n x after (ext x h)),
    (member-head n after, tt),
  )

  off_stack :
      (done : List ℤ) (s : Search) (x : ℤ)
      → Inv done s
      → is_set x s.visited ≡ true
      → is_set x s.on_stack ≡ false
      → member x done ≡ true
  off_stack done s x inv seen off = ground (arith, inv.is_visited x, inv.is_stacked x)

  resume :
      (done : List ℤ) (s : Search) (g : ℤ) (gs : List ℤ) (after : List ℤ) (t : Search) (p : Probe)
      → t.stack ≡ s.stack
      → Extends done after
      → member g after ≡ true
      → Searched after t gs p
      → Searched done s (g ∷ gs) p
  resume done s g gs after t (found c) same ext hit h = h
  resume done s g gs after t out_of_fuel same ext hit h = tt
  resume done s g gs after t (backtracked u) same ext hit (last, inv, same', ext', goals) =
      (last, inv, same' ∙ same, (λ x h. ext' x (ext x h)), (ext' g hit, goals))

  and_then-Searched :
      (done : List ℤ) (s : Search) (g : ℤ) (gs : List ℤ) (p : Probe) (k : Search → Probe)
      → Searched done s (g ∷ []) p
      → ((after : List ℤ) (t : Search)
          → Inv after t
          → t.stack ≡ s.stack
          → Searched after t gs (k t))
      → Searched done s (g ∷ gs) (and_then p k)
  and_then-Searched done s g gs (found c) k h next = h
  and_then-Searched done s g gs out_of_fuel k h next = tt
  and_then-Searched done s g gs (backtracked t) k (after, inv, same, ext, (hit, u)) next =
      resume done s g gs after t (k t) same ext hit (next after t inv same)

  try_all-Searched :
      (go : ℤ → Search → Probe)
      → ((done : List ℤ) (n : ℤ) (s : Search)
          → Inv done s
          → is_set n s.visited ≡ false
          → IsTrail graph (n ∷ s.stack)
          → Searched done s (n ∷ []) (go n s))
      → (rest : List ℤ) (done : List ℤ) (top : ℤ) (l : List ℤ) (s : Search) → s.stack ≡ top ∷ l
      → All (λ m. has_edge graph top m ≡ true) rest
      → Inv done s
      → Searched done s rest (try_all go rest s)
  unfolding try_all
  try_all-Searched go spec [] done top l s e edges inv = (done, inv, refl, (λ x h. h), tt)
  try_all-Searched go spec (next ∷ rest) done top l s e edges inv =
      elim (Bool-cases (is_set next s.visited)) [
        | inl seen ↦ elim (Bool-cases (is_set next s.on_stack)) [
          | inl up ↦
              rw (seen, up, try_all)
                (rw e (
                  cycle_at-IsCycle graph next top l (subst (IsTrail graph) (e) inv.is_trail) edges.0
                    (subst (λ (k : List ℤ). member next k ≡ true) (e)
                      (sym (inv.is_stacked next) ∙ up))))
          | inr off ↦
              rw (seen, off, try_all)
                (resume done s next rest done s (try_all go rest s) refl (λ x h. h)
                  (off_stack done s next inv seen off)
                  (try_all-Searched go spec rest done top l s e edges.1 inv))
        ]
        | inr fresh ↦
            rw (fresh, try_all)
              (and_then-Searched done s next rest (go next s) (try_all go rest)
                (spec done next s inv fresh
                  (rw e (edges.0, subst (IsTrail graph) (e) inv.is_trail)))
                (λ after t inv' same.
                  try_all-Searched go spec rest after top l t (same ∙ e) edges.1 inv'))
      ]

  finished :
      (done : List ℤ) (s : Search) (x : ℤ)
      → Inv done s
      → s.stack ≡ []
      → is_set x s.visited ≡ true
      → member x done ≡ true
  unfolding member
  finished done s x inv e seen = ground (arith, inv.is_visited x, ap (member x) e)

  dfs-Searched :
      (fuel : ℕ) (done : List ℤ) (n : ℤ) (s : Search)
      → Inv done s
      → is_set n s.visited ≡ false
      → IsTrail graph (n ∷ s.stack)
      → Searched done s (n ∷ []) (dfs fuel graph n s)
  unfolding dfs has_edge
  dfs-Searched zero done n s inv fresh t = tt
  dfs-Searched (suc fuel) done n s inv fresh t =
      leave-Searched done n s (try_all (dfs fuel graph) (successors n graph) (enter n s)) inv fresh
        (try_all-Searched (dfs fuel graph) (dfs-Searched fuel) (successors n graph) done n s.stack
          (enter n s) refl (members_of (successors n graph)) (enter-Inv done n s inv t))

  pub search_from-Searched :
      (fuel : ℕ) (nodes : List ℤ) (done : List ℤ) (s : Search)
      → Inv done s
      → s.stack ≡ []
      → Searched done s nodes (search_from fuel graph nodes s)
  unfolding search_from
  search_from-Searched fuel [] done s inv e = (done, inv, refl, (λ x h. h), tt)
  search_from-Searched fuel (n ∷ nodes) done s inv e = elim (Bool-cases (is_set n s.visited)) [
    | inl seen ↦
        rw (seen, search_from)
          (resume done s n nodes done s (search_from fuel graph nodes s) refl (λ x h. h)
            (finished done s n inv e seen) (search_from-Searched fuel nodes done s inv e))
    | inr fresh ↦
        rw (fresh, search_from)
          (and_then-Searched done s n nodes (dfs fuel graph n s) (search_from fuel graph nodes)
            (dfs-Searched fuel done n s inv fresh (rw e tt))
            (λ after t inv' same. search_from-Searched fuel nodes after t inv' (same ∙ e)))
  ]
