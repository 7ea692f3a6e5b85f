-- ===== src/Deadlock/Cycles.antt =====
-- What `deadlockCycleEvent` reports of the goroutines that wait for one another.
use gtv_final_submission.Prelude.Dict.{Dict, lookup, or_zero, keys, lookup-insert}
use gtv_final_submission.Prelude.Int.{ℤ, int_eq, int_beq_iff}
use gtv_final_submission.Prelude.Members.{member, member-append}
use gtv_final_submission.Prelude.{
  String, Bool, true, false, ◌&&◌, ◌||◌, Option, none, some, List, [], ◌∷◌, ◌++◌, ◌==◌, ◌≡◌, refl,
  inl, inr, arith, Bool-cases, subst, ap, sym, ◌∙◌, ◌≢◌, suc, length,
}
use gtv_final_submission.Timeline.{Millis, TimelineEvent, gids, field, texts, end, object}
use gtv_final_submission.Parse.State.{ParseState}
use gtv_final_submission.Deadlock.Graph.{WaitGraph, successors, wait_edge, add_edge, add_edges}
use gtv_final_submission.Deadlock.Search.{
  Probe, found, backtracked, out_of_fuel, no_search, is_set, find_cycle, report, edge_texts,
  no_edges, wait_graph, deadlock_cycle_event,
}
use gtv_final_submission.Deadlock.Acyclic.{All-member, ranked_acyclic}
use gtv_final_submission.Deadlock.Correct.{Inv, Searched, search_from-Searched}
use gtv_final_submission.Deadlock.Fuel.{find_cycle_ends}
use gtv_final_submission.Deadlock.Walks.{has_edge, IsChain, IsRing}

abbrev points_to : Option (ℤ × String) → ℤ → Bool
points_to none b = false
points_to (some (to, label)) b = to == b

-- The goroutine is blocked on a channel on which the other one did the opposite operation last, not
-- longer ago than the window.
abbrev pub waits_for : ParseState → Millis → ℤ → ℤ → Bool
waits_for st window a b = points_to (wait_edge st window a) b

member-snoc : (x y : ℤ) (l : List ℤ) → member x (l ++ (y ∷ [])) ≡ (member x l || (y == x))
unfolding member
member-snoc x y l = ground (arith, member-append x l (y ∷ []))

add_edge_has :
    (gid a b : ℤ) (o : Option (ℤ × String)) (w : WaitGraph)
    → has_edge (add_edge gid o w).graph a b
      ≡ (has_edge w.graph a b || ((gid == a) && points_to o b))
unfolding has_edge successors
add_edge_has gid a b none w = ground arith
add_edge_has gid a b (some (to, label)) w =
    let old = or_zero [] (lookup gid w.graph) in
    ground (
      arith,
      lookup-insert gid a (old ++ (to ∷ [])) w.graph,
      member-snoc b to old,
      int_beq_iff gid a,
      ap (λ (k : ℤ). or_zero [] (lookup k w.graph)) {x = gid} {y = a},
    )

add_edges_has :
    (st : ParseState) (window : Millis) (gs : List ℤ) (a b : ℤ) (w : WaitGraph)
    → has_edge (add_edges st window gs w).graph a b
      ≡ (has_edge w.graph a b || (member a gs && waits_for st window a b))
unfolding add_edges member
add_edges_has st window [] a b w = ground arith
add_edges_has st window (gid ∷ gs) a b w =
    let o = wait_edge st window gid in
    ground (
      arith,
      add_edges_has st window gs a b (add_edge gid o w),
      add_edge_has gid a b o w,
      int_beq_iff gid a,
      ap (λ (k : ℤ). waits_for st window k b) {x = gid} {y = a},
    )

key_member {ℓ} : {V : Type ℓ} (k : ℤ) (m : Dict ℤ V) → member k (keys m) ≡ false → lookup k m ≡ none
unfolding member lookup
key_member k [] h = refl
key_member k ((j, v) ∷ m) h = ground (arith, key_member k m)

-- A range visits the keys that there are.
abbrev pub VisitsAll : (List ℤ → List ℤ) → Type 0
VisitsAll range = (l : List ℤ) (x : ℤ) → member x (range l) ≡ member x l

IsChain-map :
    (e f : ℤ → ℤ → Bool) → ((a b : ℤ) → e a b ≡ f a b) → (l : List ℤ) → IsChain e l → IsChain f l
IsChain-map e f h [] c = tt
IsChain-map e f h (a ∷ []) c = tt
IsChain-map e f h (a ∷ b ∷ r) (p, c) = (sym (h a b) ∙ p, IsChain-map e f h (b ∷ r) c)

idle :
    (st : ParseState) (window : Millis) (a b : ℤ)
    → lookup a st.blocked ≡ none
    → waits_for st window a b ≡ false
unfolding wait_edge
idle st window a b e = ground arith

leaves_key :
    (graph : Dict ℤ (List ℤ)) (a b : ℤ) → has_edge graph a b ≡ true → member a (keys graph) ≡ true
unfolding has_edge successors member
leaves_key graph a b h = elim (Bool-cases (member a (keys graph))) [
  | inl e ↦ e
  | inr e ↦ ground (arith, key_member a graph e)
]

ring_start :
    (e : ℤ → ℤ → Bool) (m : ℤ) (middle : List ℤ)
    → IsChain e (m ∷ (middle ++ (m ∷ [])))
    → (b : ℤ) × (e m b ≡ true)
ring_start e m [] c = (m, c.0)
ring_start e m (b ∷ middle) c = (b, c.0)

no_edges_has : (a b : ℤ) → has_edge no_edges.graph a b ≡ false
unfolding has_edge successors lookup member
no_edges_has a b = refl

start-Inv : (graph : Dict ℤ (List ℤ)) → Inv graph [] no_search
unfolding member is_set lookup
start-Inv graph = record {
  is_visited = λ x. refl;
  is_stacked = λ x. refl;
  is_trail = tt;
  is_ranked = tt;
}

module _ (range : List ℤ → List ℤ) where
  wait_graph_has :
      (st : ParseState) (window : Millis) (a b : ℤ)
      → VisitsAll range
      → has_edge (wait_graph range st window).graph a b ≡ waits_for st window a b
  unfolding wait_graph
  wait_graph_has st window a b visits = elim (Bool-cases (member a (keys st.blocked))) [
    | inl e ↦ ground (
      arith,
      add_edges_has st window (range (keys st.blocked)) a b no_edges,
      visits (keys st.blocked) a,
      no_edges_has a b,
    )
    | inr e ↦ ground (
      arith,
      add_edges_has st window (range (keys st.blocked)) a b no_edges,
      visits (keys st.blocked) a,
      no_edges_has a b,
      idle st window a b (key_member a st.blocked e),
    )
  ]

  -- The value of the warning on a cycle.
  abbrev pub IsWarningOf : List ℤ → TimelineEvent → Type 0
  IsWarningOf c ev =
      (edges : List String) × (ev.value
        ≡ object (field "cycle_gids" (gids c) (field "edges" (texts edges) end)))

  -- What a search must return for the warnings to be right.
  report-IsRing :
      (st : ParseState) (window : Millis) (p : Probe) (nodes : List ℤ)
      → VisitsAll range
      → Searched (wait_graph range st window).graph [] no_search nodes p
      → (ev : TimelineEvent) → (report st (wait_graph range st window) p).1 ≡ some ev
      → (c : List ℤ) × IsRing (waits_for st window) c × IsWarningOf c ev
  report-IsRing st window (found c) nodes visits (m, middle, shape, walk) ev e = (
    c,
    (
      m,
      middle,
      shape,
      IsChain-map (has_edge (wait_graph range st window).graph) (waits_for st window)
          (λ a b. wait_graph_has st window a b visits) c walk,
    ),
    (edge_texts (wait_graph range st window).edge_info c, cc),
  )
  report-IsRing st window (backtracked t) nodes visits h ev e = cc
  report-IsRing st window out_of_fuel nodes visits h ev e = cc

  report_finds :
      (st : ParseState) (window : Millis) (p : Probe) (m : ℤ) (middle : List ℤ)
      → VisitsAll range
      → IsChain (waits_for st window) (m ∷ (middle ++ (m ∷ [])))
      → Searched
          (wait_graph range st window).graph
          []
          no_search
          (range (keys (wait_graph range st window).graph))
          p
      → p ≢ out_of_fuel
      → (ev : TimelineEvent) × ((report st (wait_graph range st window) p).1 ≡ some ev)
  report_finds st window (found c) m middle visits walk h ends = (_, refl)
  report_finds st window out_of_fuel m middle visits walk h ends = absurd (ends refl)
  report_finds st window (backtracked t) m middle visits walk (after, inv, same, ext, all) ends =
      let graph = (wait_graph range st window).graph in
      let chain =
        IsChain-map (waits_for st window) (has_edge graph)
          (λ a b. sym (wait_graph_has st window a b visits)) (m ∷ (middle ++ (m ∷ []))) walk in
      let first = ring_start (has_edge graph) m middle chain in
      let here : member m (range (keys graph)) ≡ true =
        visits (keys graph) m ∙ leaves_key graph m first.0 first.1 in
      absurd (
        ranked_acyclic graph after m middle inv.is_ranked
          (All-member (λ g. member g after ≡ true) (range (keys graph)) m all here) chain)

  searched :
      (st : ParseState) (window : Millis)
      → Searched
          (wait_graph range st window).graph
          []
          no_search
          (range (keys (wait_graph range st window).graph))
          (find_cycle
            (wait_graph range st window).graph
            (range (keys (wait_graph range st window).graph)))
  unfolding find_cycle
  searched st window =
      let graph = (wait_graph range st window).graph in
      search_from-Searched graph (suc (length graph)) (range (keys graph)) [] no_search
        (start-Inv graph) refl

  -- Where the ranges visit the keys that there are, a warning of deadlockCycleEvent names a cycle:
  -- its goroutines end with the one they begin with, and each but the last waits for the next.
  pub deadlock_cycle_event-IsRing :
      (st : ParseState) (window : Millis) (ev : TimelineEvent)
      → VisitsAll range
      → (deadlock_cycle_event range st window).1 ≡ some ev
      → (c : List ℤ) × IsRing (waits_for st window) c × IsWarningOf c ev
  unfolding deadlock_cycle_event
  deadlock_cycle_event-IsRing st window ev visits e =
      let graph = (wait_graph range st window).graph in
      report-IsRing st window (find_cycle graph (range (keys graph))) (range (keys graph)) visits
        (searched st window) ev e

  -- Where the ranges visit the keys that there are and some goroutines wait for one another in a
  -- ring, deadlockCycleEvent returns a warning.
  pub deadlock_cycle_event_finds :
      (st : ParseState) (window : Millis) (c : List ℤ)
      → VisitsAll range
      → IsRing (waits_for st window) c
      → (ev : TimelineEvent) × ((deadlock_cycle_event range st window).1 ≡ some ev)
  unfolding deadlock_cycle_event
  deadlock_cycle_event_finds st window c visits (m, middle, shape, walk) =
      let graph = (wait_graph range st window).graph in
      let nodes = range (keys graph) in
      report_finds st window (find_cycle graph nodes) m middle visits
        (subst (IsChain (waits_for st window)) (shape) walk) (searched st window)
        (find_cycle_ends graph nodes)
