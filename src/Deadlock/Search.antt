-- ===== src/Deadlock/Search.antt =====
-- The depth-first search of `deadlockCycleEvent`, and the two warnings.
use Prim.Native.String.{◌++◌}
use mathlib.Core.List.{◌++◌ as append}
use gtv_final_submission.Prelude.Dict.{Dict, lookup, insert, or_zero, keys}
use gtv_final_submission.Prelude.Int.{ℤ, pos, leb_ℤ, ltb_ℤ, ◌-ℤ◌, int_eq}
use gtv_final_submission.Prelude.Text.{trim_space, show_ℤ}
use gtv_final_submission.Prelude.{
  ℕ, zero, suc, String, Bool, true, false, Option, none, some, List, [], ◌∷◌, ◌==◌, string_eq,
  nat_eq, if◌then◌else◌, length,
}
use gtv_final_submission.Timeline.{
  Millis, TimelineEvent, Fields, zero_event, end, field, object, millis, number, gids, texts,
}
use gtv_final_submission.Parse.State.{ParseState}
use gtv_final_submission.Deadlock.Graph.{WaitGraph, successors, edge_key, add_edges}

-- The variables that the closure `dfs` shares. The top of the stack stands in front, where the code
-- has it at the end.
pub record Search : Type 0 where
  pub visited : Dict ℤ Bool
  pub on_stack : Dict ℤ Bool
  pub stack : List ℤ

-- `dfs` returns true with the cycle, or false with what it left of the variables.
pub data Probe : Type 0 where
  found : List ℤ → Probe
  backtracked : Search → Probe
  out_of_fuel : Probe

unfoldable pub is_set : ℤ → Dict ℤ Bool → Bool
is_set n m = or_zero false (lookup n m)

abbrev pub reverse : List ℤ → List ℤ
reverse [] = []
reverse (n ∷ ns) = append (reverse ns) (n ∷ [])

-- The stack from its last `next` on, the whole of it if there is none; its top in front.
unfoldable pub down_to : ℤ → List ℤ → List ℤ
down_to next [] = []
down_to next (n ∷ ns) = let below = down_to next ns in if n == next then n ∷ [] else n ∷ below

unfoldable pub cycle_at : ℤ → List ℤ → List ℤ
cycle_at next stack = append (reverse (down_to next stack)) (next ∷ [])

abbrev pub enter : ℤ → Search → Search
enter n s = record {
  visited = insert n true s.visited;
  on_stack = insert n true s.on_stack;
  stack = n ∷ s.stack;
}

abbrev pub pop : List ℤ → List ℤ
pop [] = []
pop (n ∷ ns) = ns

abbrev pub leave : ℤ → Probe → Probe
leave n (found c) = found c
leave n (backtracked s) =
    backtracked (record s { on_stack = insert n false s.on_stack; stack = pop s.stack })
leave n out_of_fuel = out_of_fuel

abbrev pub and_then : Probe → (Search → Probe) → Probe
and_then (found c) k = found c
and_then (backtracked s) k = k s
and_then out_of_fuel k = out_of_fuel

-- The loop over the successors of a node.
unfoldable pub try_all : (ℤ → Search → Probe) → List ℤ → Search → Probe
try_all go [] s = backtracked s
try_all go (next ∷ rest) s = elim (is_set next s.visited) [
  | false ↦ and_then (go next s) (try_all go rest)
  | true ↦ elim (is_set next s.on_stack) [
    | true ↦ found (cycle_at next s.stack)
    | false ↦ try_all go rest s
  ]
]

unfoldable pub dfs : ℕ → Dict ℤ (List ℤ) → ℤ → Search → Probe
dfs zero graph n s = out_of_fuel
dfs (suc fuel) graph n s = leave n (try_all (dfs fuel graph) (successors n graph) (enter n s))

-- The loop over the nodes of the graph.
unfoldable pub search_from : ℕ → Dict ℤ (List ℤ) → List ℤ → Search → Probe
search_from fuel graph [] s = backtracked s
search_from fuel graph (n ∷ ns) s = elim (is_set n s.visited) [
  | true ↦ search_from fuel graph ns s
  | false ↦ and_then (dfs fuel graph n s) (search_from fuel graph ns)
]

abbrev pub no_search : Search
no_search = record { visited = []; on_stack = []; stack = [] }

-- No path is longer than the goroutines that wait, and one that does not.
unfoldable pub find_cycle : Dict ℤ (List ℤ) → List ℤ → Probe
find_cycle graph nodes = search_from (suc (length graph)) graph nodes no_search

-- The loop that prints the edges of the cycle.
unfoldable pub edge_texts : Dict String String → List ℤ → List String
edge_texts info [] = []
edge_texts info (from ∷ []) = []
edge_texts info (from ∷ to ∷ rest) =
    let ch = or_zero "" (lookup (edge_key from to) info) in
    (if ch == ""
      then "g" ++ show_ℤ from ++ " -> g" ++ show_ℤ to
      else "g" ++ show_ℤ from ++ " -" ++ ch ++ "-> g" ++ show_ℤ to)
    ∷ edge_texts info (to ∷ rest)

abbrev pub audit_event : ParseState → String → Fields → TimelineEvent
audit_event st name payload = record zero_event {
  time_ms = st.last_time_ms;
  time_ns = st.last_time_ns;
  event = name;
  source = "audit";
  value = object payload;
}

abbrev pub report : ParseState → WaitGraph → Probe → ParseState × Option TimelineEvent
report st w (found cycle) =
    let payload : Fields =
      field "cycle_gids" (gids cycle) (field "edges" (texts (edge_texts w.edge_info cycle)) end) in
    (
      record st { activity = record st.activity { deadlock_cycle = some payload } },
      some (audit_event st "warn_deadlock_cycle" payload),
    )
report st w (backtracked s) = (st, none)
report st w out_of_fuel = (st, none)

abbrev pub no_edges : WaitGraph
no_edges = record { graph = []; edge_info = [] }

module _ (range : List ℤ → List ℤ) where
  unfoldable pub wait_graph : ParseState → Millis → WaitGraph
  wait_graph st window = add_edges st window (range (keys st.blocked)) no_edges

  unfoldable pub deadlock_cycle_event : ParseState → Millis → ParseState × Option TimelineEvent
  deadlock_cycle_event st window =
      let w = wait_graph st window in report st w (find_cycle w.graph (range (keys w.graph)))

-- The variables GTV_QUIESCENCE_MS and GTV_DEADLOCK_WINDOW_MS: strconv.ParseFloat is a parameter.
abbrev pub positive_or : Millis → Option Millis → Millis
positive_or d none = d
positive_or d (some v) = if ltb_ℤ (pos 0) v then v else d

unfoldable pub quiescence_threshold_ms : (String → Option Millis) → String → Millis
quiescence_threshold_ms parse_float variable =
    let raw = trim_space variable in
    if raw == "" then pos 500000000 else positive_or (pos 500000000) (parse_float raw)

unfoldable pub deadlock_window_ms : (String → Option Millis) → String → Millis
deadlock_window_ms parse_float variable =
    let raw = trim_space variable in
    if raw == "" then pos 1000000000 else positive_or (pos 1000000000) (parse_float raw)

-- sort.Slice on the goroutines, of which no two are equal.
unfoldable pub place : ℤ → List ℤ → List ℤ
place g [] = g ∷ []
place g (h ∷ hs) = let rest = place g hs in if leb_ℤ g h then g ∷ h ∷ hs else h ∷ rest

unfoldable pub sort_gids : List ℤ → List ℤ
sort_gids [] = []
sort_gids (g ∷ gs) = place g (sort_gids gs)

unfoldable pub quiescence_warning_event : ParseState → Millis → Option TimelineEvent
quiescence_warning_event st threshold =
    let since = st.last_time_ms -ℤ st.last_progress_ms in
    let blocked_gids = sort_gids (keys st.blocked) in
    if leb_ℤ threshold (pos 0)
    then none
    else if length blocked_gids == 0
    then none
    else if leb_ℤ st.last_progress_ms (pos 0)
    then none
    else if ltb_ℤ since threshold
    then none
    else some (
        audit_event st "warn_quiescence" (
          field "since_ms" (millis since) (
            field "blocked_count" (number (pos (length blocked_gids)))
              (field "blocked_gids" (gids blocked_gids) end))))
