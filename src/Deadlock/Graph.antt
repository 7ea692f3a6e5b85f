-- ===== src/Deadlock/Graph.antt =====
-- The wait graph of `deadlockCycleEvent`: from a blocked goroutine to the goroutine that last did the
-- opposite operation on the channel.
use Prim.Native.String.{◌++◌}
use mathlib.Core.List.{◌++◌ as append}
use gtv_final_submission.Prelude.Dict.{Dict, lookup, insert, is_some, or_zero}
use gtv_final_submission.Prelude.Int.{ℤ, pos, ltb_ℤ, ◌-ℤ◌, int_eq}
use gtv_final_submission.Prelude.Text.{starts_with, show_ℤ}
use gtv_final_submission.Prelude.{
  String, Option, none, some, List, [], ◌∷◌, ◌==◌, string_eq, if◌then◌else◌,
}
use gtv_final_submission.Timeline.{Millis}
use gtv_final_submission.Parse.Activity.{named_channel}
use gtv_final_submission.Parse.Region.{parse_region_op, or_else}
use gtv_final_submission.Parse.State.{ParseState, BlockedInfo, LastOpInfo}

-- The closure `lookup` of `resolveCandidate`, with the key it was given.
abbrev last_op : ParseState → String → String → Option (LastOpInfo × String)
last_op st kind key =
    let keep = λ (o : Option LastOpInfo). elim o as (λ _. Option (LastOpInfo × String)) [
      | none ↦ none
      | some info ↦ some (info, key)
    ] in
    if key == ""
    then none
    else if kind == "recv"
    then keep (lookup key st.last_send_by_channel)
    else keep (lookup key st.last_recv_by_channel)

-- A key, and after it the channel that the key names as a region does.
abbrev last_op_named : ParseState → String → String → Option (LastOpInfo × String)
last_op_named st kind key =
    or_else (last_op st kind key) (last_op st kind (named_channel (parse_region_op key)))

-- The last operation that could have woken the goroutine, with the name it was found by.
unfoldable pub resolve_candidate : ParseState → String → String → Option (LastOpInfo × String)
resolve_candidate st kind channel_id =
    let name = or_zero "" (lookup channel_id st.channel_name_by_ptr) in
    let found = last_op_named st kind channel_id in
    if channel_id == ""
    then none
    else if is_some found
    then found
    else if starts_with channel_id "0x"
    then last_op_named st kind name
    else none

abbrev pub edge_key : ℤ → ℤ → String
edge_key from to = "g" ++ show_ℤ from ++ "->g" ++ show_ℤ to

-- The body of the loop over the blocked goroutines up to the first write: its target and label.
abbrev pub edge_to :
    ParseState → Millis → String → Option (LastOpInfo × String) → Option (ℤ × String)
edge_to st window channel_id none = none
edge_to st window channel_id (some (candidate, label)) =
    if candidate.g == pos 0
    then none
    else if ltb_ℤ window (st.last_time_ms -ℤ candidate.time_ms)
    then none
    else some (candidate.g, if label == "" then channel_id else label)

abbrev pub edge_from : ParseState → Millis → Option BlockedInfo → Option (ℤ × String)
edge_from st window none = none
edge_from st window (some info) =
    if info.channel_id == ""
    then none
    else edge_to st window info.channel_id (resolve_candidate st info.reason info.channel_id)

unfoldable pub wait_edge : ParseState → Millis → ℤ → Option (ℤ × String)
wait_edge st window gid = edge_from st window (lookup gid st.blocked)

pub record WaitGraph : Type 0 where
  pub graph : Dict ℤ (List ℤ)
  pub edge_info : Dict String String

unfoldable pub successors : ℤ → Dict ℤ (List ℤ) → List ℤ
successors n graph = or_zero [] (lookup n graph)

abbrev pub add_edge : ℤ → Option (ℤ × String) → WaitGraph → WaitGraph
add_edge gid none w = w
add_edge gid (some (to, label)) w = record {
  graph = insert gid (append (successors gid w.graph) (to ∷ [])) w.graph;
  edge_info = insert (edge_key gid to) label w.edge_info;
}

-- The loop over the blocked goroutines, in the order of the range.
unfoldable pub add_edges : ParseState → Millis → List ℤ → WaitGraph → WaitGraph
add_edges st window [] w = w
add_edges st window (gid ∷ gids) w =
    add_edges st window gids (add_edge gid (wait_edge st window gid) w)
