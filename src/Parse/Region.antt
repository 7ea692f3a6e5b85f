-- ===== src/Parse/Region.antt =====
-- `parseRegionOp`: the operation that the type of a trace region names.
use Prim.Native.String.{◌++◌}
use mathlib.Core.List.{head?}
use gtv_final_submission.Prelude.Dict.{or_zero}
use gtv_final_submission.Prelude.Text.{
  starts_with, contains, fields, split_last, trim_space, to_lower, drop_text,
}
use gtv_final_submission.Prelude.{
  String, ◌||◌, Option, none, some, List, [], ◌∷◌, ◌==◌, ◌≡◌, refl, string_eq, if◌then◌else◌,
}
use gtv_final_submission.Timeline.Kinds.{one_of}

-- The kind and the channel; `none` is `ok == false`.
abbrev pub RegionOp : Type 0
RegionOp = Option (String × String)

abbrev pub or_else {ℓ} : {A : Type ℓ} → Option A → Option A → Option A
or_else none b = b
or_else (some a) b = some a

-- A label such as "mutex.lock mu": the action behind the prefix, and the first word behind it.
sync_words : String → List String → List String → RegionOp
sync_words prim actions [] = none
sync_words prim actions (w ∷ ws) =
    let action = drop_text (Prim.Native.String.count prim) (drop_text 1 w) in
    let label = or_zero "" (head? ws) in
    if one_of actions action
    then some (prim ++ "_" ++ action, if label == "" then prim else prim ++ ":" ++ label)
    else none

unfoldable pub sync_op : String → List String → String → RegionOp
unfolding sync_words
sync_op prim actions lt =
    if starts_with lt (prim ++ ".") then sync_words prim actions (fields lt) else none

-- The first word behind the last occurrence of a phrase.
unfoldable pub word_behind : String → String → String → RegionOp
word_behind kind phrase lt = elim (split_last lt phrase) [
  | none ↦ none
  | some (before, behind) ↦ elim (fields (trim_space behind)) [
    | [] ↦ none
    | w ∷ ws ↦ some (kind, w)
  ]
]

receive_op : String → RegionOp
receive_op lt =
    if contains lt "receive"
    then or_else (word_behind "recv" " from " lt) (word_behind "recv" "receive " lt)
    else none

recv_op : String → RegionOp
recv_op lt =
    if contains lt "recv"
    then or_else (word_behind "recv" " from " lt) (word_behind "recv" "recv " lt)
    else none

send_op : String → RegionOp
send_op lt =
    if contains lt "send"
    then or_else (word_behind "send" " to " lt)
        (or_else (word_behind "send" " on " lt) (word_behind "send" "send " lt))
    else none

unfoldable pub parse_region_op : String → RegionOp
unfolding receive_op recv_op send_op sync_op word_behind
parse_region_op typ =
    let lt = to_lower typ in
    if (lt == "chan.close") || ((lt == "chan_close") || starts_with lt "chan.close ")
    then some ("chan_close", "")
    else or_else (sync_op "mutex" ("lock" ∷ "unlock" ∷ []) lt) (
        or_else (sync_op "rwmutex" ("lock" ∷ "unlock" ∷ "rlock" ∷ "runlock" ∷ []) lt) (
          or_else (sync_op "wg" ("add" ∷ "done" ∷ "wait" ∷ []) lt) (
            or_else (sync_op "cond" ("wait" ∷ "signal" ∷ "broadcast" ∷ []) lt)
              (or_else (receive_op lt) (or_else (recv_op lt) (send_op lt))))))

parse_region_op_test :
    parse_region_op "Worker: receive from clientOut[1] now" ≡ some ("recv", "clientout[1]")
unfolding parse_region_op to_lower contains split_last fields trim_space
parse_region_op_test = refl

parse_mutex_test : parse_region_op "rwmutex.RLock cache" ≡ some ("rwmutex_rlock", "rwmutex:cache")
unfolding parse_region_op to_lower fields drop_text
parse_mutex_test = refl
