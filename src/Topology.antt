-- ===== src/Topology.antt =====
-- internal/traceproc/topology.go: the identity of an event's channel, and the validation of a
-- timeline. An error is kept as the arguments of its format.
pub mod Soundness
use gtv_final_submission.Prelude.Dict.{Dict, lookup, insert, is_some}
use gtv_final_submission.Prelude.Text.{
  trim_space, drop_text, split_first, atoi, to_lower, contains, starts_with,
}
use gtv_final_submission.Prelude.{
  ℕ, suc, String, Bool, true, false, not, ◌&&◌, ◌||◌, Option, none, some, List, [], ◌∷◌, ◌==◌,
  string_eq, if◌then◌else◌,
}
use gtv_final_submission.Timeline.{TimelineEvent}

-- The text up to a "#g" that a number follows.
unfoldable pub cut_suffix : String → Option (String × String) → String
cut_suffix key none = key
cut_suffix key (some (before, behind)) =
    if not (behind == "") && is_some (atoi behind) then before else key

unfoldable pub strip_goroutine_suffix : String → String
strip_goroutine_suffix key = if key == "" then "" else cut_suffix key (split_first key "#g")

unfoldable pub normalize_channel_key : String → String
normalize_channel_key key =
    let k = trim_space key in if k == "" then "" else strip_goroutine_suffix k

unfoldable pub normalize_pointer : String → String
normalize_pointer ptr =
    let p = trim_space ptr in
    if p == "" then "" else if starts_with p "ptr=" then trim_space (drop_text 4 p) else p

unfoldable pub is_pointer_string : String → Bool
is_pointer_string val =
    if val == ""
    then false
    else let v = normalize_pointer val in
      if v == "" then false else starts_with v "0x" || starts_with v "0X"

unfoldable pub event_kind : String → String
event_kind event =
    let name = to_lower event in
    if starts_with name "blocked_"
    then ""
    else if contains name "send" && not (contains name "recv") && not (contains name "receive")
    then "send"
    else if contains name "recv" || contains name "receive"
    then "recv"
    else if contains name "send"
    then "send"
    else ""

unfoldable pub pointer_from_event : TimelineEvent → String
pointer_from_event ev =
    let ptr = normalize_pointer ev.ch_ptr in
    let key = normalize_channel_key ev.channel_key in
    if not (ptr == "") then ptr else if not (key == "") && is_pointer_string key then key else ""

unfoldable pub channel_identity : TimelineEvent → String
channel_identity ev =
    let key = normalize_channel_key ev.channel_key in
    let name = normalize_channel_key ev.channel in
    let ptr = normalize_pointer ev.ch_ptr in
    if not (key == "")
    then key
    else if not (name == "")
    then name
    else if not (ptr == "")
    then ptr
    else ""

pub data TopologyError : Type 0 where
  no_normalized_identity : ℕ → String → String → TopologyError
  pointer_mapped_twice : String → String → String → TopologyError
  missing_channel_identity : ℕ → String → String → String → String → TopologyError

-- The validator's map from a pointer to the identity that it was first seen with.
pub record TopologyValidator : Type 0 where
  pub pointer_to_identity : Dict String String

-- The check of a send or receive without a pointer, with which `observe` ends.
observe_kind : TimelineEvent → ℕ → String → String → Option TopologyError
observe_kind ev idx ptr identity =
    let kind = event_kind ev.event in
    if not (kind == "") && (ptr == "")
    then (if identity == ""
        then some (missing_channel_identity idx ev.event kind ev.channel ev.channel_key)
        else none)
    else none

abbrev pub clashes : Option String → String → Option String
clashes none identity = none
clashes (some prev) identity = if not (prev == identity) then some prev else none

-- The rest of `observe` once the pointer has passed: the map is written, then the kind is checked.
observe_pointer :
    TopologyValidator
    → TimelineEvent
    → ℕ
    → String
    → String
    → TopologyValidator × Option TopologyError
unfolding observe_kind
observe_pointer v ev idx ptr identity =
    if identity == ""
    then (v, some (no_normalized_identity idx ev.event ptr))
    else elim (clashes (lookup ptr v.pointer_to_identity) identity) [
      | some prev ↦ (v, some (pointer_mapped_twice ptr prev identity))
      | none ↦ (
        record { pointer_to_identity = insert ptr identity v.pointer_to_identity },
        observe_kind ev idx ptr identity,
      )
    ]

unfoldable pub observe :
    TopologyValidator → TimelineEvent → ℕ → TopologyValidator × Option TopologyError
unfolding observe_pointer
observe v ev idx =
    let ptr = pointer_from_event ev in
    let identity = channel_identity ev in
    if not (ptr == "")
    then observe_pointer v ev idx ptr identity
    else (v, observe_kind ev idx ptr identity)

abbrev pub or_cons : Option TopologyError → List TopologyError → List TopologyError
or_cons none errs = errs
or_cons (some err) errs = err ∷ errs

-- The loop of `ValidateTopology`: the errors of the events from `idx` on, in order.
unfoldable pub observe_all : TopologyValidator → ℕ → List TimelineEvent → List TopologyError
observe_all v idx [] = []
observe_all v idx (ev ∷ evs) =
    let (v', err) = observe v ev idx in or_cons err (observe_all v' (suc idx) evs)

abbrev pub or_none : List TopologyError → Option (List TopologyError)
or_none [] = none
or_none (err ∷ errs) = some (err ∷ errs)

-- `none` is the `nil` error.
unfoldable pub validate_topology : List TimelineEvent → Option (List TopologyError)
unfolding observe_all
validate_topology [] = none
validate_topology (ev ∷ evs) =
    or_none (observe_all (record { pointer_to_identity = [] }) 0 (ev ∷ evs))
