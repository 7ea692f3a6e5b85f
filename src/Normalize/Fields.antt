-- ===== src/Normalize/Fields.antt =====
-- The body of the loop of `NormalizeTimeline`: the fields of one event. The maps of the closures are
-- `Aliases`.
use Prim.Native.String.{◌++◌}
use mathlib.Core.List.{◌++◌ as append}
use gtv_final_submission.Prelude.Dict.{Dict, lookup, insert, is_some, or_zero}
use gtv_final_submission.Prelude.Int.{pos, int_eq}
use gtv_final_submission.Prelude.Text.{to_lower, trim_space, starts_with, show_ℕ, show_ℤ}
use gtv_final_submission.Prelude.{
  ℕ, suc, String, Bool, true, not, ◌&&◌, ◌||◌, Option, none, some, List, [], ◌∷◌, ◌==◌, string_eq,
  nat_eq, if◌then◌else◌,
}
use gtv_final_submission.Timeline.{TimelineEvent}
use gtv_final_submission.Timeline.Kinds.{
  timeline_channel_identity, is_goroutine_event, is_channel_event, is_pairing_event,
  annotate_unknown_endpoints,
}
use gtv_final_submission.Topology.{normalize_channel_key, normalize_pointer, is_pointer_string}
use gtv_final_submission.Dedup.{round_ns}

unfoldable pub is_alias_name : String → Bool
is_alias_name name =
    let low = to_lower (trim_space name) in
    not (name == "") && (starts_with low "ch#" || starts_with low "unknown:")

-- The first loop: the first name that an event gives to a pointer.
unfoldable pub learn_name : Dict String String → TimelineEvent → Dict String String
learn_name names ev =
    let ptr = normalize_pointer ev.ch_ptr in
    if not (ev.ch_ptr == "")
      && (not (ev.channel == "")
          && (not (ptr == "")
              && (not (is_pointer_string ev.channel)
                  && (not (is_alias_name ev.channel) && not (is_some (lookup ptr names))))))
    then insert ptr ev.channel names
    else names

unfoldable pub learn_names : Dict String String → List TimelineEvent → Dict String String
learn_names names [] = names
learn_names names (ev ∷ evs) = learn_names (learn_name names ev) evs

pub record Aliases : Type 0 where
  pub ptr_aliases : Dict String String
  pub alias_seq : ℕ

abbrev new_alias : String → Aliases → Option String → String × Aliases
new_alias ptr al (some v) = (v, al)
new_alias ptr al none =
    let alias = "ch#" ++ show_ℕ (suc al.alias_seq) in
    (alias, record { ptr_aliases = insert ptr alias al.ptr_aliases; alias_seq = suc al.alias_seq })

unfoldable pub alias_for_ptr : String → Aliases → String × Aliases
alias_for_ptr ptr al = if ptr == "" then ("", al) else new_alias ptr al (lookup ptr al.ptr_aliases)

-- Up to the name that the pointer has elsewhere.
unfoldable pub clean_names : Dict String String → TimelineEvent → TimelineEvent
clean_names names ev =
    let key = if ev.channel_key == "" then "" else normalize_channel_key ev.channel_key in
    let ptr = if ev.ch_ptr == "" then "" else normalize_pointer ev.ch_ptr in
    let is_weak =
      (ev.channel == "") || (is_pointer_string ev.channel || is_alias_name ev.channel) in
    record ev {
      channel_key = key;
      ch_ptr = ptr;
      channel =
          if is_weak && not (ptr == "") then or_zero ev.channel (lookup ptr names) else ev.channel;
    }

unfoldable pub fill_key : TimelineEvent → TimelineEvent
fill_key ev =
    if ev.channel_key == ""
    then record ev { channel_key = normalize_channel_key ev.channel }
    else ev

abbrev pub weak_name : TimelineEvent → Bool
weak_name ev = (ev.channel == "") || is_pointer_string ev.channel

-- A key that is a pointer gives way to an alias.
unfoldable pub alias_key : Aliases × TimelineEvent → Aliases × TimelineEvent
alias_key (al, ev) =
    let key = normalize_pointer ev.channel_key in
    let r = alias_for_ptr key al in
    if not (ev.channel_key == "") && (not (key == "") && is_pointer_string key)
    then (
      r.1,
      record ev {
        ch_ptr = if ev.ch_ptr == "" then key else ev.ch_ptr;
        channel_key = if r.0 == "" then ev.channel_key else r.0;
        channel = if not (r.0 == "") && weak_name ev then r.0 else ev.channel;
      },
    )
    else (al, ev)

-- A key or a name that is missing or a pointer, beside a pointer, is the pointer's alias.
unfoldable pub alias_ptr : Aliases × TimelineEvent → Aliases × TimelineEvent
alias_ptr (al, ev) =
    let r = alias_for_ptr ev.ch_ptr al in
    if not (ev.ch_ptr == "") && is_pointer_string ev.ch_ptr
    then (
      r.1,
      record ev {
        channel_key =
            if not (r.0 == "") && ((ev.channel_key == "") || is_pointer_string ev.channel_key)
            then r.0
            else ev.channel_key;
        channel = if not (r.0 == "") && weak_name ev then r.0 else ev.channel;
      },
    )
    else (al, ev)

-- A time in nanoseconds, and a number in the sequence: the position of the event, from 1.
unfoldable pub stamp : ℕ → TimelineEvent → TimelineEvent
stamp i ev = record ev {
  time_ns = if ev.time_ns == pos 0 then round_ns ev.time_ms else ev.time_ns;
  seq = if ev.seq == pos 0 then pos (suc i) else ev.seq;
}

unfoldable pub fill_channel_key : TimelineEvent → TimelineEvent
fill_channel_key ev = if is_channel_event (to_lower ev.event) then fill_key ev else ev

abbrev place_of : TimelineEvent → String
place_of ev = "seq=" ++ show_ℤ ev.seq ++ " time_ns=" ++ show_ℤ ev.time_ns ++ ")"

unfoldable pub warn_goroutine : TimelineEvent → List String
warn_goroutine ev =
    if is_goroutine_event (to_lower ev.event) && (ev.g == pos 0)
    then ("missing goroutine id" ++ " for " ++ ev.event ++ " (" ++ place_of ev) ∷ []
    else []

abbrev pub has_no_identity : TimelineEvent → Bool
has_no_identity ev = is_channel_event (to_lower ev.event) && (timeline_channel_identity ev == "")

abbrev pub unknown_name : TimelineEvent → String
unknown_name ev = "unknown:" ++ show_ℤ ev.g ++ ":" ++ show_ℤ ev.seq

-- A channel event without an identity is given one of its own.
unfoldable pub identify : TimelineEvent → TimelineEvent
identify ev =
    if has_no_identity ev
    then record ev {
      channel = if ev.channel == "" then unknown_name ev else ev.channel;
      channel_key = if ev.channel_key == "" then unknown_name ev else ev.channel_key;
      missing_ptr = true;
    }
    else ev

unfoldable pub warn_identity : TimelineEvent → List String
warn_identity ev =
    if has_no_identity ev
    then ("missing channel identity"
        ++ " for "
        ++ ev.event
        ++ " (g="
        ++ show_ℤ ev.g
        ++ " "
        ++ place_of ev)
      ∷ []
    else []

unfoldable pub warn_pairing : TimelineEvent → List String
warn_pairing ev =
    if is_pairing_event (to_lower ev.event) ev.source
      && ((ev.peer_g == pos 0) && ((ev.pair_id == "") && (ev.msg_id == 0)))
    then ("missing pairing fields"
        ++ " for "
        ++ ev.event
        ++ " (g="
        ++ show_ℤ ev.g
        ++ " "
        ++ place_of ev)
      ∷ []
    else []

-- The names of an event, before its identity is decided.
unfoldable pub settle_names :
    Dict String String → ℕ → Aliases → TimelineEvent → Aliases × TimelineEvent
settle_names names i al ev =
    let r = alias_ptr (alias_key (al, fill_key (clean_names names ev))) in
    (r.0, fill_channel_key (stamp i r.1))

-- One event, with the warnings on it.
unfoldable pub normalize_event :
    Dict String String → ℕ → Aliases → TimelineEvent → Aliases × TimelineEvent × List String
normalize_event names i al ev =
    let r = settle_names names i al ev in
    let named = identify r.1 in
    (
      r.0,
      annotate_unknown_endpoints named,
      append (warn_goroutine r.1) (append (warn_identity r.1) (warn_pairing named)),
    )

-- The second loop.
unfoldable pub normalize_events :
    Dict String String → ℕ → Aliases → List TimelineEvent → List TimelineEvent × List String
normalize_events names i al [] = ([], [])
normalize_events names i al (ev ∷ evs) =
    let r = normalize_event names i al ev in
    let rest = normalize_events names (suc i) r.0 evs in (r.1 ∷ rest.0, append r.2 rest.1)
