-- ===== src/Parse/Activity.antt =====
-- `recordChannelActivity`: the last send and receive on a channel, under each of its names.
use gtv_final_submission.Prelude.Dict.{Dict, lookup, insert, or_zero, keys}
use gtv_final_submission.Prelude.Int.{ℤ, int_eq}
use gtv_final_submission.Prelude.Text.{starts_with}
use gtv_final_submission.Prelude.{
  String, not, ◌&&◌, none, some, List, [], ◌∷◌, ◌==◌, string_eq, if◌then◌else◌,
}
use gtv_final_submission.Timeline.{Millis}
use gtv_final_submission.Parse.Region.{parse_region_op, RegionOp}
use gtv_final_submission.Parse.State.{ParseState, Activity, LastOpInfo}

-- The closure `record`.
record_key : String → LastOpInfo → String → Activity → Activity
record_key kind info key a =
    if key == ""
    then a
    else if kind == "send"
    then record a { last_send_by_channel = insert key info a.last_send_by_channel }
    else if kind == "recv"
    then record a { last_recv_by_channel = insert key info a.last_recv_by_channel }
    else a

-- The channel that a text names as a region does; "" if none.
abbrev pub named_channel : RegionOp → String
named_channel none = ""
named_channel (some (kind, ch)) = ch

-- The first pointer, in the order of the range, with a name.
abbrev pub pointer_named : Dict String String → String → List String → String
pointer_named names name [] = ""
pointer_named names name (ptr ∷ ptrs) =
    let rest = pointer_named names name ptrs in
    if or_zero "" (lookup ptr names) == name then ptr else rest

module _ (range : List String → List String) where
  unfoldable pub record_channel_activity : String → ℤ → String → Millis → ParseState → ParseState
  unfolding record_key
  record_channel_activity kind gid channel_id ts st =
      let info : LastOpInfo = record { g = gid; time_ms = ts } in
      let note = record_key kind info in
      let ch = named_channel (parse_region_op channel_id) in
      let alias = if not (ch == "") && not (ch == channel_id) then ch else "" in
      let a = note alias (note channel_id st.activity) in
      let name = or_zero "" (lookup channel_id st.channel_name_by_ptr) in
      let name_key = if not (alias == "") then alias else channel_id in
      if channel_id == ""
      then st
      else if starts_with channel_id "0x"
      then (if not (name == "")
          then record st { activity = note (named_channel (parse_region_op name)) (note name a) }
          else record st { activity = a })
      else record st {
        activity =
            note
              (pointer_named st.channel_name_by_ptr name_key (range (keys st.channel_name_by_ptr)))
              a;
      }
