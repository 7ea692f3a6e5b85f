-- ===== src/Parse/Inference.antt =====
-- `inferBlockChannel`: the channel on which a goroutine blocks, from its regions and its logs. The
-- window comes from the environment; strconv.ParseFloat is a parameter.
use gtv_final_submission.Prelude.Dict.{lookup, or_zero}
use gtv_final_submission.Prelude.Int.{ℤ, pos, ltb_ℤ, ◌-ℤ◌, int_eq}
use gtv_final_submission.Prelude.Text.{trim_space}
use gtv_final_submission.Prelude.{
  String, not, ◌&&◌, Option, none, some, ◌==◌, string_eq, if◌then◌else◌,
}
use gtv_final_submission.Timeline.{Millis}
use gtv_final_submission.Deadlock.Search.{positive_or}
use gtv_final_submission.Parse.Fresh.{peek_fresh_ch_ptr, peek_fresh_ch_name}
use gtv_final_submission.Parse.Keys.{parse_ch_key, channel_key}
use gtv_final_submission.Parse.Region.{or_else}
use gtv_final_submission.Parse.State.{ParseState, ChKey, Op}

unfoldable pub block_inference_window_ms : (String → Option Millis) → String → Millis
block_inference_window_ms parse_float variable =
    let raw = trim_space variable in
    if raw == "" then pos 20000000 else positive_or (pos 20000000) (parse_float raw)

-- The channel, its pointer, its key, and the confidence.
abbrev pub Place : Type 0
Place = String × String × String × String

abbrev pub mapped_name : ParseState → String → String → String
mapped_name st ch ptr =
    if (ch == "") && not (ptr == "") then or_zero ch (lookup ptr st.channel_name_by_ptr) else ch

abbrev pub key_named : String → String → ChKey
key_named ch ptr =
    let ck = parse_ch_key ch in if (ck.name == "") && not (ptr == "") then parse_ch_key ptr else ck

-- The closure `tryOp`.
unfoldable pub try_op : ParseState → Millis → String → Millis → Option Op → Option Place
try_op st window kind ts none = none
try_op st window kind ts (some op) =
    let late = ltb_ℤ (pos 0) op.time && ltb_ℤ window (ts -ℤ op.time) in
    let ch = mapped_name st op.ch op.ptr in
    let conf = if late then "low" else if op.ptr == "" then "low" else "high" in
    if not (kind == "") && not (op.kind == kind)
    then none
    else if (ch == "") && (op.ptr == "")
    then none
    else some (ch, op.ptr, channel_key (key_named ch op.ptr) op.ptr, conf)

-- The fallback on the logs.
abbrev pub logged_place : ParseState → ℤ → Place
logged_place st gid =
    let ptr = peek_fresh_ch_ptr gid st in
    let ch = mapped_name st (peek_fresh_ch_name gid st) ptr in
    if (ch == "") && (ptr == "")
    then ("", "", "", "low")
    else (ch, ptr, channel_key (key_named ch ptr) ptr, "low")

unfoldable pub infer_block_channel : ParseState → Millis → ℤ → String → Millis → Place
infer_block_channel st window gid kind ts = or_zero (logged_place st gid) (
    or_else (try_op st window kind ts (lookup gid st.active))
      (try_op st window kind ts (lookup gid st.last)))
