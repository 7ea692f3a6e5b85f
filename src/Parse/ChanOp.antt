-- ===== src/Parse/ChanOp.antt =====
-- `handleChanOp`: an operation on a channel that a message of the log tells, with the send that the
-- options make up for a receive. A nil `*int` and a nil value are one in the model.

use Prim.Native.String.{◌++◌}
use gtv_final_submission.Prelude.Dict.{lookup, insert, or_zero}
use gtv_final_submission.Prelude.Int.{ℤ, pos, int_eq, ◌-ℤ◌}
use gtv_final_submission.Prelude.Text.{starts_with, to_lower, has_suffix}
use gtv_final_submission.Prelude.{
  String, Bool, true, false, not, ◌&&◌, ◌||◌, Option, none, some, ◌==◌, string_eq, if◌then◌else◌,
  Eq, ◌≡◌, ◌↔◌, ap, ap₂, arith, text_eq,
}
use gtv_final_submission.Timeline.{Millis, Value, zero_event, nil, number}
use gtv_final_submission.Parse.Activity.{record_channel_activity}
use gtv_final_submission.Parse.Goroutines.{activate_goroutine_from_op}
use gtv_final_submission.Parse.Helpers.{mark_progress}
use gtv_final_submission.Parse.Keys.{parse_ch_key, channel_key}
use gtv_final_submission.Parse.Machine.{
  Callback, M, ◌>>=◌, ◌>>◌, skip, get_state, modify, emit, inc_audit,
}
use gtv_final_submission.Parse.State.{ParseState}

-- strings.TrimSuffix
trim_suffix : String → String → String
trim_suffix String.[] t = ""
trim_suffix (String.◌∷◌ c s) t =
    let rest = trim_suffix s t in if String.◌∷◌ c s == t then "" else String.◌∷◌ c rest

-- The key `skey`: the event and the channel in lower case.
abbrev pub SentKey : Type 0
SentKey = String × String

both_true : (a b : Bool) → (a && b) ≡ true → (a ≡ true) × (b ≡ true)
both_true a b h = ground arith

pub same_key_iff : (j k : SentKey) → (((j.0 == k.0) && (j.1 == k.1)) ≡ true) ↔ (j ≡ k)
same_key_iff j k = (
  λ h.
      let t = both_true (j.0 == k.0) (j.1 == k.1) h in
      let p = (text_eq j.0 k.0).0 t.0 in let q = (text_eq j.1 k.1).0 t.1 in λ i. (p i, q i),
  λ e.
      let p = (text_eq j.0 k.0).1 (ap (λ x. x.0) e) in
      let q = (text_eq j.1 k.1).1 (ap (λ x. x.1) e) in ap₂ ◌&&◌ p q,
)

instance abbrev pub sent_key_eq : Eq SentKey
sent_key_eq = record { is_same = λ j k. (j.0 == k.0) && (j.1 == k.1); is_same_iff = same_key_iff }

abbrev pub keep_sent : SentKey → ParseState → ParseState
keep_sent k st = record st { has_send = insert k true st.has_send }

-- The goroutine of the send that is made up.
unfoldable pub synth_sender : String → ℤ → ParseState → ℤ
synth_sender send_ev gid st =
    if starts_with send_ev "ping_"
    then (if st.last_main_g == pos 0 then pos 1 else st.last_main_g)
    else if starts_with send_ev "pong_"
    then (if st.last_worker_g == pos 0 then gid else st.last_worker_g)
    else gid

abbrev value_told : Option ℤ → Value
value_told none = nil
value_told (some v) = number v

-- The kind of the operation that an event completes; "" if none.
abbrev kind_told : String → String
kind_told ev =
    let e = to_lower ev in
    if (e == "chan_send") || (e == "send_complete")
    then "send"
    else if (e == "chan_recv") || (e == "recv_complete")
    then "recv"
    else ""

module _ (cb : Callback) (ch : String) (gid : ℤ) (t : Millis) where
  -- A send a microsecond before the receive, unless one has been told.
  unfoldable pub synth_send : String → M (Unit {0})
  unfolding trim_suffix
  synth_send ev = do
    st ← get_state
    let send_ev = trim_suffix ev "_recv" ++ "_send"
    let k : SentKey = (send_ev, to_lower ch)
    if has_suffix ev "_recv"
          && (st.opt.synth_on_recv
              && (not (ch == "") && not (or_zero false (lookup k st.has_send))))
        then emit cb (record zero_event {
          time_ms = t -ℤ pos 1000;
          event = send_ev;
          channel = ch;
          channel_key = channel_key (parse_ch_key ch) "";
          g = synth_sender send_ev gid st;
          role = "worker";
          source = "synth";
        })
          >> (modify (inc_audit "synth_send")
              >> (modify (inc_audit "retro_send_emit") >> modify (keep_sent k)))
        else skip

  abbrev note_activity : String → ParseState → ParseState
  note_activity ev st =
      let id = channel_key (parse_ch_key ch) "" in
      if kind_told ev == "" then st else record_channel_activity cb.range (kind_told ev) gid id t st

  abbrev note_sent : String → ParseState → ParseState
  note_sent ev st =
      if has_suffix ev "_send" && not (ch == "") then keep_sent (ev, to_lower ch) st else st

  unfoldable pub handle_chan_op : String → String → Option ℤ → String → M (Unit {0})
  handle_chan_op ev role val source = do
    activate_goroutine_from_op cb gid
    modify (mark_progress t)
    synth_send ev
    emit cb (record zero_event {
      time_ms = t;
      event = ev;
      channel = ch;
      channel_key = channel_key (parse_ch_key ch) "";
      g = gid;
      role = role;
      value = value_told val;
      source = source;
    })
    modify (note_activity ev)
    modify (note_sent ev)
