-- ===== src/Parse/Begin.antt =====
-- `handleRegionBegin`: the begin of a region that waits, or that is a channel operation, which in the
-- atomic mode begins an attempt.
use Prim.Native.Char.{code}
use Prim.Native.String.{◌++◌}
use mathlib.Core.List.{◌++◌ as append}
use gtv_final_submission.Prelude.Dict.{lookup, insert, erase, or_zero}
use gtv_final_submission.Prelude.Int.{ℤ, pos, int_eq, leb_ℤ, ◌-ℤ◌}
use gtv_final_submission.Prelude.Text.{starts_with, to_lower, trim_space}
use gtv_final_submission.Prelude.{
  String, Bool, true, false, not, ◌&&◌, ◌||◌, nat_beq, Option, none, some, [], ◌∷◌, ◌==◌, string_eq,
  if◌then◌else◌,
}
use gtv_final_submission.Timeline.{Millis, TimelineEvent, Value, zero_event, nil, text}
use gtv_final_submission.Unmatched.{equal_fold}
use gtv_final_submission.Parse.Fresh.{consume_fresh_ch_ptr, consume_fresh_ch_name}
use gtv_final_submission.Parse.Goroutines.{activate_goroutine_from_op}
use gtv_final_submission.Parse.Keys.{parse_ch_key, channel_key, op_key}
use gtv_final_submission.Parse.Machine.{
  Callback, M, ◌>>=◌, ◌>>◌, skip, get_state, modify, emit, inc_audit,
}
use gtv_final_submission.Parse.Select.{new_id, draw_id}
use gtv_final_submission.Parse.State.{ParseState, Op, Attempts, AttemptInfo, SelectCaseInfo}
use gtv_final_submission.Parse.SyncWait.{set_sync_wait_candidate, is_sync_region_kind}

-- strings.ReplaceAll(kind, "-", "_")
dashes_replaced : String → String
dashes_replaced String.[] = ""
dashes_replaced (String.◌∷◌ c s) =
    let rest = dashes_replaced s in if nat_beq (code c) b'-' then "_" ++ rest else String.◌∷◌ c rest

unfoldable pub parsed_region_audit_key : String → String
unfolding dashes_replaced
parsed_region_audit_key kind =
    let k = trim_space (to_lower kind) in
    if k == "" then "" else "parsed_region_" ++ dashes_replaced k

abbrev pub count_region : String → ParseState → ParseState
count_region kind st =
    let key = parsed_region_audit_key kind in if key == "" then st else inc_audit key st

-- The channel of the region: the logs name it, or the pointer does.
unfoldable pub begin_channel : ℤ → String → ParseState → String × String × ParseState
begin_channel gid label st =
    let p = consume_fresh_ch_ptr gid st in
    let n = consume_fresh_ch_name gid p.1 in
    let logged =
      if (n.0 == "") && not (p.0 == "")
      then or_zero n.0 (lookup p.0 n.1.channel_name_by_ptr)
      else n.0 in
    let ch = if logged == "" then label else logged in
    (
      ch,
      p.0,
      if not (p.0 == "") && not (ch == "")
          then record n.1 {
            channel_names = record n.1.channel_names {
              channel_name_by_ptr = insert p.0 ch n.1.channel_name_by_ptr;
            };
          }
          else n.1,
    )

abbrev is_chosen : String → String → String → SelectCaseInfo → Bool
is_chosen kind ch ptr last =
    ((not (ptr == "") && (not (last.ch_ptr == "") && (ptr == last.ch_ptr)))
      || (not (ch == "") && (not (last.ch_name == "") && equal_fold ch last.ch_name)))
    && (last.kind == kind)

-- The region is the body of the case that a select has just chosen, within three events.
unfoldable pub is_select_body : ParseState → ℤ → String → String → String → Bool
is_select_body st gid kind ch ptr = elim (lookup gid st.last_select_chosen_by_g) [
  | none ↦ false
  | some last ↦
      let seq = or_zero (pos 0) (lookup gid st.last_select_chosen_seq_by_g) in
      let now = or_zero (pos 0) (lookup gid st.event_index_by_g) in
      ((kind == "send") || (kind == "recv"))
      && (not (seq == pos 0) && (leb_ℤ (now -ℤ seq) (pos 3) && is_chosen kind ch ptr last))
]

abbrev value_of : Option String → Value
value_of none = nil
value_of (some v) = if v == "" then nil else text v

abbrev logged_value : Option String → Value
logged_value none = nil
logged_value (some v) = text v

abbrev sent_value : String → ℤ → ParseState → Option String
sent_value kind gid st = if kind == "send" then lookup gid st.last_value else none

abbrev queue_attempt : String → String → String → Attempts → Attempts
queue_attempt kind k id at =
    if kind == "send"
    then record at {
      snd_att_q = insert k (append (or_zero [] (lookup k at.snd_att_q)) (id ∷ [])) at.snd_att_q;
    }
    else record at {
      rcv_att_q = insert k (append (or_zero [] (lookup k at.rcv_att_q)) (id ∷ [])) at.rcv_att_q;
    }

module _ (cb : Callback) (gid : ℤ) (role : String) (ts : Millis) where
  abbrev begin_event : String → String → TimelineEvent
  begin_event event ch = record zero_event {
    time_ms = ts;
    event = event;
    channel = ch;
    g = gid;
    role = role;
  }

  abbrev cond_event : String → String → TimelineEvent
  cond_event kind ch =
      let ev = record (begin_event kind ch) { channel_key = ch; source = "cond" } in
      if kind == "cond_wait"
      then record ev { unknown_sender = true }
      else record ev { unknown_receiver = true }

  abbrev sync_event : String → String → TimelineEvent
  sync_event kind ch = record (begin_event kind ch) {
    channel_key = if ch == "" then "" else channel_key (parse_ch_key ch) "";
    source = "sync";
  }

  -- A region that waits for a lock, a group or a condition.
  unfoldable pub begin_wait : String → String → TimelineEvent → M (Unit {0})
  begin_wait kind ch ev = do
    modify (count_region kind)
    modify (set_sync_wait_candidate gid kind ch ts)
    activate_goroutine_from_op cb gid
    emit cb ev

  abbrev note_attempt : String → String → String → String → ParseState → ParseState
  note_attempt id kind ch ptr st = record st {
    attempts = record st.attempts {
      active_attempt = insert gid id st.active_attempt;
      attempts_by_g =
          insert gid (record { id = id; ch = ch; kind = kind; ptr = ptr; time = ts })
            st.attempts_by_g;
    };
  }

  abbrev keep_attempt : String → String → String → String → ParseState → ParseState
  keep_attempt id kind ch ptr st =
      let ck = parse_ch_key ch in
      let info : AttemptInfo = record { g = gid; ch = ck; kind = kind; time = ts; ptr = ptr } in
      record st {
        attempts =
            queue_attempt kind (op_key ck ptr) id
              (record st.attempts { att_by_id = insert id info st.att_by_id });
      }

  -- The attempt of the atomic mode.
  unfoldable pub begin_attempt : String → String → String → M (Unit {0})
  begin_attempt kind ch ptr = do
    st ← get_state
    let id = new_id "a" st
    modify draw_id
    modify (note_attempt id kind ch ptr)
    now ← get_state
    emit cb
        (record (begin_event (if kind == "recv" then "chan_recv_attempt" else "chan_send_attempt")
          ch) {
            id = id;
            channel_key = channel_key (parse_ch_key ch) ptr;
            ch_ptr = ptr;
            missing_ptr = ptr == "";
            value = logged_value (sent_value kind gid now);
            source = "region";
          })
    modify (keep_attempt id kind ch ptr)

  abbrev count_operation : String → ParseState → ParseState
  count_operation kind st =
      if kind == "send"
      then inc_audit "parsed_region_send" st
      else if kind == "recv"
      then inc_audit "parsed_region_recv" st
      else st

  abbrev set_active : Op → ParseState → ParseState
  set_active op st = record st { active = insert gid op st.active; last = insert gid op st.last }

  -- The value that the goroutine has logged goes with its send.
  abbrev take_value : String → ParseState → ParseState
  take_value kind st =
      if kind == "send" then record st { last_value = erase gid st.last_value } else st

  unfoldable pub begin_operation : String → String → String → M (Unit {0})
  begin_operation kind ch ptr = do
    modify (count_operation kind)
    modify (set_active (record { kind = kind; ch = ch; ptr = ptr; time = ts }))
    activate_goroutine_from_op cb gid
    st ← get_state
    modify (take_value kind)
    emit cb (record (begin_event (if kind == "recv" then "recv_attempt" else "send_attempt") ch) {
      source = "region";
      ch_ptr = ptr;
      missing_ptr = ptr == "";
      channel_key = channel_key (parse_ch_key ch) ptr;
      value = value_of (sent_value kind gid st);
    })
    if st.opt.emit_atomic then begin_attempt kind ch ptr else skip

  -- Up to the decision whether the region is the body of a select's case.
  unfoldable pub begin_channel_region : String → String → M (Unit {0})
  begin_channel_region kind label = do
    st ← get_state
    let r = begin_channel gid label st
    modify (λ s. (begin_channel gid label s).2)
    if is_select_body r.2 gid kind r.0 r.1 then skip else begin_operation kind r.0 r.1

  unfoldable pub handle_region_begin : String → String → M (Unit {0})
  handle_region_begin kind ch =
      if starts_with kind "cond_"
      then begin_wait kind ch (cond_event kind ch)
      else if is_sync_region_kind kind
      then begin_wait kind ch (sync_event kind ch)
      else if kind == "chan_close"
      then skip
      else begin_channel_region kind ch
