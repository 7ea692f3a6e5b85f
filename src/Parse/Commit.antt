-- ===== src/Parse/Commit.antt =====
-- `handleRegionEnd`: the end of a region emits its operation and, in the atomic mode, the commit of
-- the attempt that the region began with; a commit on a buffered channel counts its messages.
pub mod Depth
pub mod Frame
pub mod Bounds
use gtv_final_submission.Prelude.Dict.{Dict, lookup, insert, erase, or_zero}
use gtv_final_submission.Prelude.Int.{ℤ, pos, int_eq, ◌+ℤ◌, ◌-ℤ◌, ltb_ℤ}
use gtv_final_submission.Prelude.Text.{starts_with}
use gtv_final_submission.Prelude.{
  ℕ, suc, String, Bool, true, false, not, ◌&&◌, ◌||◌, Option, none, some, List, [], ◌∷◌, ◌==◌,
  string_eq, if◌then◌else◌,
}
use gtv_final_submission.Timeline.{Millis, TimelineEvent, Value, zero_event, text, number}
use gtv_final_submission.Parse.Activity.{record_channel_activity}
use gtv_final_submission.Parse.Keys.{parse_ch_key, channel_key, op_key}
use gtv_final_submission.Parse.Machine.{
  Callback, M, Outcome, done, ◌>>=◌, ◌>>◌, skip, get_state, modify, emit, attempt, run_on,
}
use gtv_final_submission.Parse.Pairing.{handle_region_op}
use gtv_final_submission.Parse.Select.{new_id, draw_id}
use gtv_final_submission.Parse.State.{ParseState, Op, Attempt, Attempts, AttemptInfo}
use gtv_final_submission.Parse.SyncWait.{clear_sync_wait_candidate, is_sync_region_kind}

abbrev pub on_attempts : (Attempts → Attempts) → ParseState → ParseState
on_attempts f st = record st { attempts = f st.attempts }

abbrev pub cap_at : String → ParseState → ℤ
cap_at p st = or_zero (pos 0) (lookup p st.cap_by_ptr)

abbrev pub depth_at : String → ParseState → ℤ
depth_at p st = or_zero (pos 0) (lookup p st.depth_by_ptr)

abbrev pub buffered_at : String → ParseState → Dict String Bool
buffered_at p st = or_zero [] (lookup p st.buf_sends)

abbrev pub is_buffered : String → ParseState → Bool
is_buffered p st = not (p == "") && ltb_ℤ (pos 0) (cap_at p st)

abbrev pub holds_send : String → String → ParseState → Bool
holds_send p id st = is_buffered p st && or_zero false (lookup id (buffered_at p st))

-- The attempt of a goroutine that has none is the zero value.
abbrev pub attempt_at : ℤ → ParseState → Attempt
attempt_at gid st =
    or_zero (record { id = ""; ch = ""; kind = ""; ptr = ""; time = pos 0 })
      (lookup gid st.attempts_by_g)

abbrev pub queue_at : String → Dict String (List String) → List String
queue_at k m = or_zero [] (lookup k m)

-- The first entry of the queue with the id is removed.
unfoldable pub remove_id : String → List String → List String
remove_id id [] = []
remove_id id (x ∷ q) = let rest = remove_id id q in if x == id then q else x ∷ rest

abbrev pub behind_head : List String → List String
behind_head [] = []
behind_head (x ∷ q) = q

-- A send was committed to a buffer: the depth grows up to the capacity.
unfoldable pub count_buffered : String → String → ParseState → ParseState
unfolding ◌+ℤ◌
count_buffered p id st =
    let grown = depth_at p st +ℤ pos 1 in
    on_attempts
      (λ at. record at {
        buf_sends = insert p (insert id true (buffered_at p st)) at.buf_sends;
        depth_by_ptr =
            insert p (if ltb_ℤ (cap_at p st) grown then cap_at p st else grown) at.depth_by_ptr;
      })
      st

-- A send was taken from a buffer: the depth shrinks down to 0.
unfoldable pub count_taken : String → String → ParseState → ParseState
unfolding ◌-ℤ◌
count_taken p id st =
    on_attempts
      (λ at. record at {
        depth_by_ptr =
            if ltb_ℤ (pos 0) (depth_at p st)
            then insert p (depth_at p st -ℤ pos 1) at.depth_by_ptr
            else at.depth_by_ptr;
        buf_sends = insert p (erase id (buffered_at p st)) at.buf_sends;
      })
      st

-- The recv attempt leaves its queue, and the oldest send attempt on the channel leaves its own. A
-- queue that is missing is an empty one.
unfoldable pub leave_queues : String → String → ParseState → ParseState
unfolding remove_id
leave_queues k id = on_attempts λ at. record at {
  rcv_att_q = insert k (remove_id id (queue_at k at.rcv_att_q)) at.rcv_att_q;
  snd_att_q = insert k (behind_head (queue_at k at.snd_att_q)) at.snd_att_q;
}

-- The id that pairs the receive, and the sender, by the queue of send attempts.
abbrev pub paired_id : String → List String → String
paired_id own [] = own
paired_id own (sid ∷ q) = if sid == "" then own else sid

abbrev pub sender : Dict String AttemptInfo → List String → ℤ
sender infos [] = pos 0
sender infos (sid ∷ q) = elim (lookup sid infos) [ none ↦ pos 0 | some info ↦ info.g ]

unfoldable pub end_attempt : ℤ → ParseState → ParseState
end_attempt gid = on_attempts λ at. record at {
  active_attempt = erase gid at.active_attempt;
  attempts_by_g = erase gid at.attempts_by_g;
}

module _ (cb : Callback) (gid : ℤ) (role : String) (t : Millis) where
  abbrev pub depth_event : Attempt → ParseState → TimelineEvent
  depth_event att st = record zero_event {
    time_ms = t;
    event = "chan_depth";
    g = gid;
    channel = att.ch;
    channel_key = att.ptr;
    ch_ptr = att.ptr;
    capacity = cap_at att.ptr st;
    value = number (depth_at att.ptr st);
    source = "region";
  }

  abbrev pub commit_event : String → String → Attempt → TimelineEvent
  unfolding ◌-ℤ◌
  commit_event event id att = record zero_event {
    time_ms = t;
    event = event;
    id = id;
    attempt_id = att.id;
    g = gid;
    channel = att.ch;
    channel_key = channel_key (parse_ch_key att.ch) att.ptr;
    ch_ptr = att.ptr;
    missing_ptr = att.ptr == "";
    delta_ms = t -ℤ att.time;
    role = role;
    source = "region";
  }

  abbrev pub emit_depth : Attempt → M (Unit {0})
  emit_depth att = do st ← get_state; attempt (emit cb (depth_event att st))

  abbrev pub take_buffered : Attempt → String → M (Unit {0})
  take_buffered att pair = modify (count_taken att.ptr pair) >> emit_depth att

  abbrev pub put_buffered : Attempt → M (Unit {0})
  put_buffered att = modify (count_buffered att.ptr att.id) >> emit_depth att

  unfoldable pub commit_recv : String → Attempt → M (Unit {0})
  unfolding leave_queues count_taken
  commit_recv id att = do
    before ← get_state
    let k = op_key (parse_ch_key att.ch) att.ptr
    let q = queue_at k before.snd_att_q
    modify (leave_queues k att.id)
    attempt (
        emit cb (record (commit_event "chan_recv_commit" id att) {
          peer_g = sender before.att_by_id q;
          pair_id = paired_id att.id q;
        }))
    modify (record_channel_activity cb.range "recv" gid k t)
    st ← get_state
    if holds_send att.ptr (paired_id att.id q) st
        then take_buffered att (paired_id att.id q)
        else skip

  unfoldable pub commit_send : String → Attempt → M (Unit {0})
  unfolding count_buffered
  commit_send id att = do
    attempt (emit cb (record (commit_event "chan_send_commit" id att) { pair_id = att.id }))
    modify (record_channel_activity cb.range "send" gid (op_key (parse_ch_key att.ch) att.ptr) t)
    st ← get_state
    if is_buffered att.ptr st then put_buffered att else skip

  abbrev pub commit : String → M (Unit {0})
  commit kind = do
    st ← get_state
    modify draw_id
    if kind == "recv"
        then commit_recv (new_id "c" st) (attempt_at gid st)
        else commit_send (new_id "c" st) (attempt_at gid st)
    modify (end_attempt gid)

  -- The callback that adds the value the goroutine has logged.
  abbrev pub with_value : Option String → Callback
  with_value none = cb
  with_value (some val) = record cb { wrap = λ ev. cb.wrap (record ev { value = text val }) }

  abbrev pub forget_value : ParseState → ParseState
  forget_value st = record st { last_value = erase gid st.last_value }

  abbrev pub end_active : ParseState → ParseState
  end_active st = record st { active = erase gid st.active }

  -- The end of a region that is a channel operation.
  unfoldable pub end_operation : String → Op → M (Unit {0})
  unfolding commit_recv commit_send end_attempt
  end_operation kind op = do
    st ← get_state
    modify forget_value
    attempt (handle_region_op (with_value (lookup gid st.last_value)) op.ch gid role t kind op.ptr)
    if st.opt.emit_atomic then commit kind else skip
    modify end_active

  unfoldable pub handle_region_end : String → Op → M (Unit {0})
  unfolding clear_sync_wait_candidate end_operation
  handle_region_end kind op =
      if starts_with kind "cond_" || is_sync_region_kind kind
      then modify (clear_sync_wait_candidate gid kind)
      else end_operation kind op
