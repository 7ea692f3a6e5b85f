-- ===== src/Parse/Pairing.antt =====
-- `handleRegionOp`: the end of a send or receive region is paired with its counterpart through a
-- message id, which the send draws.
use gtv_final_submission.Prelude.Dict.{lookup, insert, or_zero}
use gtv_final_submission.Prelude.Int.{ℤ}
use gtv_final_submission.Prelude.Text.{starts_with}
use gtv_final_submission.Prelude.{
  ℕ, suc, ◌-◌, String, Bool, ◌||◌, none, some, List, [], ◌∷◌, ◌++◌, ◌==◌, string_eq, if◌then◌else◌,
}
use gtv_final_submission.Timeline.{Millis, TimelineEvent, zero_event}
use gtv_final_submission.Timeline.Kinds.{one_of}
use gtv_final_submission.Parse.Activity.{record_channel_activity}
use gtv_final_submission.Parse.Keys.{parse_ch_key, channel_key, op_key}
use gtv_final_submission.Parse.Machine.{
  Callback, M, ◌>>=◌, ◌>>◌, skip, get_state, modify, emit, attempt, inc_audit,
}
use gtv_final_submission.Parse.Queues.{
  sends_at, select_recvs_at, find_send_queue_by_name, resolve_pending_select_recv, pop_pending_recv,
}
use gtv_final_submission.Parse.State.{ChKey, ParseState, Pairing, SendRecord, PendingRecvRecord}

-- A change of the fields that pair operations.
abbrev pub on_pairing : (Pairing → Pairing) → ParseState → ParseState
on_pairing f st = record st { pairing = f st.pairing }

unfoldable pub count_matched : String → ParseState → ParseState
count_matched channel_id = on_pairing λ p. record p {
  matched_pairs_by_channel =
      insert channel_id (suc (or_zero 0 (lookup channel_id p.matched_pairs_by_channel)))
        p.matched_pairs_by_channel;
}

unfoldable pub count_unknown : String → ParseState → ParseState
count_unknown channel_id = on_pairing λ p. record p {
  unknown_channel_id = if channel_id == "" then suc p.unknown_channel_id else p.unknown_channel_id;
}

-- A pair counts for its channel, or as one of an unknown channel.
unfoldable pub count_pair : String → ParseState → ParseState
unfolding count_matched count_unknown
count_pair channel_id st =
    if channel_id == "" then count_unknown channel_id st else count_matched channel_id st

unfoldable pub draw_msg_id : ParseState → ParseState
draw_msg_id = on_pairing λ p. record p { next_msg_id = suc p.next_msg_id }

unfoldable pub put_sends : String → List SendRecord → ParseState → ParseState
put_sends k q = on_pairing λ p. record p { sends_by_key = insert k q p.sends_by_key }

unfoldable pub release_select_recv : String → ParseState → ParseState
release_select_recv k st =
    on_pairing
      (λ p. record p {
        pending_select_recv = insert k (select_recvs_at st k - 1) p.pending_select_recv;
      })
      st

-- The receive that was seen before its send.
abbrev pub late_recv : ChKey → PendingRecvRecord → ℤ → ℕ → TimelineEvent
late_recv key r gid mid = record zero_event {
  time_ms = r.time_ms;
  event = "chan_recv";
  channel = r.ch;
  channel_key = channel_key key r.ptr;
  ch_ptr = r.ptr;
  g = r.g;
  role = r.role;
  source = "paired";
  peer_g = gid;
  msg_id = mid;
}

-- What a send does once it is emitted: it completes a receive that waits, or is taken by a select
-- that waits, or is queued. `count` counts the pair.
unfoldable pub settle_send :
    Callback → (ParseState → ParseState) → ChKey → String → String → SendRecord → M (Unit {0})
settle_send cb count key ch_ptr channel_id sr m = elim (pop_pending_recv cb.range m.st key ch_ptr) [
  | some (r, st) ↦
      (attempt (emit cb (late_recv key r sr.g sr.msg_id))
          >> modify (record_channel_activity cb.range "recv" r.g channel_id r.time_ms))
        (record m { st = count st })
  | none ↦ elim (resolve_pending_select_recv cb.range m.st key ch_ptr) [
    | some k ↦ modify (λ st. count (release_select_recv k st)) m
    | none ↦
        modify (λ st. put_sends (op_key key ch_ptr) (sends_at st (op_key key ch_ptr) ++ sr ∷ []) st)
          m
  ]
]

-- The fields of an event that are the same for all that one operation emits.
abbrev pub op_event : Millis → String → String → ChKey → String → ℤ → String → TimelineEvent
op_event t event ch key ch_ptr gid role = record zero_event {
  time_ms = t;
  event = event;
  channel = ch;
  channel_key = channel_key key ch_ptr;
  ch_ptr = ch_ptr;
  g = gid;
  role = role;
}

abbrev pub complete_event : String → String
complete_event kind = if kind == "recv" then "recv_complete" else "send_complete"

abbrev pub or_name : String → ChKey → String
or_name channel_id key = if channel_id == "" then key.name else channel_id

module _ (cb : Callback) (ch : String) (gid : ℤ) (role : String) (t : Millis) where
  unfoldable pub send_op : ChKey → String → String → M (Unit {0})
  send_op key ch_ptr channel_id = do
    modify (count_unknown channel_id)
    st ← get_state
    modify draw_msg_id
    emit cb (record (op_event t "chan_send" ch key ch_ptr gid role) {
      source = "paired";
      msg_id = st.next_msg_id;
    })
    settle_send cb (count_pair channel_id) key ch_ptr channel_id
        (record { time_ms = t; g = gid; role = role; ptr = ch_ptr; msg_id = st.next_msg_id })

  unfoldable pub wait_recv : String → String → ParseState → ParseState
  wait_recv k ch_ptr st =
      on_pairing
        (λ p. record p {
          pending_recv_by_key =
              insert k
                (or_zero [] (lookup k p.pending_recv_by_key)
                  ++ record { time_ms = t; g = gid; role = role; ch = ch; ptr = ch_ptr } ∷ [])
                p.pending_recv_by_key;
        })
        st

  abbrev pub is_hardcoded : String → Bool
  is_hardcoded lname =
      (lname == "clientin") || (starts_with lname "clientout" || starts_with lname "join")

  -- The receive meets the oldest send of the queue under `k`; `orig` is its own pointer.
  unfoldable pub take_send : ChKey → String → String → String → List SendRecord → M (Unit {0})
  take_send key k ch_ptr channel_id [] =
      modify (wait_recv k ch_ptr)
      >> (if is_hardcoded key.name then modify (inc_audit "skip_pairing_hardcoded") else skip)
  take_send key k ch_ptr channel_id (sr ∷ q) = do
    modify (put_sends k q)
    if one_of cb.skip_pairing_channels key.name then modify (inc_audit "skip_pairing_env") else do
      modify (count_pair channel_id)
      modify (inc_audit "retro_send_emit")
      attempt (
          emit cb (record (op_event sr.time_ms "send_complete" ch key sr.ptr sr.g sr.role) {
            source = "region";
          }))
      attempt (
          emit cb (record (op_event t "chan_recv" ch key ch_ptr gid role) {
            source = "paired";
            peer_g = sr.g;
            msg_id = sr.msg_id;
          }))

  -- The key of the queue and the pointer of its oldest send, where the receive has no pointer and
  -- no queue of its own.
  unfoldable pub recv_queue : ParseState → ChKey → String → String
  recv_queue st key ch_ptr = elim (sends_at st (op_key key ch_ptr)) [
    | sr ∷ q ↦ op_key key ch_ptr
    | [] ↦
        if ch_ptr == ""
        then or_zero (op_key key ch_ptr) (find_send_queue_by_name cb.range st key)
        else op_key key ch_ptr
  ]

  abbrev pub taken_ptr : String → String → List SendRecord → String
  taken_ptr own_key ch_ptr [] = ch_ptr
  taken_ptr own_key ch_ptr (sr ∷ q) = sr.ptr

  unfoldable pub recv_op : ChKey → String → String → M (Unit {0})
  unfolding take_send
  recv_op key ch_ptr channel_id m = elim (sends_at m.st (op_key key ch_ptr)) [
    | sr ∷ q ↦ take_send key (op_key key ch_ptr) ch_ptr channel_id (sr ∷ q) m
    | [] ↦
        let k = recv_queue m.st key ch_ptr in
        let ptr = if ch_ptr == "" then taken_ptr k ch_ptr (sends_at m.st k) else ch_ptr in
        let id = if ptr == ch_ptr then channel_id else or_name (channel_key key ptr) key in
        take_send key k ptr id (sends_at m.st k) m
  ]

  unfoldable pub handle_region_op : String → String → M (Unit {0})
  unfolding send_op recv_op
  handle_region_op kind ch_ptr = do
    emit cb (record (op_event t (complete_event kind) ch (parse_ch_key ch) ch_ptr gid role) {
      source = "region";
    })
    if kind == "send"
        then send_op (parse_ch_key ch) ch_ptr
            (or_name (channel_key (parse_ch_key ch) ch_ptr) (parse_ch_key ch))
        else if kind == "recv"
        then recv_op (parse_ch_key ch) ch_ptr
            (or_name (channel_key (parse_ch_key ch) ch_ptr) (parse_ch_key ch))
        else skip
