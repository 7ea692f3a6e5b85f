-- ===== src/Parse/Messages/Regions.antt =====
-- The rule for message ids at the ends of send and receive regions.
use gtv_final_submission.Prelude.Int.{ℤ}
use gtv_final_submission.Prelude.{
  ℕ, ◌+◌, ◌≤◌, String, false, ◌&&◌, List, [], ◌∷◌, ◌≡◌, refl, ◌==◌, arith, nat_eq, string_eq,
  if◌then◌else◌, inl, inr, List-cases, Bool-cases,
}
use gtv_final_submission.Timeline.{TimelineEvent, Millis, zero_event}
use gtv_final_submission.Timeline.Kinds.{one_of}
use gtv_final_submission.Parse.Keys.{op_key, channel_key, parse_ch_key}
use gtv_final_submission.Parse.Machine.{Callback, Machine, M, emit, modify, inc_audit, skip}
use gtv_final_submission.Parse.Messages.{one_if, KeepsIds}
use gtv_final_submission.Parse.Messages.Moves.{count_pair-Spares, emit-Moves, settle_send-Moves}
use gtv_final_submission.Parse.Pairing.{
  put_sends, settle_send, count_pair, count_unknown, draw_msg_id, send_op, recv_op, take_send,
  handle_region_op, op_event, or_name, wait_recv, recv_queue, complete_event,
}
use gtv_final_submission.Parse.Queues.{sends_at}
use gtv_final_submission.Parse.State.{SendRecord, ChKey}
use gtv_final_submission.Parse.Messages.Rule.{
  IdOk, Moves-trans, Moves-le, draw-IdOk, IdOk-weaken, if-IdOk, then-IdOk, spare-IdOk, take-IdOk,
  emit-IdOk,
}

module _ (cb : Callback) (keeps : KeepsIds cb) (n : ℕ) where
  send_op-IdOk :
      (ch : String) (gid : ℤ) (role : String) (t : Millis) (key : ChKey)
      (ch_ptr channel_id : String) (m : Machine)
      → IdOk n 0 m
      → IdOk n 0 (send_op cb ch gid role t key ch_ptr channel_id m).0
  unfolding send_op count_unknown draw_msg_id emit
  send_op-IdOk ch gid role t key ch_ptr channel_id m ok =
      let s : ℕ = one_if (m.st.next_msg_id == n) in
      let ev : TimelineEvent = record (op_event t "chan_send" ch key ch_ptr gid role) {
        source = "paired";
        msg_id = m.st.next_msg_id;
      } in
      let sr : SendRecord = record {
        time_ms = t;
        g = gid;
        role = role;
        ptr = ch_ptr;
        msg_id = m.st.next_msg_id;
      } in
      let m1 : Machine = record m { st = draw_msg_id (count_unknown channel_id m.st) } in
      let m2 : Machine = (emit cb ev m1).0 in
      let m3 : Machine = (settle_send cb (count_pair channel_id) key ch_ptr channel_id sr m2).0 in
      let sends = emit-Moves cb keeps n ev m1 in
      let settles =
        settle_send-Moves cb keeps n (count_pair channel_id) key ch_ptr channel_id sr m2
          (count_pair-Spares channel_id) in
      then-IdOk n (settle_send cb (count_pair channel_id) key ch_ptr channel_id sr) m2
        (emit cb ev m1).1
        (draw-IdOk n m m1 m2 refl refl refl (Moves-le n s 0 s s m1 m2 refl (omega arith) sends) ok)
        (draw-IdOk n m m1 m3 refl refl refl
          (Moves-le n (s + 0) (0 + s) s s m1 m3 (omega arith) (omega arith)
            (Moves-trans n s 0 0 s m1 m2 m3 sends settles))
          ok)

  -- The name of the event that a region ends with.
  complete_event_lem :
      (kind : String)
      → ((complete_event kind == "chan_send") ≡ false)
        × (one_if ((complete_event kind == "chan_recv") && (zero_event.msg_id == n)) + 0 ≤ 0)
  complete_event_lem kind = elim (Bool-cases (kind == "recv")) [
    | inl e ↦ rw e (refl, omega arith)
    | inr e ↦ rw e (refl, omega arith)
  ]

  module _ (ch : String) (gid : ℤ) (role : String) (t : Millis) where
    take_send-IdOk :
        (key : ChKey) (k ch_ptr channel_id : String) (q : List SendRecord) (m : Machine)
        → sends_at m.st k ≡ q
        → IdOk n 0 m
        → IdOk n 0 (take_send cb ch gid role t key k ch_ptr channel_id q m).0
    unfolding take_send wait_recv inc_audit
    take_send-IdOk key k ch_ptr channel_id [] m head ok =
        if-IdOk n _ (modify (inc_audit "skip_pairing_hardcoded")) skip
          (record m { st = wait_recv cb ch gid role t k ch_ptr m.st }) ok ok
    take_send-IdOk key k ch_ptr channel_id (sr ∷ q) m head ok =
        let d : ℕ = one_if (sr.msg_id == n) in
        let m1 : Machine = record m { st = put_sends k q m.st } in
        let m2 : Machine = record m {
          st = inc_audit "retro_send_emit" (count_pair channel_id m1.st);
        } in
        let completed : TimelineEvent =
          record (op_event sr.time_ms "send_complete" ch key sr.ptr sr.g sr.role) {
            source = "region";
          } in
        let receipt : TimelineEvent = record (op_event t "chan_recv" ch key ch_ptr gid role) {
          source = "paired";
          peer_g = sr.g;
          msg_id = sr.msg_id;
        } in
        let taken = take-IdOk n k sr q m head ok in
        let counted = spare-IdOk n d m1 m2 refl (count_pair-Spares channel_id m1.st) taken in
        let m3 : Machine = (emit cb completed m2).0 in
        let after = emit-IdOk cb keeps n completed d d m2 refl (omega arith) counted in
        let received = emit-IdOk cb keeps n receipt d 0 m3 refl (omega arith) after in
        elim (Bool-cases (one_of cb.skip_pairing_channels key.name)) [
          | inl e ↦ rw (e, take_send) (IdOk-weaken n d m1 taken)
          | inr e ↦ rw (e, take_send) received
        ]

    recv_op-IdOk :
        (key : ChKey) (ch_ptr channel_id : String) (m : Machine)
        → IdOk n 0 m
        → IdOk n 0 (recv_op cb ch gid role t key ch_ptr channel_id m).0
    unfolding recv_op
    recv_op-IdOk key ch_ptr channel_id m ok =
        elim (List-cases (sends_at m.st (op_key key ch_ptr))) [
          | inl e ↦
              let k : String = recv_queue cb ch gid role t m.st key ch_ptr in
              rw (e, recv_op) (take_send-IdOk key k _ _ (sends_at m.st k) m refl ok)
          | inr (sr, q, e) ↦
              rw (e, recv_op)
                (take_send-IdOk key (op_key key ch_ptr) ch_ptr channel_id (sr ∷ q) m e ok)
        ]

    -- Where the wrappers around the callback keep the name and the id of an event, the end of a region
    -- keeps the rule for any id that had it before: the id is sent at most once, it is
    -- received and queued at most as often as it is sent, and it is not sent before it is drawn.
    pub handle_region_op_unique :
        (kind ch_ptr : String) (m : Machine)
        → IdOk n 0 m
        → IdOk n 0 (handle_region_op cb ch gid role t kind ch_ptr m).0
    unfolding handle_region_op
    handle_region_op_unique kind ch_ptr m ok =
        let key : ChKey = parse_ch_key ch in
        let id : String = or_name (channel_key key ch_ptr) key in
        let ev : TimelineEvent = record (op_event t (complete_event kind) ch key ch_ptr gid role) {
          source = "region";
        } in
        let m1 : Machine = (emit cb ev m).0 in
        let sending : M (Unit {0}) = send_op cb ch gid role t key ch_ptr id in
        let receiving : M (Unit {0}) = recv_op cb ch gid role t key ch_ptr id in
        let other : M (Unit {0}) = if kind == "recv" then receiving else skip in
        let rest : M (Unit {0}) = if kind == "send" then sending else other in
        let begun =
          emit-IdOk cb keeps n ev 0 0 m (complete_event_lem kind).0 (complete_event_lem kind).1
            ok in
        then-IdOk n rest m1 (emit cb ev m).1 begun (
          if-IdOk n (kind == "send") sending other m1
            (send_op-IdOk ch gid role t key ch_ptr id m1 begun)
            (if-IdOk n (kind == "recv") receiving skip m1 (recv_op-IdOk key ch_ptr id m1 begun)
              begun))
