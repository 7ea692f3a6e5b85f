-- ===== src/Parse/Commit/Frame.antt =====
-- `handleRegionOp` and the attempts and buffers of the atomic mode.
use gtv_final_submission.Prelude.Int.{ℤ}
use gtv_final_submission.Prelude.{
  String, Bool, true, false, List, [], ◌∷◌, Option, none, some, ◌==◌, string_eq, if◌then◌else◌, ◌≡◌,
  ◌∙◌, refl, arith, inl, inr, Bool-cases, Option-cases, List-cases,
}
use gtv_final_submission.Timeline.{Millis, TimelineEvent}
use gtv_final_submission.Timeline.Kinds.{one_of}
use gtv_final_submission.Parse.Commit.Depth.{record_channel_activity-attempts}
use gtv_final_submission.Parse.Keys.{op_key, parse_ch_key, channel_key}
use gtv_final_submission.Parse.Machine.{
  Callback, Machine, M, Outcome, done, failed, run_on, emit, skip, inc_audit,
}
use gtv_final_submission.Parse.Pairing.{
  handle_region_op, send_op, recv_op, take_send, settle_send, release_select_recv, put_sends,
  count_pair, count_unknown, draw_msg_id, wait_recv, recv_queue, or_name, op_event, complete_event,
  is_hardcoded,
}
use gtv_final_submission.Parse.Queues.{
  sends_at, recvs_at, pop_pending_recv, pending_recv_key, pop_at, pop_found,
  resolve_pending_select_recv,
}
use gtv_final_submission.Parse.State.{Attempts, ParseState, ChKey, SendRecord, PendingRecvRecord}

pop_at-attempts :
    (range : List String → List String) (st : ParseState) (k : String) (q : List PendingRecvRecord)
    {r : PendingRecvRecord} {st' : ParseState}
    → pop_at range st k q ≡ some (r, st')
    → st'.attempts ≡ st.attempts
pop_at-attempts range st k [] h = cc
pop_at-attempts range st k (p ∷ q) h = ground arith

pop_found-attempts :
    (range : List String → List String) (st : ParseState) (o : Option String)
    {r : PendingRecvRecord} {st' : ParseState}
    → pop_found range st o ≡ some (r, st')
    → st'.attempts ≡ st.attempts
pop_found-attempts range st none h = cc
pop_found-attempts range st (some k) h = pop_at-attempts range st k (recvs_at st k) h

pop_pending_recv-attempts :
    (range : List String → List String) (st : ParseState) (key : ChKey) (ch_ptr : String)
    {r : PendingRecvRecord} {st' : ParseState}
    → pop_pending_recv range st key ch_ptr ≡ some (r, st')
    → st'.attempts ≡ st.attempts
unfolding pop_pending_recv
pop_pending_recv-attempts range st key ch_ptr h =
    pop_found-attempts range st (pending_recv_key range st key ch_ptr) h

count_pair-attempts :
    (channel_id : String) (st : ParseState) → (count_pair channel_id st).attempts ≡ st.attempts
unfolding count_pair
count_pair-attempts channel_id st = ground arith

-- A step, whatever its outcome, and what follows it.
run_on-attempts :
    (a : Attempts) (f : M (Unit {0})) (m : Machine) (o : Outcome (Unit {0}))
    → m.st.attempts ≡ a
    → (f m).0.st.attempts ≡ a
    → (run_on {A = Unit {0}} (λ _. f) m o).0.st.attempts ≡ a
run_on-attempts a f m failed h hf = h
run_on-attempts a f m (done tt) h hf = hf

if-attempts :
    (a : Attempts) (b : Bool) (p q : M (Unit {0})) (m : Machine)
    → (p m).0.st.attempts ≡ a
    → (q m).0.st.attempts ≡ a
    → ((if b then p else q) m).0.st.attempts ≡ a
if-attempts a true p q m hp hq = hp
if-attempts a false p q m hp hq = hq

module _ (cb : Callback) where
  settle_send-attempts :
      (key : ChKey) (ch_ptr channel_id : String) (sr : SendRecord) (m : Machine)
      → (settle_send cb (count_pair channel_id) key ch_ptr channel_id sr m).0.st.attempts
        ≡ m.st.attempts
  unfolding settle_send emit release_select_recv put_sends
  settle_send-attempts key ch_ptr channel_id sr m =
      elim (Option-cases (pop_pending_recv cb.range m.st key ch_ptr)) [
        | inr ((r, st), e) ↦
            rw (e, settle_send)
              (record_channel_activity-attempts cb.range "recv" r.g channel_id r.time_ms
                  (count_pair channel_id st)
                ∙ count_pair-attempts channel_id st
                ∙ pop_pending_recv-attempts cb.range m.st key ch_ptr e)
        | inl e ↦ elim (Option-cases (resolve_pending_select_recv cb.range m.st key ch_ptr)) [
          | inr (k, f) ↦
              rw (e, f, settle_send) (count_pair-attempts channel_id (release_select_recv k m.st))
          | inl f ↦ rw (e, f, settle_send) refl
        ]
      ]

  module _ (ch : String) (gid : ℤ) (role : String) (t : Millis) where
    send_op-attempts :
        (key : ChKey) (ch_ptr channel_id : String) (m : Machine)
        → (send_op cb ch gid role t key ch_ptr channel_id m).0.st.attempts ≡ m.st.attempts
    unfolding send_op count_unknown draw_msg_id emit
    send_op-attempts key ch_ptr channel_id m =
        let sr : SendRecord = record {
          time_ms = t;
          g = gid;
          role = role;
          ptr = ch_ptr;
          msg_id = m.st.next_msg_id;
        } in
        let ev : TimelineEvent = record (op_event t "chan_send" ch key ch_ptr gid role) {
          source = "paired";
          msg_id = m.st.next_msg_id;
        } in
        let m1 : Machine = record m { st = draw_msg_id (count_unknown channel_id m.st) } in
        let m2 : Machine = (emit cb ev m1).0 in
        let rest : M (Unit {0}) = settle_send cb (count_pair channel_id) key ch_ptr channel_id sr in
        run_on-attempts m.st.attempts rest m2 (emit cb ev m1).1 refl
          (settle_send-attempts key ch_ptr channel_id sr m2)

    take_send-attempts :
        (key : ChKey) (k ch_ptr channel_id : String) (q : List SendRecord) (m : Machine)
        → (take_send cb ch gid role t key k ch_ptr channel_id q m).0.st.attempts ≡ m.st.attempts
    unfolding take_send emit put_sends wait_recv inc_audit
    take_send-attempts key k ch_ptr channel_id [] m =
        elim (Bool-cases (is_hardcoded cb ch gid role t key.name)) [
          | inl e ↦ rw (e, take_send) refl
          | inr e ↦ rw (e, take_send) refl
        ]
    take_send-attempts key k ch_ptr channel_id (sr ∷ q) m =
        elim (Bool-cases (one_of cb.skip_pairing_channels key.name)) [
          | inl e ↦ rw (e, take_send) refl
          | inr e ↦ rw (e, take_send) (count_pair-attempts channel_id (put_sends k q m.st))
        ]

    recv_op-attempts :
        (key : ChKey) (ch_ptr channel_id : String) (m : Machine)
        → (recv_op cb ch gid role t key ch_ptr channel_id m).0.st.attempts ≡ m.st.attempts
    unfolding recv_op
    recv_op-attempts key ch_ptr channel_id m =
        elim (List-cases (sends_at m.st (op_key key ch_ptr))) [
          | inl e ↦
              let k : String = recv_queue cb ch gid role t m.st key ch_ptr in
              rw (e, recv_op) (take_send-attempts key k _ _ (sends_at m.st k) m)
          | inr (sr, q, e) ↦
              rw (e, recv_op)
                (take_send-attempts key (op_key key ch_ptr) ch_ptr channel_id (sr ∷ q) m)
        ]

    pub handle_region_op-attempts :
        (kind ch_ptr : String) (m : Machine)
        → (handle_region_op cb ch gid role t kind ch_ptr m).0.st.attempts ≡ m.st.attempts
    unfolding handle_region_op emit
    handle_region_op-attempts kind ch_ptr m =
        let key : ChKey = parse_ch_key ch in
        let id : String = or_name (channel_key key ch_ptr) key in
        let ev : TimelineEvent = record (op_event t (complete_event kind) ch key ch_ptr gid role) {
          source = "region";
        } in
        let m1 : Machine = (emit cb ev m).0 in
        let sending : M (Unit {0}) = send_op cb ch gid role t key ch_ptr id in
        let receiving : M (Unit {0}) = recv_op cb ch gid role t key ch_ptr id in
        let other : M (Unit {0}) = if kind == "recv" then receiving else skip in
        let rest : M (Unit {0}) = if kind == "send" then sending else other in
        run_on-attempts m.st.attempts rest m1 (emit cb ev m).1 refl (
          if-attempts m.st.attempts (kind == "send") sending other m1
            (send_op-attempts key ch_ptr id m1)
            (if-attempts m.st.attempts (kind == "recv") receiving skip m1
              (recv_op-attempts key ch_ptr id m1) refl))
