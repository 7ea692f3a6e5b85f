-- ===== src/Parse/Messages/Moves.antt =====
-- What the steps of the pairing do to the counts of one message id.
use gtv_final_submission.Prelude.Dict.{total}
use gtv_final_submission.Prelude.Int.{ℤ}
use gtv_final_submission.Prelude.{
  ℕ, ◌+◌, ◌≤◌, String, ◌&&◌, Option, none, some, List, [], ◌∷◌, ◌++◌, ◌≡◌, ap, ◌∙◌, refl, ◌==◌,
  arith, nat_eq, string_eq, inl, inr, Option-cases,
}
use gtv_final_submission.Timeline.{TimelineEvent, Millis}
use gtv_final_submission.Parse.Activity.{record_channel_activity}
use gtv_final_submission.Parse.Keys.{op_key}
use gtv_final_submission.Parse.Machine.{Callback, Machine, emit, attempt, modify, ◌>>◌}
use gtv_final_submission.Parse.Messages.{
  one_if, count_events, count_queued, sent, received, queued, KeepsIds, emit-count, emit-st,
  count_queued-snoc, queued-put_sends,
}
use gtv_final_submission.Parse.Pairing.{
  put_sends, settle_send, late_recv, release_select_recv, count_pair,
}
use gtv_final_submission.Parse.Queues.{
  sends_at, recvs_at, pending_recv_key, pop_pending_recv, resolve_pending_select_recv, pop_at,
  pop_found,
}
use gtv_final_submission.Parse.State.{ParseState, PendingRecvRecord, SendRecord, ChKey}

-- A step that draws no id: `s` more sends of the id, and at most `d` more receives and queue entries.
abbrev pub Moves : ℕ → ℕ → ℕ → Machine → Machine → Type 0
Moves n s d m m' =
    (m'.st.next_msg_id ≡ m.st.next_msg_id)
    × (sent n m' ≡ sent n m + s)
    × (received n m' + queued n m'.st ≤ received n m + queued n m.st + d)

-- A change of the state that the ids have no part in.
abbrev pub Spares : (ParseState → ParseState) → Type 0
Spares f =
    (st : ParseState)
    → ((f st).sends_by_key ≡ st.sends_by_key) × ((f st).next_msg_id ≡ st.next_msg_id)

pub count_pair-Spares : (channel_id : String) → Spares (count_pair channel_id)
unfolding count_pair
count_pair-Spares channel_id st = ground arith

pub record_channel_activity-Spares :
    (range : List String → List String) (kind : String) (g : ℤ) (id : String) (ts : Millis)
    → Spares (record_channel_activity range kind g id ts)
unfolding record_channel_activity
record_channel_activity-Spares range kind g id ts st = ground arith

pop_at-Spares :
    (range : List String → List String) (st : ParseState) (k : String) (q : List PendingRecvRecord)
    {r : PendingRecvRecord} {st' : ParseState}
    → pop_at range st k q ≡ some (r, st')
    → (st'.sends_by_key ≡ st.sends_by_key) × (st'.next_msg_id ≡ st.next_msg_id)
pop_at-Spares range st k [] h = cc
pop_at-Spares range st k (p ∷ q) h = ground arith

pop_found-Spares :
    (range : List String → List String) (st : ParseState) (o : Option String)
    {r : PendingRecvRecord} {st' : ParseState}
    → pop_found range st o ≡ some (r, st')
    → (st'.sends_by_key ≡ st.sends_by_key) × (st'.next_msg_id ≡ st.next_msg_id)
pop_found-Spares range st none h = cc
pop_found-Spares range st (some k) h = pop_at-Spares range st k (recvs_at st k) h

pub pop_pending_recv-Spares :
    (range : List String → List String) (st : ParseState) (key : ChKey) (ch_ptr : String)
    {r : PendingRecvRecord} {st' : ParseState}
    → pop_pending_recv range st key ch_ptr ≡ some (r, st')
    → (st'.sends_by_key ≡ st.sends_by_key) × (st'.next_msg_id ≡ st.next_msg_id)
unfolding pop_pending_recv
pop_pending_recv-Spares range st key ch_ptr h =
    pop_found-Spares range st (pending_recv_key range st key ch_ptr) h

pub put_sends-next :
    (k : String) (q : List SendRecord) (st : ParseState)
    → (put_sends k q st).next_msg_id ≡ st.next_msg_id
unfolding put_sends
put_sends-next k q st = refl

-- Changes of the state that spare the ids, before and behind a step.
pub Moves-Spares :
    (n s d : ℕ) (m m' k k' : Machine)
    → (m'.st.sends_by_key ≡ m.st.sends_by_key) × (m'.st.next_msg_id ≡ m.st.next_msg_id)
    → m'.out ≡ m.out
    → (k'.st.sends_by_key ≡ k.st.sends_by_key) × (k'.st.next_msg_id ≡ k.st.next_msg_id)
    → k'.out ≡ k.out
    → Moves n s d m' k
    → Moves n s d m k'
Moves-Spares n s d m m' k k' (p, p') po (q, q') qo mv = omega (
  arith,
  mv,
  p',
  q',
  ap (total (count_queued n)) p,
  ap (total (count_queued n)) q,
  ap (count_events "chan_send" n) po,
  ap (count_events "chan_recv" n) po,
  ap (count_events "chan_send" n) qo,
  ap (count_events "chan_recv" n) qo,
)

module _ (cb : Callback) (keeps : KeepsIds cb) (n : ℕ) where
  -- What an emission adds to the events of the id.
  pub emit-Moves :
      (ev : TimelineEvent) (m : Machine)
      → Moves n
          (one_if ((ev.event == "chan_send") && (ev.msg_id == n)))
          (one_if ((ev.event == "chan_recv") && (ev.msg_id == n)))
          m
          (emit cb ev m).0
  emit-Moves ev m = (
    ap (λ st. st.next_msg_id) (emit-st cb ev m),
    emit-count cb keeps "chan_send" n ev m,
    omega (arith, emit-count cb keeps "chan_recv" n ev m, ap (queued n) (emit-st cb ev m)),
  )

  pub put_sends-Moves :
      (k : String) (sr : SendRecord) (m : Machine)
      → Moves n 0
          (one_if (sr.msg_id == n))
          m
          (record m { st = put_sends k (sends_at m.st k ++ sr ∷ []) m.st })
  put_sends-Moves k sr m = (
    put_sends-next k (sends_at m.st k ++ sr ∷ []) m.st,
    omega arith,
    omega (
      arith,
      queued-put_sends n k (sends_at m.st k ++ sr ∷ []) m.st,
      count_queued-snoc n (sends_at m.st k) sr,
    ),
  )

  -- A receive that was waiting is completed.
  late_recv-Moves :
      (count : ParseState → ParseState) (key : ChKey) (r : PendingRecvRecord) (sr : SendRecord)
      (st : ParseState) (channel_id : String) (m : Machine)
      → Spares count
      → (st.sends_by_key ≡ m.st.sends_by_key) × (st.next_msg_id ≡ m.st.next_msg_id)
      → Moves n 0
          (one_if (sr.msg_id == n))
          m
          ((attempt (emit cb (late_recv key r sr.g sr.msg_id))
              >> modify (record_channel_activity cb.range "recv" r.g channel_id r.time_ms))
            (record m { st = count st })).0
  late_recv-Moves count key r sr st channel_id m spares both =
      let m1 : Machine = record m { st = count st } in
      let m2 : Machine = (emit cb (late_recv key r sr.g sr.msg_id) m1).0 in
      let m3 : Machine = record m2 {
        st = record_channel_activity cb.range "recv" r.g channel_id r.time_ms m2.st;
      } in
      Moves-Spares n 0 (one_if (sr.msg_id == n)) m m1 m2 m3
        ((spares st).0 ∙ both.0, (spares st).1 ∙ both.1) refl
        (record_channel_activity-Spares cb.range "recv" r.g channel_id r.time_ms m2.st) refl
        (emit-Moves (late_recv key r sr.g sr.msg_id) m1)

  release-Moves :
      (count : ParseState → ParseState) (k : String) (d : ℕ) (m : Machine)
      → Spares count
      → Moves n 0 d m (record m { st = count (release_select_recv k m.st) })
  unfolding release_select_recv
  release-Moves count k d m spares =
      let m1 : Machine = record m { st = count (release_select_recv k m.st) } in
      Moves-Spares n 0 d m m m m1 (refl, refl) refl (spares (release_select_recv k m.st)) refl
        (refl, omega arith, omega arith)

  pub settle_send-Moves :
      (count : ParseState → ParseState) (key : ChKey) (ch_ptr channel_id : String) (sr : SendRecord)
      (m : Machine)
      → Spares count
      → Moves n 0 (one_if (sr.msg_id == n)) m (settle_send cb count key ch_ptr channel_id sr m).0
  unfolding settle_send
  settle_send-Moves count key ch_ptr channel_id sr m spares =
      elim (Option-cases (pop_pending_recv cb.range m.st key ch_ptr)) [
        | inr ((r, st), e) ↦
            rw (e, settle_send)
              (late_recv-Moves count key r sr st channel_id m spares
                (pop_pending_recv-Spares cb.range m.st key ch_ptr e))
        | inl e ↦ elim (Option-cases (resolve_pending_select_recv cb.range m.st key ch_ptr)) [
          | inr (k, f) ↦
              rw (e, f, settle_send) (release-Moves count k (one_if (sr.msg_id == n)) m spares)
          | inl f ↦ rw (e, f, settle_send) (put_sends-Moves (op_key key ch_ptr) sr m)
        ]
      ]
