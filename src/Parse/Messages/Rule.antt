-- ===== src/Parse/Messages/Rule.antt =====
-- The rule for a message id: it is sent once it is drawn and not before, and at most once; it is
-- received and waits in queues at most as often as it is sent.
use gtv_final_submission.Prelude.Dict.{total}
use gtv_final_submission.Prelude.{
  ℕ, suc, ◌+◌, ◌≤◌, String, Bool, true, false, ◌&&◌, List, ◌∷◌, ◌≡◌, ap, ◌∙◌, ◌==◌, arith, nat_eq,
  string_eq, if◌then◌else◌, nat_beq_iff, ltb,
}
use gtv_final_submission.Timeline.{TimelineEvent}
use gtv_final_submission.Parse.Machine.{Callback, Machine, M, emit, run_on, Outcome, done, failed}
use gtv_final_submission.Parse.Messages.{
  one_if, count_events, count_queued, sent, received, queued, KeepsIds, queued-put_sends,
}
use gtv_final_submission.Parse.Messages.Moves.{Moves, emit-Moves, put_sends-next}
use gtv_final_submission.Parse.Pairing.{put_sends}
use gtv_final_submission.Parse.Queues.{sends_at}
use gtv_final_submission.Parse.State.{SendRecord}

-- The id `n`, of which `d` more receipts may come.
abbrev pub IdOk : ℕ → ℕ → Machine → Type 0
IdOk n d m =
    (received n m + queued n m.st + d ≤ sent n m) × (sent n m ≤ one_if (ltb n m.st.next_msg_id))

pub Moves-IdOk : (n d : ℕ) (m m' : Machine) → Moves n 0 d m m' → IdOk n d m → IdOk n 0 m'
Moves-IdOk n d m m' (p, q, r) (ok, drawn) =
    (omega (arith, q, r, ok), omega (arith, q, drawn, ap (λ x. one_if (ltb n x)) p))

pub Moves-trans :
    (n s d s' d' : ℕ) (m m1 m2 : Machine)
    → Moves n s d m m1
    → Moves n s' d' m1 m2
    → Moves n (s + s') (d + d') m m2
Moves-trans n s d s' d' m m1 m2 (p, q, r) (p', q', r') =
    (omega (arith, p, p'), omega (arith, q, q'), omega (arith, r, r'))

pub Moves-le :
    (n s d s' d' : ℕ) (m m' : Machine) → s ≡ s' → d ≤ d' → Moves n s d m m' → Moves n s' d' m m'
Moves-le n s d s' d' m m' same le (p, q, r) = (p, omega (arith, q, same), omega (arith, r, le))

draws : (n x : ℕ) → one_if (ltb n x) + one_if (x == n) ≤ one_if (ltb n (suc x))
draws n x = ground (arith, nat_beq_iff x n)

-- An operation that draws an id sends it once, and gives it to one receive or queue.
pub draw-IdOk :
    (n : ℕ) (m m1 m' : Machine)
    → m1.out ≡ m.out
    → m1.st.sends_by_key ≡ m.st.sends_by_key
    → m1.st.next_msg_id ≡ suc m.st.next_msg_id
    → Moves n (one_if (m.st.next_msg_id == n)) (one_if (m.st.next_msg_id == n)) m1 m'
    → IdOk n 0 m
    → IdOk n 0 m'
draw-IdOk n m m1 m' same_out same_sends next (p, q, r) (ok, drawn) =
    let sent_before = ap (count_events "chan_send" n) same_out in
    let received_before = ap (count_events "chan_recv" n) same_out in
    let queued_before = ap (total (count_queued n)) same_sends in
    (
      omega (arith, q, r, ok, sent_before, received_before, queued_before),
      omega (
        arith,
        q,
        drawn,
        sent_before,
        draws n m.st.next_msg_id,
        ap (λ x. one_if (ltb n x)) (p ∙ next),
      ),
    )

pub IdOk-weaken : (n d : ℕ) (m : Machine) → IdOk n d m → IdOk n 0 m
IdOk-weaken n d m (ok, drawn) = (omega (arith, ok), drawn)

-- A test keeps the invariant if both its branches do.
pub if-IdOk :
    (n : ℕ) (b : Bool) (p q : M (Unit {0})) (m : Machine)
    → IdOk n 0 (p m).0
    → IdOk n 0 (q m).0
    → IdOk n 0 ((if b then p else q) m).0
if-IdOk n true p q m hp hq = hp
if-IdOk n false p q m hp hq = hq

-- A step that may fail, and what follows it.
pub then-IdOk :
    (n : ℕ) (f : M (Unit {0})) (m : Machine) (o : Outcome (Unit {0}))
    → IdOk n 0 m
    → IdOk n 0 (f m).0
    → IdOk n 0 (run_on {A = Unit {0}} (λ _. f) m o).0
then-IdOk n f m failed h hf = h
then-IdOk n f m (done tt) h hf = hf

-- A step that succeeds, and what follows it.
pub done-IdOk :
    (n : ℕ) (f : M (Unit {0})) (m : Machine) (o : Outcome (Unit {0}))
    → o ≡ done tt
    → IdOk n 0 (f m).0
    → IdOk n 0 (run_on {A = Unit {0}} (λ _. f) m o).0
done-IdOk n f m o e h = rw e h

pub spare-IdOk :
    (n d : ℕ) (m m' : Machine)
    → m'.out ≡ m.out
    → (m'.st.sends_by_key ≡ m.st.sends_by_key) × (m'.st.next_msg_id ≡ m.st.next_msg_id)
    → IdOk n d m
    → IdOk n d m'
spare-IdOk n d m m' same_out (same_sends, same_next) (ok, drawn) =
    let sent_before = ap (count_events "chan_send" n) same_out in
    let received_before = ap (count_events "chan_recv" n) same_out in
    let queued_before = ap (total (count_queued n)) same_sends in
    (
      omega (arith, ok, sent_before, received_before, queued_before),
      omega (arith, drawn, sent_before, ap (λ x. one_if (ltb n x)) same_next),
    )

-- The head of a queue is taken: it may be received.
pub take-IdOk :
    (n : ℕ) (k : String) (sr : SendRecord) (q : List SendRecord) (m : Machine)
    → sends_at m.st k ≡ sr ∷ q
    → IdOk n 0 m
    → IdOk n (one_if (sr.msg_id == n)) (record m { st = put_sends k q m.st })
unfolding count_queued
take-IdOk n k sr q m head (ok, drawn) = (
  omega (arith, ok, queued-put_sends n k q m.st, ap (count_queued n) head),
  omega (arith, drawn, ap (λ x. one_if (ltb n x)) (put_sends-next k q m.st)),
)

module _ (cb : Callback) (keeps : KeepsIds cb) (n : ℕ) where
  -- An event that is not a send, and uses up a receipt if it is a receive.
  pub emit-IdOk :
      (ev : TimelineEvent) (d d' : ℕ) (m : Machine)
      → (ev.event == "chan_send") ≡ false
      → one_if ((ev.event == "chan_recv") && (ev.msg_id == n)) + d' ≤ d
      → IdOk n d m
      → IdOk n d' (emit cb ev m).0
  emit-IdOk ev d d' m no_send le (ok, drawn) =
      let (p, q, r) = emit-Moves cb keeps n ev m in
      let none_sent = ap (λ b. one_if (b && (ev.msg_id == n))) no_send in
      (
        omega (arith, q, r, ok, le, none_sent),
        omega (arith, q, drawn, none_sent, ap (λ x. one_if (ltb n x)) p),
      )
