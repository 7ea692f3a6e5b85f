-- ===== src/Parse/Messages.antt =====
-- The life of a message id: how often it is sent, received and queued. Every operation of the
-- pairing is described by what it does to these counts.
pub mod Moves
pub mod Rule
pub mod Regions
pub mod Choices
pub mod Selects
pub mod Runs
use gtv_final_submission.Prelude.Dict.{Dict, total, lookup, insert, or_zero, total-insert}
use gtv_final_submission.Prelude.{
  ℕ, suc, ◌+◌, ◌≤◌, ◌<◌, String, Bool, true, false, ◌&&◌, Option, none, some, List, [], ◌∷◌, ◌++◌,
  ◌≡◌, refl, ◌==◌, arith, nat_eq, string_eq, if◌then◌else◌, nat_beq_iff, text_eq,
}
use gtv_final_submission.Timeline.{TimelineEvent}
use gtv_final_submission.Parse.Machine.{Callback, Machine, M, emit}
use gtv_final_submission.Parse.Pairing.{put_sends}
use gtv_final_submission.Parse.Queues.{sends_at}
use gtv_final_submission.Parse.State.{ParseState, SendRecord}

abbrev pub one_if : Bool → ℕ
one_if b = if b then 1 else 0

-- The events of a name with the id.
unfoldable pub count_events : String → ℕ → List TimelineEvent → ℕ
count_events name n [] = 0
count_events name n (ev ∷ evs) =
    one_if ((ev.event == name) && (ev.msg_id == n)) + count_events name n evs

unfoldable pub count_queued : ℕ → List SendRecord → ℕ
count_queued n [] = 0
count_queued n (sr ∷ q) = one_if (sr.msg_id == n) + count_queued n q

abbrev pub sent : ℕ → Machine → ℕ
sent n m = count_events "chan_send" n m.out

abbrev pub received : ℕ → Machine → ℕ
received n m = count_events "chan_recv" n m.out

abbrev pub queued : ℕ → ParseState → ℕ
queued n st = total (count_queued n) st.sends_by_key

pub count_events-snoc :
    (name : String) (n : ℕ) (evs : List TimelineEvent) (ev : TimelineEvent)
    → count_events name n (evs ++ ev ∷ [])
      ≡ count_events name n evs + one_if ((ev.event == name) && (ev.msg_id == n))
unfolding count_events
count_events-snoc name n [] ev = omega arith
count_events-snoc name n (e ∷ evs) ev = omega (arith, count_events-snoc name n evs ev)

pub count_queued-snoc :
    (n : ℕ) (q : List SendRecord) (sr : SendRecord)
    → count_queued n (q ++ sr ∷ []) ≡ count_queued n q + one_if (sr.msg_id == n)
unfolding count_queued
count_queued-snoc n [] sr = omega arith
count_queued-snoc n (r ∷ q) sr = omega (arith, count_queued-snoc n q sr)

-- The wrappers around the callback keep the name of an event and its id.
abbrev pub KeepsIds : Callback → Type 0
KeepsIds cb =
    (ev : TimelineEvent) → ((cb.wrap ev).event ≡ ev.event) × ((cb.wrap ev).msg_id ≡ ev.msg_id)

pub emit-count :
    (cb : Callback)
    → KeepsIds cb
    → (name : String) (n : ℕ) (ev : TimelineEvent) (m : Machine)
    → count_events name n (emit cb ev m).0.out
      ≡ count_events name n m.out + one_if ((ev.event == name) && (ev.msg_id == n))
unfolding emit
emit-count cb keeps name n ev m =
    let (same_name, same_id) = keeps ev in
    rw (count_events-snoc name n m.out (cb.wrap ev), same_name, same_id)

-- A queue replaced by another.
pub queued-put_sends :
    (n : ℕ) (k : String) (q : List SendRecord) (st : ParseState)
    → queued n (put_sends k q st) + count_queued n (sends_at st k) ≡ queued n st + count_queued n q
unfolding put_sends count_queued
queued-put_sends n k q st = ground (arith, total-insert (count_queued n) k q st.sends_by_key)

pub emit-st : (cb : Callback) (ev : TimelineEvent) (m : Machine) → (emit cb ev m).0.st ≡ m.st
unfolding emit
emit-st cb ev m = refl
