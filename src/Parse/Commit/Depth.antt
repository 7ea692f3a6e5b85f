-- ===== src/Parse/Commit/Depth.antt =====
-- The depth of a buffer at a commit of the atomic mode, against 0 and its capacity.
use gtv_final_submission.Prelude.Dict.{lookup-insert}
use gtv_final_submission.Prelude.Int.{ℤ, pos, int_eq, ◌+ℤ◌, ◌-ℤ◌, ltb_ℤ, ◌≤ℤ◌}
use gtv_final_submission.Prelude.{
  String, true, List, ◌==◌, string_eq, text_eq, if◌then◌else◌, ◌≡◌, arith, inl, inr, Bool-cases,
}
use gtv_final_submission.Parse.Commit.{
  count_buffered, count_taken, cap_at, depth_at, is_buffered, leave_queues, paired_id, commit_recv,
  commit_send, commit, end_attempt, queue_at, attempt_at, holds_send,
}
use gtv_final_submission.Parse.Activity.{record_channel_activity}
use gtv_final_submission.Parse.Keys.{op_key, parse_ch_key}
use gtv_final_submission.Parse.Machine.{
  Callback, Machine, M, Outcome, done, failed, run_on, emit, modify,
}
use gtv_final_submission.Parse.Select.{new_id, draw_id}
use gtv_final_submission.Parse.State.{ParseState, Attempt}
use gtv_final_submission.Timeline.{Millis}

-- The buffer behind the pointer.
abbrev pub IsWithin : String → ParseState → Type 0
IsWithin p st = (pos 0 ≤ℤ depth_at p st) × (depth_at p st ≤ℤ cap_at p st)

count_buffered-IsWithin :
    (p q id : String) (st : ParseState)
    → is_buffered p st ≡ true
    → IsWithin q st
    → IsWithin q (count_buffered p id st)
unfolding count_buffered ◌+ℤ◌
count_buffered-IsWithin p q id st b h =
    let grown : ℤ = depth_at p st +ℤ pos 1 in
    let bounded : ℤ = if ltb_ℤ (cap_at p st) grown then cap_at p st else grown in
    ground (arith, text_eq p q, text_eq p "", lookup-insert p q bounded st.depth_by_ptr)

count_taken-IsWithin :
    (p q id : String) (st : ParseState) → IsWithin q st → IsWithin q (count_taken p id st)
unfolding count_taken ◌-ℤ◌
count_taken-IsWithin p q id st h =
    ground (arith, text_eq p q, lookup-insert p q (depth_at p st -ℤ pos 1) st.depth_by_ptr)

pub record_channel_activity-attempts :
    (range : List String → List String) (kind : String) (g : ℤ) (id : String) (t : Millis)
    (st : ParseState)
    → (record_channel_activity range kind g id t st).attempts ≡ st.attempts
unfolding record_channel_activity
record_channel_activity-attempts range kind g id t st = ground arith

-- A buffer is the same in two states with the same attempts.
pub same-IsWithin :
    (q : String) (st st' : ParseState) → st'.attempts ≡ st.attempts → IsWithin q st → IsWithin q st'
same-IsWithin q st st' e h = ground arith

-- A step, whatever its outcome, and what follows it.
pub run_on-IsWithin :
    (q : String) (f : M (Unit {0})) (m : Machine) (o : Outcome (Unit {0}))
    → IsWithin q m.st
    → IsWithin q (f m).0.st
    → IsWithin q (run_on {A = Unit {0}} (λ _. f) m o).0.st
run_on-IsWithin q f m failed h hf = h
run_on-IsWithin q f m (done tt) h hf = hf

module _ (cb : Callback) (gid : ℤ) (role : String) (t : Millis) (q : String) where
  commit_send-IsWithin :
      (id : String) (att : Attempt) (m : Machine)
      → IsWithin q m.st
      → IsWithin q (commit_send cb gid role t id att m).0.st
  unfolding commit_send emit
  commit_send-IsWithin id att m h =
      let k : String = op_key (parse_ch_key att.ch) att.ptr in
      let st : ParseState = record_channel_activity cb.range "send" gid k t m.st in
      let active =
        same-IsWithin q m.st st (record_channel_activity-attempts cb.range "send" gid k t m.st) h in
      elim (Bool-cases (is_buffered att.ptr st)) [
        | inl e ↦ rw (e, commit_send) (count_buffered-IsWithin att.ptr q att.id st e active)
        | inr e ↦ rw (e, commit_send) active
      ]

  commit_recv-IsWithin :
      (id : String) (att : Attempt) (m : Machine)
      → IsWithin q m.st
      → IsWithin q (commit_recv cb gid role t id att m).0.st
  unfolding commit_recv emit leave_queues
  commit_recv-IsWithin id att m h =
      let k : String = op_key (parse_ch_key att.ch) att.ptr in
      let left : ParseState = leave_queues k att.id m.st in
      let st : ParseState = record_channel_activity cb.range "recv" gid k t left in
      let pair : String = paired_id att.id (queue_at k m.st.snd_att_q) in
      let active =
        same-IsWithin q left st (record_channel_activity-attempts cb.range "recv" gid k t left) h in
      elim (Bool-cases (holds_send att.ptr pair st)) [
        | inl e ↦ rw (e, commit_recv) (count_taken-IsWithin att.ptr q pair st active)
        | inr e ↦ rw (e, commit_recv) active
      ]

  -- A commit of the atomic mode leaves every buffer whose depth is between 0 and its capacity so.
  pub commit-IsWithin :
      (kind : String) (m : Machine)
      → IsWithin q m.st
      → IsWithin q (commit cb gid role t kind m).0.st
  unfolding draw_id end_attempt
  commit-IsWithin kind m h =
      let id : String = new_id "c" m.st in
      let m1 : Machine = record m { st = draw_id m.st } in
      let att : Attempt = attempt_at gid m1.st in
      let receive : M (Unit {0}) = commit_recv cb gid role t id att in
      let send : M (Unit {0}) = commit_send cb gid role t id att in
      let after : M (Unit {0}) = modify (end_attempt gid) in
      let received = commit_recv-IsWithin id att m1 h in
      let sent = commit_send-IsWithin id att m1 h in
      elim (Bool-cases (kind == "recv")) [
        | inl e ↦ rw e (run_on-IsWithin q after (receive m1).0 (receive m1).1 received received)
        | inr e ↦ rw e (run_on-IsWithin q after (send m1).0 (send m1).1 sent sent)
      ]
