-- ===== src/Parse/Commit/Bounds.antt =====
-- The depth of a buffer at the end of a region.
use gtv_final_submission.Prelude.Dict.{lookup}
use gtv_final_submission.Prelude.Int.{ℤ, int_eq}
use gtv_final_submission.Prelude.Text.{starts_with}
use gtv_final_submission.Prelude.{
  String, Bool, true, false, ◌||◌, string_eq, if◌then◌else◌, ◌≡◌, arith,
}
use gtv_final_submission.Timeline.{Millis}
use gtv_final_submission.Parse.Commit.{
  end_operation, handle_region_end, commit, with_value, forget_value, end_active,
}
use gtv_final_submission.Parse.Commit.Depth.{
  IsWithin, same-IsWithin, run_on-IsWithin, commit-IsWithin,
}
use gtv_final_submission.Parse.Commit.Frame.{handle_region_op-attempts}
use gtv_final_submission.Parse.Machine.{Callback, Machine, M, modify, skip}
use gtv_final_submission.Parse.Pairing.{handle_region_op}
use gtv_final_submission.Parse.State.{ParseState, Op}
use gtv_final_submission.Parse.SyncWait.{clear_sync_wait_candidate, is_sync_region_kind}

clear_sync_wait_candidate-attempts :
    (gid : ℤ) (kind : String) (st : ParseState)
    → (clear_sync_wait_candidate gid kind st).attempts ≡ st.attempts
unfolding clear_sync_wait_candidate
clear_sync_wait_candidate-attempts gid kind st = ground arith

if-IsWithin :
    (r : String) (b : Bool) (p q : M (Unit {0})) (m : Machine)
    → IsWithin r (p m).0.st
    → IsWithin r (q m).0.st
    → IsWithin r ((if b then p else q) m).0.st
if-IsWithin r true p q m hp hq = hp
if-IsWithin r false p q m hp hq = hq

module _ (cb : Callback) (gid : ℤ) (role : String) (t : Millis) (kind : String) (op : Op) where
  end_operation-IsWithin :
      (q : String) (m : Machine)
      → IsWithin q m.st
      → IsWithin q (end_operation cb gid role t kind op m).0.st
  unfolding end_operation
  end_operation-IsWithin q m h =
      let valued : Callback = with_value cb gid role t (lookup gid m.st.last_value) in
      let m1 : Machine = record m { st = forget_value cb gid role t m.st } in
      let m2 : Machine = (handle_region_op valued op.ch gid role t kind op.ptr m1).0 in
      let paired =
        same-IsWithin q m1.st m2.st
          (handle_region_op-attempts valued op.ch gid role t kind op.ptr m1) h in
      let last : M (Unit {0}) = commit cb gid role t kind in
      let step : M (Unit {0}) = if m.st.opt.emit_atomic then last else skip in
      let after : M (Unit {0}) = modify (end_active cb gid role t) in
      let committed =
        if-IsWithin q m.st.opt.emit_atomic last skip m2
          (commit-IsWithin cb gid role t q kind m2 paired) paired in
      run_on-IsWithin q after (step m2).0 (step m2).1 committed committed

  -- The end of a region, of whatever kind and whatever the callback answers, leaves every buffer
  -- whose depth is between 0 and its capacity so.
  pub handle_region_end-IsWithin :
      (q : String) (m : Machine)
      → IsWithin q m.st
      → IsWithin q (handle_region_end cb gid role t kind op m).0.st
  unfolding handle_region_end
  handle_region_end-IsWithin q m h =
      let clear : M (Unit {0}) = modify (clear_sync_wait_candidate gid kind) in
      let cleared =
        same-IsWithin q m.st (clear_sync_wait_candidate gid kind m.st)
          (clear_sync_wait_candidate-attempts gid kind m.st) h in
      if-IsWithin q (starts_with kind "cond_" || is_sync_region_kind kind) clear
        (end_operation cb gid role t kind op) m cleared (end_operation-IsWithin q m h)
