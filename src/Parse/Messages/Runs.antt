-- ===== src/Parse/Messages/Runs.antt =====
-- The runs of the pairing: from the initial state, send and receive regions end and the cases of
-- selects are chosen, in any order.
use gtv_final_submission.Prelude.Int.{ℤ}
use gtv_final_submission.Prelude.{ℕ, ◌≤◌, ◌<◌, String, [], arith}
use gtv_final_submission.Timeline.{Millis}
use gtv_final_submission.Parse.Machine.{Callback, Machine}
use gtv_final_submission.Parse.Messages.{KeepsIds, sent, received, count_events}
use gtv_final_submission.Parse.Messages.Rule.{IdOk}
use gtv_final_submission.Parse.Messages.Regions.{handle_region_op_unique}
use gtv_final_submission.Parse.Messages.Selects.{emit_select_chosen_case_unique}
use gtv_final_submission.Parse.Pairing.{handle_region_op}
use gtv_final_submission.Parse.Select.{emit_select_chosen_case}
use gtv_final_submission.Parse.State.{Options, SelectCaseInfo, new_parse_state}

-- The machines that the operations of the pairing lead to, whether the callback accepts the events
-- or refuses them.
pub data Reachable (cb : Callback) (opt : Options) : Machine → Type 0 where
  start : Reachable cb opt (record { st = new_parse_state opt; out = [] })
  region_end :
      {m : Machine} (ch : String) (gid : ℤ) (role : String) (t : Millis) (kind ch_ptr : String)
      → Reachable cb opt m
      → Reachable cb opt (handle_region_op cb ch gid role t kind ch_ptr m).0
  case_chosen :
      {m : Machine} (sid : String) (info : SelectCaseInfo) (t : Millis) (gid : ℤ)
      → Reachable cb opt m
      → Reachable cb opt (emit_select_chosen_case cb sid info t gid m).0

module _ (cb : Callback) (keeps : KeepsIds cb) (opt : Options) (n : ℕ) (nonzero : 0 < n) where
  Reachable-IdOk : {m : Machine} → Reachable cb opt m → IdOk n 0 m
  unfolding new_parse_state count_events
  Reachable-IdOk start = (omega arith, ground arith)
  Reachable-IdOk (region_end {m = m} ch gid role t kind ch_ptr r) =
      handle_region_op_unique cb keeps n ch gid role t kind ch_ptr m (Reachable-IdOk r)
  Reachable-IdOk (case_chosen {m = m} sid info t gid r) =
      emit_select_chosen_case_unique cb keeps n nonzero sid info t gid m (Reachable-IdOk r)

  -- Where the wrappers around the callback keep the name and the id of an event:
  -- a message id other than 0 is sent at most once in a run, and is received at most as often as it
  -- is sent: a receive never reports a message that was not sent, nor one message twice.
  pub delivered_once :
      {m : Machine} → Reachable cb opt m → (received n m ≤ sent n m) × (sent n m ≤ 1)
  delivered_once {m = m} r =
      let (ok, drawn) = Reachable-IdOk r in (omega (arith, ok), ground (arith, drawn))
