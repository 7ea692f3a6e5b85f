-- ===== src/Parse/Waiting.antt =====
-- How many sends a select waits for, after it found none: `matchSelectRecv` counts it under the key
-- of the operation and under the name of the channel.
use gtv_final_submission.Prelude.Dict.{lookup-insert, beq_refl}
use gtv_final_submission.Prelude.{suc, ◌+◌, String, false, ◌≡◌, ◌==◌, arith, string_eq}
use gtv_final_submission.Parse.Keys.{op_key}
use gtv_final_submission.Parse.Queues.{select_recvs_at}
use gtv_final_submission.Parse.Select.{wait_select, wait_select_recv}
use gtv_final_submission.Parse.State.{ChKey, ParseState}

wait_select_lem :
    (k : String) (st : ParseState)
    → select_recvs_at (wait_select k st) k ≡ suc (select_recvs_at st k)
unfolding wait_select
wait_select_lem k st =
    ground
      (arith, beq_refl k, lookup-insert k k (suc (select_recvs_at st k)) st.pending_select_recv)

-- A select without a pointer, whose channel has a name, waits for two sends on that name.
pub wait_select_recv_twice :
    (key : ChKey) (st : ParseState)
    → (key.name == "") ≡ false
    → select_recvs_at (wait_select_recv key (op_key key "") st) (op_key key "")
      ≡ select_recvs_at st (op_key key "") + 2
unfolding wait_select_recv
wait_select_recv_twice key st named =
    rw (named, wait_select_recv)
      (omega (
        arith,
        wait_select_lem (op_key key "") st,
        wait_select_lem (op_key key "") (wait_select (op_key key "") st),
      ))
