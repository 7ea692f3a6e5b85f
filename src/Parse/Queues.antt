-- ===== src/Parse/Queues.antt =====
-- The queues of sends and receives that wait for their counterpart. A queue is found under the key
-- of the operation, or under another key that stands for a channel of the same name.
use gtv_final_submission.Prelude.Dict.{Dict, lookup, insert, or_zero, keys}
use gtv_final_submission.Prelude.Int.{pos, negsuc, ltb_ℤ}
use gtv_final_submission.Prelude.Text.{starts_with, to_lower, trim_space}
use gtv_final_submission.Prelude.{
  ℕ, String, Bool, true, false, ◌&&◌, ◌||◌, Option, none, some, List, [], ◌∷◌, ltb, ◌==◌, string_eq,
  if◌then◌else◌,
}
use gtv_final_submission.Timeline.{Millis}
use gtv_final_submission.Parse.Keys.{with_client, op_key}
use gtv_final_submission.Parse.State.{ChKey, ParseState, SendRecord, PendingRecvRecord}

-- The name that the keys of the map are compared with.
abbrev pub search_name : ChKey → String
search_name key = to_lower (trim_space (with_client key))

-- A key is the name itself, or a pointer whose channel has the name.
unfoldable pub names_channel : Dict String String → String → String → Bool
names_channel names name k =
    (to_lower k == name)
    || (starts_with k "0x"
        && elim (lookup k names) [ none ↦ false | some nm ↦ to_lower nm == name ])

-- The first key, in the order of the range, that passes a test.
abbrev pub first_key : (String → Bool) → List String → Option String
first_key p [] = none
first_key p (k ∷ ks) = let rest = first_key p ks in if p k then some k else rest

abbrev pub sends_at : ParseState → String → List SendRecord
sends_at st k = or_zero [] (lookup k st.sends_by_key)

abbrev pub recvs_at : ParseState → String → List PendingRecvRecord
recvs_at st k = or_zero [] (lookup k st.pending_recv_by_key)

abbrev pub select_recvs_at : ParseState → String → ℕ
select_recvs_at st k = or_zero 0 (lookup k st.pending_select_recv)

-- `bestTime` and `bestKey`; the time begins at -1 ms, which is the sign that no key was found.
abbrev pub Best : Type 0
Best = Millis × String

abbrev pub no_best : Best
no_best = (negsuc 999999, "")

abbrev better : String → List SendRecord → Best → Best
better k [] best = best
better k (r ∷ q) (best_time, best_key) =
    if ltb_ℤ best_time (pos 0) || ltb_ℤ r.time_ms best_time
    then (r.time_ms, k)
    else (best_time, best_key)

find_best : ParseState → String → List String → Best → Best
find_best st name [] best = best
find_best st name (k ∷ ks) best =
    find_best st name ks
      (if names_channel st.channel_name_by_ptr name k then better k (sends_at st k) best else best)

abbrev found_key : Best → Option String
found_key (best_time, best_key) = if ltb_ℤ best_time (pos 0) then none else some best_key

module _ (range : List String → List String) where
  -- The key of the queue whose head is the oldest send on a channel of the name.
  unfoldable pub find_send_queue_by_name : ParseState → ChKey → Option String
  unfolding find_best names_channel
  find_send_queue_by_name st key =
      let name = search_name key in
      if name == ""
      then none
      else found_key (find_best st name (range (keys st.sends_by_key)) no_best)

  abbrev pub waits : ParseState → String → String → Bool
  waits st name k = ltb 0 (select_recvs_at st k) && names_channel st.channel_name_by_ptr name k

  unfoldable pub resolve_pending_select_recv : ParseState → ChKey → String → Option String
  unfolding names_channel
  resolve_pending_select_recv st key ch_ptr =
      let name = search_name key in
      if ltb 0 (select_recvs_at st (op_key key ch_ptr))
      then some (op_key key ch_ptr)
      else if name == ""
      then none
      else first_key (waits st name) (range (keys st.pending_select_recv))

  abbrev pub is_waiting : List PendingRecvRecord → Bool
  is_waiting [] = false
  is_waiting (r ∷ q) = true

  -- The key whose queue `popPendingRecv` takes a record from.
  unfoldable pub pending_recv_key : ParseState → ChKey → String → Option String
  unfolding names_channel
  pending_recv_key st key ch_ptr =
      let name = search_name key in
      if is_waiting (recvs_at st (op_key key ch_ptr))
      then some (op_key key ch_ptr)
      else if name == ""
      then none
      else first_key
          (λ k. is_waiting (recvs_at st k) && names_channel st.channel_name_by_ptr name k)
          (range (keys st.pending_recv_by_key))

  abbrev pub pop_at :
      ParseState → String → List PendingRecvRecord → Option (PendingRecvRecord × ParseState)
  pop_at st k [] = none
  pop_at st k (r ∷ q) = some (
    r,
    record st {
      pairing = record st.pairing { pending_recv_by_key = insert k q st.pending_recv_by_key };
    },
  )

  abbrev pub pop_found : ParseState → Option String → Option (PendingRecvRecord × ParseState)
  pop_found st none = none
  pop_found st (some k) = pop_at st k (recvs_at st k)

  -- The record, and the state without it.
  unfoldable pub pop_pending_recv :
      ParseState → ChKey → String → Option (PendingRecvRecord × ParseState)
  unfolding pending_recv_key
  pop_pending_recv st key ch_ptr = pop_found st (pending_recv_key st key ch_ptr)
