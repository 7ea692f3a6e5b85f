-- ===== src/Audit/Channels.antt =====
-- `auditSummaryEvent`: what is left in the queues, counted for each channel.
use gtv_final_submission.Prelude.Dict.{Dict}
use gtv_final_submission.Prelude.{
  ℕ, suc, ◌+◌, String, List, [], ◌∷◌, ◌==◌, nat_eq, string_eq, if◌then◌else◌, length,
}
use gtv_final_submission.Parse.State.{ParseState, SendRecord, PendingRecvRecord}
use gtv_final_submission.Unmatched.{Tally, entry_of, put}

abbrev add_sends : String → ℕ → Tally → Tally
add_sends ch n t =
    let e = entry_of ch t.acc in
    let more = record t { sends = t.sends + n } in
    if ch == "" then more else put ch (record e { unmatched_sends = e.unmatched_sends + n }) more

abbrev add_recvs : String → ℕ → Tally → Tally
add_recvs ch n t =
    let e = entry_of ch t.acc in
    let more = record t { recvs = t.recvs + n } in
    if ch == "" then more else put ch (record e { unmatched_recvs = e.unmatched_recvs + n }) more

unfoldable pub count_sends : Dict String (List SendRecord) → Tally → Tally
count_sends [] t = t
count_sends ((ch, q) ∷ m) t = count_sends m (if length q == 0 then t else add_sends ch (length q) t)

unfoldable pub count_unmatched : Dict String ℕ → Tally → Tally
count_unmatched [] t = t
count_unmatched ((ch, n) ∷ m) t = count_unmatched m (add_recvs ch n t)

unfoldable pub count_recvs : Dict String (List PendingRecvRecord) → Tally → Tally
count_recvs [] t = t
count_recvs ((ch, q) ∷ m) t = count_recvs m (if length q == 0 then t else add_recvs ch (length q) t)

unfoldable pub count_pairs : Dict String ℕ → Tally → Tally
count_pairs [] t = t
count_pairs ((ch, n) ∷ m) t =
    let e = entry_of ch t.acc in
    count_pairs m
      (if ch == "" then t else put ch (record e { matched_pairs = e.matched_pairs + n }) t)

-- The four loops over the maps of the state.
unfoldable pub tally_state : ParseState → Tally
tally_state st = count_pairs st.matched_pairs_by_channel (
    count_recvs st.pending_recv_by_key (
      count_unmatched st.unmatched_recv_by_channel
        (count_sends st.sends_by_key (record { acc = []; sends = 0; recvs = 0 }))))

-- The channels on which sends wait, and the sends.
unfoldable pub waiting_channels : Dict String (List SendRecord) → ℕ
waiting_channels [] = 0
waiting_channels ((ch, q) ∷ m) =
    if length q == 0 then waiting_channels m else suc (waiting_channels m)

unfoldable pub waiting_sends : Dict String (List SendRecord) → ℕ
waiting_sends [] = 0
waiting_sends ((ch, q) ∷ m) = length q + waiting_sends m
