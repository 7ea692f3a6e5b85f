-- ===== src/Unmatched/Totals.antt =====
-- What the counts of the audit are, in terms of the keys that the first loop collects.
use gtv_final_submission.Prelude.Dict.{
  Dict, lookup, insert, is_some, or_zero, count_entries, lookup-insert,
}
use gtv_final_submission.Prelude.{
  ℕ, suc, ◌+◌, String, Bool, not, ◌&&◌, [], ◌∷◌, ◌==◌, ◌≡◌, ◌≢◌, arith, text_eq, string_eq,
  if◌then◌else◌,
}
use gtv_final_submission.Timeline.{ChannelUnmatchedAudit}
use gtv_final_submission.Unmatched.{
  Scan, Tally, entry_of, tally_send, tally_sends, tally_recv, tally_recvs, tally,
}

-- A send counts as matched if a receive with its key has a channel, and a receive is alone if no
-- send has its key.
abbrev pub is_matched : Dict String String → String × String → Bool
is_matched recvs (key, ch) = not (or_zero "" (lookup key recvs) == "")

abbrev pub is_alone : Dict String String → String × String → Bool
is_alone sends (key, ch) = not (is_some (lookup key sends))

abbrev pub on : String → String × String → Bool
on c (key, ch) = ch == c

module _ (recvs : Dict String String) where
  abbrev pub matched_on : String → String × String → Bool
  matched_on c kv = on c kv && is_matched recvs kv

  abbrev pub unmatched_on : String → String × String → Bool
  unmatched_on c kv = on c kv && not (is_matched recvs kv)

-- The three counts of one channel.
abbrev Counts : String → Tally → ℕ → ℕ → ℕ → Type 0
Counts c t us ur mp =
    ((entry_of c t.acc).unmatched_sends ≡ us)
    × ((entry_of c t.acc).unmatched_recvs ≡ ur)
    × ((entry_of c t.acc).matched_pairs ≡ mp)

entry_of-insert :
    (ch c : String) (e : ChannelUnmatchedAudit) (m : Dict String ChannelUnmatchedAudit)
    → entry_of c (insert ch e m) ≡ (if ch == c then e else entry_of c m)
entry_of-insert ch c e m = ground (arith, lookup-insert ch c e m)

tally_send-Counts :
    (recvs : Dict String String) (t : Tally) (kv : String × String) (c : String)
    → c ≢ ""
    → let e = entry_of c t.acc in
      Counts c
        (tally_send recvs t kv)
        (if unmatched_on recvs c kv then suc e.unmatched_sends else e.unmatched_sends)
        e.unmatched_recvs
        (if matched_on recvs c kv then suc e.matched_pairs else e.matched_pairs)
unfolding tally_send
tally_send-Counts recvs t (key, ch) c h =
    let e = entry_of ch t.acc in
    ground (
      arith,
      text_eq ch c,
      text_eq ch "",
      entry_of-insert ch c (record e { matched_pairs = suc e.matched_pairs }) t.acc,
      entry_of-insert ch c (record e { unmatched_sends = suc e.unmatched_sends }) t.acc,
    )

tally_sends-Counts :
    (recvs : Dict String String) (t : Tally) (kvs : Dict String String) (c : String)
    → c ≢ ""
    → let e = entry_of c t.acc in
      Counts c
        (tally_sends recvs t kvs)
        (e.unmatched_sends + count_entries (unmatched_on recvs c) kvs)
        e.unmatched_recvs
        (e.matched_pairs + count_entries (matched_on recvs c) kvs)
unfolding tally_sends
tally_sends-Counts recvs t [] c h = ground arith
tally_sends-Counts recvs t (kv ∷ kvs) c h = ground (
  arith,
  tally_send-Counts recvs t kv c h,
  tally_sends-Counts recvs (tally_send recvs t kv) kvs c h,
)

abbrev pub alone_on : Dict String String → String → String × String → Bool
alone_on sends c kv = on c kv && is_alone sends kv

tally_recv-Counts :
    (sends : Dict String String) (t : Tally) (kv : String × String) (c : String)
    → c ≢ ""
    → let e = entry_of c t.acc in
      Counts c
        (tally_recv sends t kv)
        e.unmatched_sends
        (if alone_on sends c kv then suc e.unmatched_recvs else e.unmatched_recvs)
        e.matched_pairs
unfolding tally_recv
tally_recv-Counts sends t (key, ch) c h =
    let e = entry_of ch t.acc in
    ground (
      arith,
      text_eq ch c,
      text_eq ch "",
      entry_of-insert ch c (record e { unmatched_recvs = suc e.unmatched_recvs }) t.acc,
    )

tally_recvs-Counts :
    (sends : Dict String String) (t : Tally) (kvs : Dict String String) (c : String)
    → c ≢ ""
    → let e = entry_of c t.acc in
      Counts c
        (tally_recvs sends t kvs)
        e.unmatched_sends
        (e.unmatched_recvs + count_entries (alone_on sends c) kvs)
        e.matched_pairs
unfolding tally_recvs
tally_recvs-Counts sends t [] c h = ground arith
tally_recvs-Counts sends t (kv ∷ kvs) c h = ground (
  arith,
  tally_recv-Counts sends t kv c h,
  tally_recvs-Counts sends (tally_recv sends t kv) kvs c h,
)

-- For a named channel the audit counts the send keys on it whose receive has a channel as matched
-- and the others as unmatched sends, and the receive keys on it that no send has as unmatched
-- receives.
pub tally_counts :
    (s : Scan) (c : String)
    → c ≢ ""
    → let e = entry_of c (tally s).acc in
      (e.matched_pairs ≡ count_entries (matched_on s.recv_by_key c) s.send_by_key)
      × (e.unmatched_sends ≡ count_entries (unmatched_on s.recv_by_key c) s.send_by_key)
      × (e.unmatched_recvs ≡ count_entries (alone_on s.send_by_key c) s.recv_by_key)
unfolding lookup
tally_counts s c h =
    let start : Tally = record { acc = []; sends = 0; recvs = 0 } in
    ground (
      arith,
      tally_sends-Counts s.recv_by_key start s.send_by_key c h,
      tally_recvs-Counts s.send_by_key (tally_sends s.recv_by_key start s.send_by_key) s.recv_by_key
          c h,
    )
