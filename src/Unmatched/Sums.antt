-- ===== src/Unmatched/Sums.antt =====
-- What the rows and the totals of the audit add up to.
use gtv_final_submission.Prelude.Dict.{Dict, total, count_entries, total-insert}
use gtv_final_submission.Prelude.{
  ℕ, suc, ◌+◌, String, Bool, not, ◌&&◌, ◌||◌, List, [], ◌∷◌, ◌≡◌, refl, ◌∙◌, arith, string_eq,
  if◌then◌else◌, length,
}
use gtv_final_submission.Timeline.{ChannelUnmatchedAudit, TimelineEvent}
use gtv_final_submission.Unmatched.{
  Tally, zero_scan, scan_events, entry_of, put, tally_send, tally_sends, tally_recv, tally_recvs,
  tally, insert_sorted, sort_keys, entries, compute_unmatched_audit_from_events,
}
use gtv_final_submission.Unmatched.Totals.{is_matched, is_alone, on}

-- The sums over the channels.
abbrev pub us : ChannelUnmatchedAudit → ℕ
us e = e.unmatched_sends

abbrev pub ur : ChannelUnmatchedAudit → ℕ
ur e = e.unmatched_recvs

abbrev pub mp : ChannelUnmatchedAudit → ℕ
mp e = e.matched_pairs

abbrev pub blank : String × String → Bool
blank kv = on "" kv

-- What a loop adds: to the three sums and to the two totals.
abbrev Adds : Tally → Tally → ℕ → ℕ → ℕ → ℕ → ℕ → Type 0
Adds t r s_us s_ur s_mp sends recvs =
    (total us r.acc ≡ total us t.acc + s_us)
    × (total ur r.acc ≡ total ur t.acc + s_ur)
    × (total mp r.acc ≡ total mp t.acc + s_mp)
    × (r.sends ≡ t.sends + sends)
    × (r.recvs ≡ t.recvs + recvs)

abbrev one_if : Bool → ℕ
one_if b = if b then 1 else 0

module _ (t : Tally) (ch : String) (e : ChannelUnmatchedAudit) where
  put-total :
      (total us (put ch e t).acc + us (entry_of ch t.acc) ≡ total us t.acc + us e)
      × (total ur (put ch e t).acc + ur (entry_of ch t.acc) ≡ total ur t.acc + ur e)
      × (total mp (put ch e t).acc + mp (entry_of ch t.acc) ≡ total mp t.acc + mp e)
  put-total =
      ground
        (arith, total-insert us ch e t.acc, total-insert ur ch e t.acc, total-insert mp ch e t.acc)

tally_send-Adds :
    (recvs : Dict String String) (t : Tally) (kv : String × String)
    → Adds t
        (tally_send recvs t kv)
        (one_if (not (blank kv) && not (is_matched recvs kv)))
        0
        (one_if (not (blank kv) && is_matched recvs kv))
        (one_if (blank kv || not (is_matched recvs kv)))
        0
unfolding tally_send
tally_send-Adds recvs t (key, ch) =
    let e = entry_of ch t.acc in
    ground (
      arith,
      put-total t ch (record e { matched_pairs = suc e.matched_pairs }),
      put-total (record t { sends = suc t.sends }) ch
          (record e { unmatched_sends = suc e.unmatched_sends }),
    )

tally_recv-Adds :
    (sends : Dict String String) (t : Tally) (kv : String × String)
    → Adds t
        (tally_recv sends t kv)
        0
        (one_if (not (blank kv) && is_alone sends kv))
        0
        0
        (one_if (is_alone sends kv))
unfolding tally_recv
tally_recv-Adds sends t (key, ch) =
    let e = entry_of ch t.acc in
    ground (
      arith,
      put-total (record t { recvs = suc t.recvs }) ch
          (record e { unmatched_recvs = suc e.unmatched_recvs }),
    )

module _ (recvs : Dict String String) where
  abbrev pub is_unmatched_send : String × String → Bool
  is_unmatched_send kv = not (blank kv) && not (is_matched recvs kv)

  abbrev pub is_pair : String × String → Bool
  is_pair kv = not (blank kv) && is_matched recvs kv

  abbrev pub is_lost_send : String × String → Bool
  is_lost_send kv = blank kv || not (is_matched recvs kv)

tally_sends-Adds :
    (recvs : Dict String String) (t : Tally) (kvs : Dict String String)
    → Adds t
        (tally_sends recvs t kvs)
        (count_entries (is_unmatched_send recvs) kvs)
        0
        (count_entries (is_pair recvs) kvs)
        (count_entries (is_lost_send recvs) kvs)
        0
unfolding tally_sends
tally_sends-Adds recvs t [] = omega arith
tally_sends-Adds recvs t (kv ∷ kvs) =
    ground (arith, tally_send-Adds recvs t kv, tally_sends-Adds recvs (tally_send recvs t kv) kvs)

abbrev pub is_named_alone : Dict String String → String × String → Bool
is_named_alone sends kv = not (blank kv) && is_alone sends kv

tally_recvs-Adds :
    (sends : Dict String String) (t : Tally) (kvs : Dict String String)
    → Adds t
        (tally_recvs sends t kvs)
        0
        (count_entries (is_named_alone sends) kvs)
        0
        0
        (count_entries (is_alone sends) kvs)
unfolding tally_recvs
tally_recvs-Adds sends t [] = omega arith
tally_recvs-Adds sends t (kv ∷ kvs) =
    ground (arith, tally_recv-Adds sends t kv, tally_recvs-Adds sends (tally_recv sends t kv) kvs)

total-insert_sorted :
    (f : ChannelUnmatchedAudit → ℕ) (ke : String × ChannelUnmatchedAudit)
    (m : Dict String ChannelUnmatchedAudit)
    → total f (insert_sorted ke m) ≡ f ke.1 + total f m
unfolding insert_sorted
total-insert_sorted f ke [] = refl
total-insert_sorted f (k, e) ((j, d) ∷ m) = ground (arith, total-insert_sorted f (k, e) m)

total-sort_keys :
    (f : ChannelUnmatchedAudit → ℕ) (m : Dict String ChannelUnmatchedAudit)
    → total f (sort_keys m) ≡ total f m
unfolding sort_keys
total-sort_keys f [] = refl
total-sort_keys f (ke ∷ m) =
    omega (arith, total-insert_sorted f ke (sort_keys m), total-sort_keys f m)

-- A sum over the rows of the audit.
unfoldable pub sum_of : (ChannelUnmatchedAudit → ℕ) → List ChannelUnmatchedAudit → ℕ
sum_of f [] = 0
sum_of f (e ∷ es) = f e + sum_of f es

sum_of-entries :
    (f : ChannelUnmatchedAudit → ℕ) (m : Dict String ChannelUnmatchedAudit)
    → sum_of f (entries m) ≡ total f m
unfolding sum_of
sum_of-entries f [] = refl
sum_of-entries f ((k, e) ∷ m) = omega (arith, sum_of-entries f m)

sum_of-rows :
    (f : ChannelUnmatchedAudit → ℕ) (m : Dict String ChannelUnmatchedAudit)
    → sum_of f (entries (sort_keys m)) ≡ total f m
sum_of-rows f m = sum_of-entries f (sort_keys m) ∙ total-sort_keys f m

partition :
    (recvs kvs : Dict String String)
    → (count_entries (is_pair recvs) kvs + count_entries (is_lost_send recvs) kvs ≡ length kvs)
      × (count_entries (is_lost_send recvs) kvs
          ≡ count_entries (is_unmatched_send recvs) kvs + count_entries blank kvs)
partition recvs [] = omega arith
partition recvs (kv ∷ kvs) = ground (arith, partition recvs kvs)

-- The rows and the totals account for every key: a send key is a matched pair or in the total of
-- unmatched sends, which is the sum of the rows and the send keys without a channel; and the total
-- of unmatched receives is the number of receive keys that no send has.
pub audit_accounts :
    (events : List TimelineEvent)
    → let (rows, tot, _) = compute_unmatched_audit_from_events events in
      let s = scan_events zero_scan events in
      (sum_of mp rows + tot.sends ≡ length s.send_by_key)
      × (sum_of us rows + count_entries blank s.send_by_key ≡ tot.sends)
      × (sum_of ur rows ≡ count_entries (is_named_alone s.send_by_key) s.recv_by_key)
      × (tot.recvs ≡ count_entries (is_alone s.send_by_key) s.recv_by_key)
unfolding compute_unmatched_audit_from_events
audit_accounts events =
    let s = scan_events zero_scan events in
    let start : Tally = record { acc = []; sends = 0; recvs = 0 } in
    omega (
      arith,
      sum_of-rows mp (tally s).acc,
      sum_of-rows us (tally s).acc,
      sum_of-rows ur (tally s).acc,
      partition s.recv_by_key s.send_by_key,
      tally_sends-Adds s.recv_by_key start s.send_by_key,
      tally_recvs-Adds s.send_by_key (tally_sends s.recv_by_key start s.send_by_key) s.recv_by_key,
    )
