-- ===== src/Unmatched.antt =====
-- internal/traceproc/audit_unmatched.go: the sends and receives of a final timeline that have no
-- counterpart, counted for each channel.
pub mod Totals
pub mod Sums
pub mod Entries
pub mod Merge
use Prim.Native.Nat.{Ordering}
use Prim.Native.String
use Prim.Native.String.{◌++◌}
use mathlib.Core.List.{◌++◌ as append}
use gtv_final_submission.Prelude.Dict.{Dict, lookup, insert, is_some, or_zero}
use gtv_final_submission.Prelude.Int.{ℤ}
use gtv_final_submission.Prelude.Text.{to_lower, show_ℕ}
use gtv_final_submission.Prelude.{
  ℕ, suc, String, Bool, true, false, not, ◌&&◌, ◌||◌, Option, none, some, List, [], ◌∷◌, ◌==◌,
  nat_eq, string_eq, if◌then◌else◌,
}
use gtv_final_submission.Timeline.{
  Value, Fields, Warning, ChannelUnmatchedAudit, UnmatchedTotals, TimelineEvent, zero_event, end,
  field, object, channels, totals, warned, counters, number, missing_pairing_id,
}
use gtv_final_submission.Dedup.{last_time}

abbrev pub equal_fold : String → String → Bool
equal_fold s t = to_lower s == to_lower t

unfoldable pub is_paired_channel_event : TimelineEvent → Bool
is_paired_channel_event ev =
    ((ev.event == "chan_send") || (ev.event == "chan_recv"))
    && (equal_fold ev.source "paired"
        || (not (ev.attempt_id == "") || (not (ev.pair_id == "") || not (ev.msg_id == 0))))

unfoldable pub channel_identity_for_audit : TimelineEvent → String
channel_identity_for_audit ev = if not (ev.channel_key == "") then ev.channel_key else ev.channel

unfoldable pub msg_key_for_audit : TimelineEvent → String
msg_key_for_audit ev =
    if not (ev.msg_id == 0)
    then "msg:" ++ show_ℕ ev.msg_id
    else if not (ev.pair_id == "")
    then "pair:" ++ ev.pair_id
    else ""

-- The variables of the first loop.
pub record Scan : Type 0 where
  pub send_by_key : Dict String String
  pub recv_by_key : Dict String String
  pub unknown_channel_id : ℕ
  pub warnings : List Warning

-- A round of the loop over the events, from `chID == ""` on.
scan_paired : Scan → TimelineEvent → Scan
scan_paired s ev =
    let ch = channel_identity_for_audit ev in
    let key = msg_key_for_audit ev in
    let t = record s {
      unknown_channel_id = if ch == "" then suc s.unknown_channel_id else s.unknown_channel_id;
    } in
    if key == ""
    then (if equal_fold ev.source "paired" then t else record t {
      warnings = append t.warnings (missing_pairing_id ev.event ev.time_ms ∷ []);
    })
    else if ev.event == "chan_send"
    then record t { send_by_key = insert key ch t.send_by_key }
    else record t { recv_by_key = insert key ch t.recv_by_key }

unfoldable pub scan_event : Scan → TimelineEvent → Scan
unfolding scan_paired
scan_event s ev = if is_paired_channel_event ev then scan_paired s ev else s

unfoldable pub scan_events : Scan → List TimelineEvent → Scan
scan_events s [] = s
scan_events s (ev ∷ evs) = scan_events (scan_event s ev) evs

abbrev pub zero_scan : Scan
zero_scan = record { send_by_key = []; recv_by_key = []; unknown_channel_id = 0; warnings = [] }

-- The variables of the loops over the keys.
pub record Tally : Type 0 where
  pub acc : Dict String ChannelUnmatchedAudit
  pub sends : ℕ
  pub recvs : ℕ

abbrev pub entry_of : String → Dict String ChannelUnmatchedAudit → ChannelUnmatchedAudit
entry_of ch acc =
    or_zero (record { chan_id = ch; unmatched_sends = 0; unmatched_recvs = 0; matched_pairs = 0 })
      (lookup ch acc)

abbrev pub put : String → ChannelUnmatchedAudit → Tally → Tally
put ch entry t = record t { acc = insert ch entry t.acc }

unfoldable pub tally_send : Dict String String → Tally → String × String → Tally
tally_send recvs t (key, ch) =
    let e = entry_of ch t.acc in
    let more = record t { sends = suc t.sends } in
    if ch == ""
    then more
    else if not (or_zero "" (lookup key recvs) == "")
    then put ch (record e { matched_pairs = suc e.matched_pairs }) t
    else put ch (record e { unmatched_sends = suc e.unmatched_sends }) more

unfoldable pub tally_sends : Dict String String → Tally → Dict String String → Tally
tally_sends recvs t [] = t
tally_sends recvs t (kv ∷ kvs) = tally_sends recvs (tally_send recvs t kv) kvs

unfoldable pub tally_recv : Dict String String → Tally → String × String → Tally
tally_recv sends t (key, ch) =
    let e = entry_of ch t.acc in
    let more = record t { recvs = suc t.recvs } in
    if is_some (lookup key sends)
    then t
    else if ch == ""
    then more
    else put ch (record e { unmatched_recvs = suc e.unmatched_recvs }) more

unfoldable pub tally_recvs : Dict String String → Tally → Dict String String → Tally
tally_recvs sends t [] = t
tally_recvs sends t (kv ∷ kvs) = tally_recvs sends (tally_recv sends t kv) kvs

-- sort.Strings on the keys, with each entry beside its key.
abbrev pub text_leb : String → String → Bool
text_leb a b = elim (Prim.Native.String.compare a b) [ Ordering.gt ↦ false | _ ↦ true ]

unfoldable pub insert_sorted :
    String × ChannelUnmatchedAudit
    → Dict String ChannelUnmatchedAudit
    → Dict String ChannelUnmatchedAudit
insert_sorted (k, e) [] = (k, e) ∷ []
insert_sorted (k, e) ((j, d) ∷ m) =
    if text_leb k j then (k, e) ∷ (j, d) ∷ m else (j, d) ∷ insert_sorted (k, e) m

unfoldable pub sort_keys : Dict String ChannelUnmatchedAudit → Dict String ChannelUnmatchedAudit
unfolding insert_sorted
sort_keys [] = []
sort_keys (ke ∷ m) = insert_sorted ke (sort_keys m)

abbrev pub entries : Dict String ChannelUnmatchedAudit → List ChannelUnmatchedAudit
entries [] = []
entries ((k, e) ∷ m) = e ∷ entries m

abbrev pub tally : Scan → Tally
tally s =
    tally_recvs s.send_by_key
      (tally_sends s.recv_by_key (record { acc = []; sends = 0; recvs = 0 }) s.send_by_key)
      s.recv_by_key

unfoldable pub compute_unmatched_audit_from_events :
    List TimelineEvent → List ChannelUnmatchedAudit × UnmatchedTotals × List Warning
unfolding scan_events tally_sends tally_recvs sort_keys
compute_unmatched_audit_from_events events =
    let s = scan_events zero_scan events in
    let t = tally s in
    (
      entries (sort_keys t.acc),
      record { sends = t.sends; recvs = t.recvs; unknown_channel_id = s.unknown_channel_id },
      s.warnings,
    )

-- The assignments to a map[string]any, in the order of the code.
unfoldable pub set_field : String → Value → Fields → Fields
set_field k v end = field k v end
set_field k v (field j w fs) =
    let rest = set_field k v fs in if j == k then field k v fs else field j w rest

abbrev pub is_empty : List Warning → Bool
is_empty [] = true
is_empty (w ∷ ws) = false

abbrev pub add_warnings : List Warning → Fields → Fields
add_warnings [] fs = fs
add_warnings (w ∷ ws) fs = set_field "warnings" (warned (w ∷ ws)) fs

abbrev pub payload : List ChannelUnmatchedAudit → UnmatchedTotals → List Warning → Fields → Fields
payload by tot ws fs =
    add_warnings ws (
      set_field "unmatched_totals" (totals tot) (set_field "unmatched_by_channel" (channels by) fs))

abbrev pub counter_fields : Dict String ℤ → Fields
counter_fields [] = end
counter_fields ((k, n) ∷ m) = field k (number n) (counter_fields m)

-- The switch on the dynamic type of the summary's value.
unfoldable pub merge_value :
    List ChannelUnmatchedAudit → UnmatchedTotals → List Warning → Value → Value
unfolding set_field
merge_value by tot ws (object fs) = object (payload by tot ws fs)
merge_value by tot ws (counters m) = object (payload by tot ws (counter_fields m))
merge_value by tot ws v = object (payload by tot ws (field "summary" v end))

-- The loop from the end: the last summary is rewritten, if there is one.
unfoldable pub merge_last : (Value → Value) → List TimelineEvent → Option (List TimelineEvent)
merge_last f [] = none
merge_last f (ev ∷ evs) = elim (merge_last f evs) [
  | some evs' ↦ some (ev ∷ evs')
  | none ↦
      if ev.event == "audit_summary" then some (record ev { value = f ev.value } ∷ evs) else none
]

abbrev pub nothing_unmatched : List ChannelUnmatchedAudit → UnmatchedTotals → Bool
nothing_unmatched [] tot = (tot.sends == 0) && ((tot.recvs == 0) && (tot.unknown_channel_id == 0))
nothing_unmatched (e ∷ es) tot = false

unfoldable pub merge_unmatched_audit_into_summary :
    List TimelineEvent
    → List ChannelUnmatchedAudit
    → UnmatchedTotals
    → List Warning
    → List TimelineEvent
unfolding merge_last merge_value
merge_unmatched_audit_into_summary events by tot ws =
    if nothing_unmatched by tot then events else elim (merge_last (merge_value by tot ws) events) [
      | some events' ↦ events'
      | none ↦ append events (
          record zero_event {
            time_ms = last_time events;
            event = "audit_summary";
            source = "audit";
            value = object (payload by tot ws end);
          }
          ∷ [])
    ]
