-- ===== src/Dedup.antt =====
-- internal/traceproc/dedup.go: the removal of repeated emissions, with its counters.
pub mod Order
pub mod Counters
use Prim.Native.String.{◌++◌}
use mathlib.Core.List.{◌++◌ as append}
use gtv_final_submission.Prelude.Dict.{Dict, lookup, insert, is_some}
use gtv_final_submission.Prelude.Int.{ℤ, pos, negsuc, sub_ℕ, int_eq}
use gtv_final_submission.Prelude.Text.{show_ℤ}
use gtv_final_submission.Prelude.{
  ℕ, suc, ◌*◌, String, Bool, ◌&&◌, ◌||◌, not, List, [], ◌∷◌, ◌==◌, nat_eq, string_eq, leb, ltb,
  if◌then◌else◌, length,
}
use gtv_final_submission.Timeline.{
  Millis, Rate, Value, Warning, DedupAudit, AuditSummary, TimelineEvent, zero_event, summary,
  drop_rate_exceeds,
}
use gtv_final_submission.Topology.{normalize_pointer, normalize_channel_key}

-- `int64(ms*1e6 + 0.5)`: a conversion truncates towards zero.
abbrev pub round_ns : Millis → ℤ
round_ns (pos n) = pos n
round_ns (negsuc n) = sub_ℕ 0 n

unfoldable pub time_ns_or_ms : TimelineEvent → ℤ
time_ns_or_ms ev = if ev.time_ns == pos 0 then round_ns ev.time_ms else ev.time_ns

unfoldable pub dedup_identity : String → String → String → String
dedup_identity ch_ptr ch_key ch_name =
    if not (ch_ptr == "") then ch_ptr else if not (ch_key == "") then ch_key else ch_name

-- The parts of an event that the loop computes: three names of its channel, and the identity.
abbrev pub ptr_of : TimelineEvent → String
ptr_of ev = normalize_pointer ev.ch_ptr

abbrev pub key_of : TimelineEvent → String
key_of ev = normalize_channel_key ev.channel_key

abbrev pub name_of : TimelineEvent → String
name_of ev = normalize_channel_key ev.channel

abbrev pub identity_of : TimelineEvent → String
identity_of ev = dedup_identity (ptr_of ev) (key_of ev) (name_of ev)

unfoldable pub attempt_of : TimelineEvent → String
attempt_of ev =
    if (ev.attempt_id == "")
      && ((ev.event == "chan_send_attempt") || (ev.event == "chan_recv_attempt"))
    then ev.id
    else ev.attempt_id

unfoldable pub key_identity : TimelineEvent → String
key_identity ev =
    if identity_of ev == ""
    then "unknown:" ++ show_ℤ ev.g ++ ":" ++ show_ℤ ev.seq
    else identity_of ev

-- "%d|%d|%s|%s|%s"
unfoldable pub dedup_key : TimelineEvent → String
dedup_key ev =
    show_ℤ (time_ns_or_ms ev)
    ++ "|"
    ++ show_ℤ ev.g
    ++ "|"
    ++ key_identity ev
    ++ "|"
    ++ ev.event
    ++ "|"
    ++ attempt_of ev

abbrev pub count_if : Bool → ℕ → ℕ
count_if b n = if b then suc n else n

-- The counters of every event, and those of an event that is dropped.
unfoldable pub note_missing : TimelineEvent → DedupAudit → DedupAudit
note_missing ev a = record a {
  missing_ch_ptr = count_if (ptr_of ev == "") a.missing_ch_ptr;
  missing_channel_key = count_if (key_of ev == "") a.missing_channel_key;
  missing_channel = count_if (name_of ev == "") a.missing_channel;
  missing_identity = count_if (identity_of ev == "") a.missing_identity;
}

unfoldable pub note_dropped : TimelineEvent → DedupAudit → DedupAudit
note_dropped ev a = record a {
  dropped = suc a.dropped;
  dropped_missing_identity = count_if (identity_of ev == "") a.dropped_missing_identity;
  dropped_missing_ch_ptr = count_if (ptr_of ev == "") a.dropped_missing_ch_ptr;
  dropped_missing_channel_key = count_if (key_of ev == "") a.dropped_missing_channel_key;
  dropped_missing_channel = count_if (name_of ev == "") a.dropped_missing_channel;
}

abbrev pub Seen : Type 0
Seen = Dict String (Unit {0})

-- The loop: what it appends to `out`, and the counters at its end.
unfoldable pub dedup_from : Seen → DedupAudit → List TimelineEvent → List TimelineEvent × DedupAudit
dedup_from seen audit [] = ([], audit)
dedup_from seen audit (ev ∷ evs) =
    let a = note_missing ev audit in
    let drop = dedup_from seen (note_dropped ev a) evs in
    let keep = dedup_from (insert (dedup_key ev) tt seen) a evs in
    if is_some (lookup (dedup_key ev) seen) then drop else (ev ∷ keep.0, keep.1)

abbrev pub zero_audit : DedupAudit
zero_audit = record {
  total = 0;
  dropped = 0;
  dropped_missing_identity = 0;
  dropped_missing_ch_ptr = 0;
  dropped_missing_channel_key = 0;
  dropped_missing_channel = 0;
  dropped_with_identity = pos 0;
  missing_identity = 0;
  missing_ch_ptr = 0;
  missing_channel_key = 0;
  missing_channel = 0;
  drop_rate = record { num = 0; den = 1 };
}

-- The two fields that are set behind the loop; the rate stays 0 for an empty timeline.
unfoldable pub finish_audit : DedupAudit → DedupAudit
finish_audit a = record a {
  dropped_with_identity = sub_ℕ a.dropped a.dropped_missing_identity;
  drop_rate = if ltb 0 a.total then record { num = a.dropped; den = a.total } else a.drop_rate;
}

unfoldable pub dedup_timeline : List TimelineEvent → List TimelineEvent × DedupAudit
unfolding dedup_from finish_audit note_missing note_dropped
dedup_timeline evs =
    let r = dedup_from [] (record zero_audit { total = length evs }) evs in (r.0, finish_audit r.1)

abbrev pub warn_rate : Rate
warn_rate = record { num = 1; den = 100 }

abbrev pub at_least : Rate → Rate → Bool
at_least a b = leb (b.num * a.den) (a.num * b.den)

abbrev pub last_time : List TimelineEvent → Millis
last_time [] = pos 0
last_time (ev ∷ []) = ev.time_ms
last_time (ev ∷ ev' ∷ evs) = last_time (ev' ∷ evs)

rate_warnings : DedupAudit → List Warning
rate_warnings audit =
    if at_least audit.drop_rate warn_rate && ltb 0 audit.dropped
    then drop_rate_exceeds audit.drop_rate warn_rate ∷ []
    else []

unfoldable pub append_audit_summary : List TimelineEvent → DedupAudit → List TimelineEvent
unfolding rate_warnings
append_audit_summary events audit =
    if audit.total == 0
    then events
    else append events (
        record zero_event {
          time_ms = last_time events;
          event = "audit_summary";
          role = "system";
          source = "audit";
          value = summary (record { dedup = audit; warnings = rate_warnings audit });
        }
        ∷ [])
