-- ===== src/Timeline/Event.antt =====
-- The canonical event of the visualizers: `TimelineEvent` of internal/traceproc/traceproc.go with the
-- payload types of its `Value` field, and the records of internal/traceproc/dedup.go that it carries.
-- A time in milliseconds is a multiple of a nanosecond, since the tracer's clock counts those: the
-- model keeps the number of nanoseconds. An `int64` or `int` is an integer without wrap-around.
use gtv_final_submission.Prelude.Int.{ℤ, pos}
use gtv_final_submission.Prelude.{ℕ, String, Bool, false, List}

-- A `float64` in milliseconds, counted in nanoseconds.
abbrev pub Millis : Type 0
Millis = ℤ

-- A quotient of two counters.
pub record Rate : Type 0 where
  pub num : ℕ
  pub den : ℕ

pub record DedupAudit : Type 0 where
  pub total : ℕ
  pub dropped : ℕ
  pub dropped_missing_identity : ℕ
  pub dropped_missing_ch_ptr : ℕ
  pub dropped_missing_channel_key : ℕ
  pub dropped_missing_channel : ℕ
  pub dropped_with_identity : ℤ
  pub missing_identity : ℕ
  pub missing_ch_ptr : ℕ
  pub missing_channel_key : ℕ
  pub missing_channel : ℕ
  pub drop_rate : Rate

-- A formatted warning, as the arguments of its format.
pub data Warning : Type 0 where
  drop_rate_exceeds : Rate → Rate → Warning
  missing_pairing_id : String → Millis → Warning

pub record AuditSummary : Type 0 where
  pub dedup : DedupAudit
  pub warnings : List Warning

pub record ChannelUnmatchedAudit : Type 0 where
  pub chan_id : String
  pub unmatched_sends : ℕ
  pub unmatched_recvs : ℕ
  pub matched_pairs : ℕ

pub record UnmatchedTotals : Type 0 where
  pub sends : ℕ
  pub recvs : ℕ
  pub unknown_channel_id : ℕ

-- The dynamic types that the program stores in an `any`; `object` is map[string]any.
mutual
  pub data Value : Type 0 where
    nil : Value
    text : String → Value
    number : ℤ → Value
    millis : Millis → Value
    gids : List ℤ → Value
    texts : List String → Value
    warned : List Warning → Value
    channels : List ChannelUnmatchedAudit → Value
    totals : UnmatchedTotals → Value
    counters : List (String × ℤ) → Value
    durations : List (String × Millis) → Value
    summary : AuditSummary → Value
    deduped : DedupAudit → Value
    object : Fields → Value

  pub data Fields : Type 0 where
    end : Fields
    field : String → Value → Fields → Fields

pub record TimelineEvent : Type 0 where
  pub time_ms : Millis
  pub time_ns : ℤ
  pub event : String
  pub g : ℤ
  pub func : String
  pub file : String
  pub line : ℤ
  pub channel : String
  pub channel_key : String
  pub role : String
  pub value : Value
  pub source : String
  pub seq : ℤ
  pub id : String
  pub attempt_id : String
  pub peer_g : ℤ
  pub pair_id : String
  pub delta_ms : Millis
  pub msg_id : ℕ
  pub reason : String
  pub parent_g : ℤ
  pub capacity : ℤ
  pub elem_type : String
  pub ch_ptr : String
  pub missing_ptr : Bool
  pub block_kind : String
  pub unblock_kind : String
  pub block_cause : String
  pub block_len : ℤ
  pub block_cap : ℤ
  pub channel_id : String
  pub confidence : String
  pub unknown_sender : Bool
  pub unknown_receiver : Bool
  pub unknown_channel : Bool
  pub select_id : String
  pub select_kind : String
  pub select_index : ℤ
  pub dropped : Bool

-- `TimelineEvent{}`: a composite literal names the fields that differ from it.
abbrev pub zero_event : TimelineEvent
zero_event = record {
  time_ms = pos 0;
  time_ns = pos 0;
  event = "";
  g = pos 0;
  func = "";
  file = "";
  line = pos 0;
  channel = "";
  channel_key = "";
  role = "";
  value = nil;
  source = "";
  seq = pos 0;
  id = "";
  attempt_id = "";
  peer_g = pos 0;
  pair_id = "";
  delta_ms = pos 0;
  msg_id = 0;
  reason = "";
  parent_g = pos 0;
  capacity = pos 0;
  elem_type = "";
  ch_ptr = "";
  missing_ptr = false;
  block_kind = "";
  unblock_kind = "";
  block_cause = "";
  block_len = pos 0;
  block_cap = pos 0;
  channel_id = "";
  confidence = "";
  unknown_sender = false;
  unknown_receiver = false;
  unknown_channel = false;
  select_id = "";
  select_kind = "";
  select_index = pos 0;
  dropped = false;
}
