-- ===== src/Parse/State.antt =====
-- `ParseState`: the state of one parser, its fields in groups by what they are for. The fields on
-- the debug output of the environment are left out.
use gtv_final_submission.Prelude.Dict.{Dict}
use gtv_final_submission.Prelude.Int.{ℤ, pos}
use gtv_final_submission.Prelude.{ℕ, String, Bool, false, Option, none, List, []}
use gtv_final_submission.Timeline.{Millis, Fields, GoroutineFilterMode}

pub record Options : Type 0 where
  pub synth_on_recv : Bool
  pub drop_block_no_ch : Bool
  pub emit_atomic : Bool
  pub mode : String
  pub goroutine_filter : GoroutineFilterMode

-- A region of a goroutine that is, or was, a channel operation.
pub record Op : Type 0 where
  pub kind : String
  pub ch : String
  pub ptr : String
  pub time : Millis

pub record SelectCaseInfo : Type 0 where
  pub kind : String
  pub ch_ptr : String
  pub ch_key : String
  pub ch_name : String
  pub role : String
  pub g : ℤ
  pub time_ns : ℤ
  pub index : ℤ

-- A logical channel; the client is -1 if it is not one per client.
pub record ChKey : Type 0 where
  pub name : String
  pub client_id : ℤ

pub record SendRecord : Type 0 where
  pub time_ms : Millis
  pub g : ℤ
  pub role : String
  pub ptr : String
  pub msg_id : ℕ

pub record PendingRecvRecord : Type 0 where
  pub time_ms : Millis
  pub g : ℤ
  pub role : String
  pub ch : String
  pub ptr : String

pub record LastOpInfo : Type 0 where
  pub g : ℤ
  pub time_ms : Millis

pub record SyncWaitCandidate : Type 0 where
  pub kind : String
  pub channel : String
  pub channel_key : String
  pub start_ms : Millis

pub record PendingGoroutine : Type 0 where
  pub name : String
  pub created_at : Millis
  pub started_at : Millis
  pub has_created : Bool
  pub has_started : Bool

pub record Attempt : Type 0 where
  pub id : String
  pub ch : String
  pub kind : String
  pub ptr : String
  pub time : Millis

pub record AttemptInfo : Type 0 where
  pub g : ℤ
  pub ch : ChKey
  pub kind : String
  pub time : Millis
  pub ptr : String

pub record BlockedInfo : Type 0 where
  pub reason : String
  pub ch : String
  pub channel_id : String
  pub confidence : String

-- Which goroutines are shown, and their roles.
pub record Goroutines : Type 0 where
  pub roles : Dict ℤ String
  pub interested : Dict ℤ (Unit {0})
  pub pending_goroutines : Dict ℤ PendingGoroutine
  pub pending_goroutines_audited : Bool
  pub last_main_g : ℤ
  pub last_worker_g : ℤ
  pub last_server_g : ℤ
  pub last_client_g : ℤ

-- The queues that pair a send with a receive, and what they have paired.
pub record Pairing : Type 0 where
  pub sends_by_key : Dict String (List SendRecord)
  pub pending_select_recv : Dict String ℕ
  pub pending_recv_by_key : Dict String (List PendingRecvRecord)
  pub unmatched_recv_by_channel : Dict String ℕ
  pub matched_pairs_by_channel : Dict String ℕ
  pub unknown_channel_id : ℕ
  pub next_msg_id : ℕ

-- The attempts and commits of the atomic mode, and the depth of the buffers.
pub record Attempts : Type 0 where
  pub next_id : ℕ
  pub active_attempt : Dict ℤ String
  pub attempts_by_g : Dict ℤ Attempt
  pub att_by_id : Dict String AttemptInfo
  pub snd_att_q : Dict String (List String)
  pub rcv_att_q : Dict String (List String)
  pub cap_by_ptr : Dict String ℤ
  pub depth_by_ptr : Dict String ℤ
  pub buf_sends : Dict String (Dict String Bool)

-- Who is blocked, since when, and for how long in all.
pub record Blocking : Type 0 where
  pub blocked : Dict ℤ BlockedInfo
  pub blocked_at : Dict ℤ Millis
  pub blocked_reason_by_g : Dict ℤ String
  pub blocked_total_ms : Dict ℤ Millis
  pub blocked_total_by_reason : Dict String Millis
  pub last_progress_ms : Millis
  pub sync_wait_candidate_by_g : Dict ℤ SyncWaitCandidate

pub record Selects : Type 0 where
  pub active_select : Dict ℤ String
  pub sel_candidates : Dict String (List String)
  pub sel_chosen : Dict String String
  pub sel_chosen_idx : Dict String ℤ
  pub sel_pending : Dict String Bool
  pub select_fallback : Dict ℤ String
  pub select_cases : Dict String (List SelectCaseInfo)
  pub select_emitted : Dict String Bool
  pub select_meta : Dict String (ℤ × ℤ)
  pub last_select_chosen_by_g : Dict ℤ SelectCaseInfo
  pub last_select_chosen_seq_by_g : Dict ℤ ℤ

-- What the logs said of the channel that a goroutine uses next.
pub record ChannelNames : Type 0 where
  pub last_ch_ptr_by_g : Dict ℤ String
  pub last_ch_ptr_seq_by_g : Dict ℤ ℤ
  pub last_ch_name_by_g : Dict ℤ String
  pub last_ch_name_seq_by_g : Dict ℤ ℤ
  pub channel_name_by_ptr : Dict String String
  pub event_index_by_g : Dict ℤ ℤ

-- The last operations on a channel, for the search for a deadlock.
pub record Activity : Type 0 where
  pub last_send_by_channel : Dict String LastOpInfo
  pub last_recv_by_channel : Dict String LastOpInfo
  pub deadlock_cycle : Option Fields

pub record ParseState : Type 0 where
  pub opt : Options
  pub active : Dict ℤ Op
  pub last : Dict ℤ Op
  pub goroutines : Goroutines
  pub open goroutines use *
  pub audit_counts : Dict String ℕ
  pub last_time_ms : Millis
  pub last_time_ns : ℤ
  pub has_send : Dict (String × String) Bool
  pub pairing : Pairing
  pub open pairing use *
  pub last_value : Dict ℤ String
  pub attempts : Attempts
  pub open attempts use *
  pub blocking : Blocking
  pub open blocking use *
  pub spawn_parent_by_sid : Dict String ℤ
  pub selects : Selects
  pub open selects use *
  pub channel_names : ChannelNames
  pub open channel_names use *
  pub unparsed_region_samples : List String
  pub activity : Activity
  pub open activity use *

-- The message ids begin at 1: 0 is the id of an event without one.
unfoldable pub new_parse_state : Options → ParseState
new_parse_state opt = record {
  opt = opt;
  active = [];
  last = [];
  goroutines = record {
    roles = [];
    interested = [];
    pending_goroutines = [];
    pending_goroutines_audited = false;
    last_main_g = pos 0;
    last_worker_g = pos 0;
    last_server_g = pos 0;
    last_client_g = pos 0;
  };
  audit_counts = [];
  last_time_ms = pos 0;
  last_time_ns = pos 0;
  has_send = [];
  pairing = record {
    sends_by_key = [];
    pending_select_recv = [];
    pending_recv_by_key = [];
    unmatched_recv_by_channel = [];
    matched_pairs_by_channel = [];
    unknown_channel_id = 0;
    next_msg_id = 1;
  };
  last_value = [];
  attempts = record {
    next_id = 0;
    active_attempt = [];
    attempts_by_g = [];
    att_by_id = [];
    snd_att_q = [];
    rcv_att_q = [];
    cap_by_ptr = [];
    depth_by_ptr = [];
    buf_sends = [];
  };
  blocking = record {
    blocked = [];
    blocked_at = [];
    blocked_reason_by_g = [];
    blocked_total_ms = [];
    blocked_total_by_reason = [];
    last_progress_ms = pos 0;
    sync_wait_candidate_by_g = [];
  };
  spawn_parent_by_sid = [];
  selects = record {
    active_select = [];
    sel_candidates = [];
    sel_chosen = [];
    sel_chosen_idx = [];
    sel_pending = [];
    select_fallback = [];
    select_cases = [];
    select_emitted = [];
    select_meta = [];
    last_select_chosen_by_g = [];
    last_select_chosen_seq_by_g = [];
  };
  channel_names = record {
    last_ch_ptr_by_g = [];
    last_ch_ptr_seq_by_g = [];
    last_ch_name_by_g = [];
    last_ch_name_seq_by_g = [];
    channel_name_by_ptr = [];
    event_index_by_g = [];
  };
  unparsed_region_samples = [];
  activity = record { last_send_by_channel = []; last_recv_by_channel = []; deadlock_cycle = none };
}
