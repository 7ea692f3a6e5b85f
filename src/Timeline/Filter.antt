-- ===== src/Timeline/Filter.antt =====
-- The modes of traceproc.go: "teach" keeps the events that a lesson needs, under one name for each
-- sort. And the three ways to choose the goroutines that are tracked.
use gtv_final_submission.Prelude.Dict.{Dict, lookup}
use gtv_final_submission.Prelude.Text.{to_lower, trim_space}
use gtv_final_submission.Prelude.{
  String, Bool, true, false, not, Option, none, some, List, [], ◌∷◌, ◌==◌, string_eq, if◌then◌else◌,
}
use gtv_final_submission.Timeline.Event.{TimelineEvent}
use gtv_final_submission.Timeline.Kinds.{one_of}

pub data GoroutineFilterMode : Type 0 where
  ops all legacy : GoroutineFilterMode

unfoldable pub parse_goroutine_filter_mode : String → GoroutineFilterMode
parse_goroutine_filter_mode value =
    let v = to_lower (trim_space value) in
    if one_of ("1" ∷ "legacy" ∷ "true" ∷ "yes" ∷ "on" ∷ []) v
    then legacy
    else if v == "all"
    then all
    else ops

unfoldable pub normalize_mode : String → String
normalize_mode value =
    let v = to_lower (trim_space value) in
    if one_of ("teach" ∷ "teaching" ∷ []) v then "teach" else if v == "debug" then "debug" else ""

-- The low-level variants that would show a communication twice.
abbrev pub dropped_events : List String
dropped_events = "chan_send_commit" ∷ "chan_recv_commit" ∷ "send_complete" ∷ "recv_complete" ∷ []

abbrev pub allow : Dict String String
allow =
    ("goroutine_created", "go_create")
    ∷ ("goroutine_started", "go_start")
    ∷ ("go_create", "go_create")
    ∷ ("go_start", "go_start")
    ∷ ("spawn", "spawn")
    ∷ ("channels_created", "channels_created")
    ∷ ("worker_starting", "worker_starting")
    ∷ ("mutex_lock", "mutex_lock")
    ∷ ("mutex_unlock", "mutex_unlock")
    ∷ ("rwmutex_lock", "rwmutex_lock")
    ∷ ("rwmutex_unlock", "rwmutex_unlock")
    ∷ ("rwmutex_rlock", "rwmutex_rlock")
    ∷ ("rwmutex_runlock", "rwmutex_runlock")
    ∷ ("wg_add", "wg_add")
    ∷ ("wg_done", "wg_done")
    ∷ ("wg_wait", "wg_wait")
    ∷ ("cond_wait", "cond_wait")
    ∷ ("cond_signal", "cond_signal")
    ∷ ("cond_broadcast", "cond_broadcast")
    ∷ ("chan_make", "chan_make")
    ∷ ("chan_send", "chan_send")
    ∷ ("chan_recv", "chan_recv")
    ∷ ("blocked_send", "block_send")
    ∷ ("blocked_receive", "block_recv")
    ∷ ("block_send", "block_send")
    ∷ ("block_recv", "block_recv")
    ∷ ("go_block", "go_block")
    ∷ ("go_unblock", "go_unblock")
    ∷ ("unblock", "unblock")
    ∷ ("unblocked", "unblock")
    ∷ ("select_chosen", "select_chosen")
    ∷ ("audit_summary", "audit_summary")
    ∷ ("warn_quiescence", "warn_quiescence")
    ∷ ("warn_deadlock_cycle", "warn_deadlock_cycle")
    ∷ []

-- The name under which "teach" shows an event, if it does.
unfoldable pub teach_name : String → Option String
teach_name name = if one_of dropped_events name then none else lookup name allow

abbrev pub rename : TimelineEvent → String → Option String → TimelineEvent × Bool × String
rename ev name none = (ev, false, name)
rename ev name (some mapped) = (record ev { event = mapped }, true, "")

-- The event, whether it is kept, and the name under which its loss is counted.
unfoldable pub filter_timeline_event_for_mode :
    TimelineEvent → String → TimelineEvent × Bool × String
filter_timeline_event_for_mode ev mode =
    let name = to_lower ev.event in
    if not (normalize_mode mode == "teach")
    then (ev, true, "")
    else rename ev name (teach_name name)
