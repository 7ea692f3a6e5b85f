-- ===== src/Parse/Step.antt =====
-- `ProcessEvent` on the events of a region and on the transitions of a goroutine's state. The
-- decoded trace is a parameter: an event comes as its goroutine, its time and its parts.

use gtv_final_submission.Prelude.Dict.{lookup, insert, or_zero}
use gtv_final_submission.Prelude.Int.{ℤ, pos, int_eq, ◌+ℤ◌}
use gtv_final_submission.Prelude.Text.{starts_with, to_lower}
use gtv_final_submission.Prelude.{
  String, Bool, false, ◌||◌, none, some, ◌==◌, string_eq, if◌then◌else◌,
}
use gtv_final_submission.Timeline.{Millis, TimelineEvent}
use gtv_final_submission.Parse.Begin.{handle_region_begin}
use gtv_final_submission.Parse.Blocking.{handle_waiting, handle_runnable}
use gtv_final_submission.Parse.Commit.{handle_region_end}
use gtv_final_submission.Parse.Helpers.{note_unparsed_region, is_sync_wait_kind}
use gtv_final_submission.Parse.Machine.{
  Callback, M, ◌>>=◌, ◌>>◌, skip, get_state, modify, attempt, inc_audit,
}
use gtv_final_submission.Parse.Region.{RegionOp, parse_region_op}
use gtv_final_submission.Parse.Starts.{Frame, step_created, step_started}
use gtv_final_submission.Parse.State.{ParseState, Op, Attempt}
use gtv_final_submission.Parse.SyncWait.{clear_sync_wait_candidate}

-- The states of a goroutine that the program tells apart.
pub data GoState : Type 0 where
  not_exist : GoState
  runnable : GoState
  running : GoState
  waiting : GoState
  other : GoState

abbrev pub note_unparsed : String → ParseState → ParseState
note_unparsed typ st =
    if starts_with (to_lower typ) "goroutine:"
    then st
    else note_unparsed_region typ (inc_audit "unparsed_region_op" st)

-- The operation that ends where the region does not name it: the attempt has its channel.
abbrev pub fallback_op : Op → Attempt → Op
fallback_op op att = record op {
  ch = if op.ch == "" then att.ch else op.ch;
  ptr = if op.ptr == "" then att.ptr else op.ptr;
}

abbrev pub region_kind : RegionOp → String
region_kind none = ""
region_kind (some (kind, ch)) = kind

abbrev pub is_known_as : String → RegionOp → Bool
is_known_as kind none = false
is_known_as kind (some (k, ch)) = k == kind

abbrev pub ends_wait : RegionOp → Bool
ends_wait none = false
ends_wait (some (kind, ch)) = is_sync_wait_kind kind || starts_with kind "cond_"

module _ (cb : Callback) (gid : ℤ) (ts : Millis) where
  unfoldable pub step_region_begin : String → M (Unit {0})
  step_region_begin typ = do
    st ← get_state
    elim (parse_region_op typ) [
      | none ↦ modify (note_unparsed typ)
      | some (kind, ch) ↦
          attempt (handle_region_begin cb gid (or_zero "" (lookup gid st.roles)) ts kind ch)
    ]

  -- A region that does not name the operation that is active ends that of the attempt.
  unfoldable pub end_fallback : Op → M (Unit {0})
  end_fallback op = do
    st ← get_state
    elim (lookup gid st.attempts_by_g) [
      | none ↦ skip
      | some att ↦
          handle_region_end cb gid (or_zero "" (lookup gid st.roles)) ts att.kind
            (fallback_op op att)
    ]

  abbrev end_active_region : String → Op → M (Unit {0})
  end_active_region typ op = do
    st ← get_state
    if is_known_as op.kind (parse_region_op typ)
        then handle_region_end cb gid (or_zero "" (lookup gid st.roles)) ts op.kind op
        else modify (note_unparsed typ) >> (if st.opt.emit_atomic then end_fallback op else skip)

  unfoldable pub step_region_end : String → M (Unit {0})
  step_region_end typ = do
    let rop = parse_region_op typ
    if ends_wait rop then modify (clear_sync_wait_candidate gid (region_kind rop)) else skip
    st ← get_state
    elim (lookup gid st.active) [ none ↦ skip | some op ↦ end_active_region typ op ]

  -- A transition between two states, with the window of the environment and the runtime's reason.
  unfoldable pub step_transition : Millis → Frame → String → GoState → GoState → M (Unit {0})
  step_transition window frame reason not_exist runnable = step_created cb gid ts frame
  step_transition window frame reason not_exist waiting = step_created cb gid ts frame
  step_transition window frame reason runnable running = step_started cb gid ts frame
  step_transition window frame reason runnable waiting = handle_waiting cb window gid ts reason
  step_transition window frame reason running waiting = handle_waiting cb window gid ts reason
  step_transition window frame reason waiting waiting = handle_waiting cb window gid ts reason
  step_transition window frame reason other waiting = handle_waiting cb window gid ts reason
  step_transition window frame reason waiting runnable = handle_runnable cb window gid ts reason
  step_transition window frame reason not_exist not_exist = skip
  step_transition window frame reason not_exist running = skip
  step_transition window frame reason not_exist other = skip
  step_transition window frame reason runnable not_exist = skip
  step_transition window frame reason runnable runnable = skip
  step_transition window frame reason runnable other = skip
  step_transition window frame reason running not_exist = skip
  step_transition window frame reason running runnable = skip
  step_transition window frame reason running running = skip
  step_transition window frame reason running other = skip
  step_transition window frame reason waiting not_exist = skip
  step_transition window frame reason waiting running = skip
  step_transition window frame reason waiting other = skip
  step_transition window frame reason other not_exist = skip
  step_transition window frame reason other runnable = skip
  step_transition window frame reason other running = skip
  step_transition window frame reason other other = skip

-- An event of the trace, the messages of the log aside: a transition has the goroutine it is about.
pub data TraceEvent : Type 0 where
  region_begin : String → TraceEvent
  region_end : String → TraceEvent
  transition : ℤ → Frame → String → GoState → GoState → TraceEvent

unfoldable pub note_event : ℤ → Millis → ParseState → ParseState
note_event gid ts st = record st {
  last_time_ms = ts;
  last_time_ns = ts;
  blocking = record st.blocking {
    last_progress_ms = if st.last_progress_ms == pos 0 then ts else st.last_progress_ms;
  };
  channel_names = record st.channel_names {
    event_index_by_g =
        insert gid (or_zero (pos 0) (lookup gid st.event_index_by_g) +ℤ pos 1) st.event_index_by_g;
  };
}

-- The wrapper around the callback: every event has a time in nanoseconds, a number, and says
-- whether its pointer is missing.
abbrev pub stamp : Millis → ℤ → TimelineEvent → TimelineEvent
stamp ts seq ev = record ev {
  time_ns = if ev.time_ns == pos 0 then ts else ev.time_ns;
  seq = if ev.seq == pos 0 then seq else ev.seq;
  missing_ptr = ev.ch_ptr == "";
}

abbrev pub stamping : Callback → ℤ → Millis → ParseState → Callback
stamping cb gid ts st = record cb {
  wrap = λ ev. cb.wrap (stamp ts (or_zero (pos 0) (lookup gid st.event_index_by_g)) ev);
}

abbrev pub step_event : Callback → Millis → ℤ → Millis → TraceEvent → M (Unit {0})
step_event cb window gid ts (region_begin typ) = step_region_begin cb gid ts typ
step_event cb window gid ts (region_end typ) = step_region_end cb gid ts typ
step_event cb window gid ts (transition g frame reason old new) =
    step_transition cb g ts window frame reason old new

-- The goroutine is the one that the event happened on.
unfoldable pub process_event : Callback → Millis → ℤ → Millis → TraceEvent → M (Unit {0})
process_event cb window gid ts e = do
  modify (note_event gid ts)
  st ← get_state
  step_event (stamping cb gid ts st) window gid ts e
