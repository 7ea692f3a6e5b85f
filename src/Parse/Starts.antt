-- ===== src/Parse/Starts.antt =====
-- `ProcessEvent` on a goroutine that is created or started: its events, or the record that holds them
-- back.

use gtv_final_submission.Prelude.Dict.{lookup, insert, or_zero}
use gtv_final_submission.Prelude.Int.{ℤ, pos, int_eq}
use gtv_final_submission.Prelude.{String, true, false, ◌==◌, string_eq, if◌then◌else◌}
use gtv_final_submission.Timeline.{Millis, TimelineEvent, GoroutineFilterMode, zero_event}
use gtv_final_submission.Parse.Goroutines.{
  on_goroutines, mark_goroutine_interested, ensure_role, should_track_goroutine, role_for_name,
}
use gtv_final_submission.Parse.Machine.{
  Callback, M, ◌>>=◌, ◌>>◌, skip, get_state, modify, emit, attempt, inc_audit,
}
use gtv_final_submission.Parse.Select.{new_id, draw_id}
use gtv_final_submission.Parse.State.{ParseState, PendingGoroutine}

-- The frame on top of the stack; its parts are zero where there is none.
pub record Frame : Type 0 where
  pub func : String
  pub file : String
  pub line : ℤ

abbrev pub no_pending : PendingGoroutine
no_pending = record {
  name = "";
  created_at = pos 0;
  started_at = pos 0;
  has_created = false;
  has_started = false;
}

-- The role of a goroutine that is shown and has no other.
abbrev pub fallback_role : GoroutineFilterMode → String
fallback_role GoroutineFilterMode.legacy = "worker"
fallback_role GoroutineFilterMode.all = "unknown"
fallback_role GoroutineFilterMode.ops = "worker"

abbrev pub audit_filtered : GoroutineFilterMode → ParseState → ParseState
audit_filtered GoroutineFilterMode.legacy st = inc_audit "goroutine_lifecycle_filtered_by_name" st
audit_filtered GoroutineFilterMode.all st = st
audit_filtered GoroutineFilterMode.ops st = st

abbrev pub keep_pending : ℤ → (PendingGoroutine → PendingGoroutine) → ParseState → ParseState
keep_pending gid change st = audit_filtered st.opt.goroutine_filter (
    on_goroutines
      (λ gs. record gs {
        pending_goroutines =
            insert gid (change (or_zero no_pending (lookup gid gs.pending_goroutines)))
              gs.pending_goroutines;
      })
      st)

abbrev pub named : Frame → String
named frame = if frame.func == "" then "?" else frame.func

module _ (cb : Callback) (gid : ℤ) (ts : Millis) where
  abbrev pub frame_event : String → Frame → String → TimelineEvent
  frame_event event frame role = record zero_event {
    time_ms = ts;
    event = event;
    g = gid;
    func = named frame;
    file = frame.file;
    line = frame.line;
    role = role;
    source = "state";
  }

  -- The goroutine is shown from now on.
  abbrev pub show_goroutine : Frame → ParseState → ParseState
  show_goroutine frame st =
      ensure_role gid (role_for_name (named frame) (fallback_role st.opt.goroutine_filter))
        (mark_goroutine_interested gid st)

  unfoldable pub step_created : Frame → M (Unit {0})
  step_created frame = do
    st ← get_state
    if should_track_goroutine st.opt.goroutine_filter (named frame)
        then modify (show_goroutine frame)
          >> (get_state >>= λ now.
              emit cb (frame_event "goroutine_created" frame (or_zero "" (lookup gid now.roles))))
        else modify (
            keep_pending gid
              (λ p. record p { name = named frame; created_at = ts; has_created = true }))

  -- The event of the atomic mode.
  unfoldable pub emit_go_start : Frame → M (Unit {0})
  emit_go_start frame = do
    st ← get_state
    modify draw_id
    attempt (
        emit cb (record (frame_event "go_start" frame (or_zero "" (lookup gid st.roles))) {
          id = new_id "g" st;
          parent_g = if named frame == "main.main" then pos 0 else st.last_main_g;
        }))

  unfoldable pub show_started : Frame → M (Unit {0})
  show_started frame = do
    modify (show_goroutine frame)
    st ← get_state
    emit cb (frame_event "goroutine_started" frame (or_zero "" (lookup gid st.roles)))
    if st.opt.emit_atomic then emit_go_start frame else skip

  unfoldable pub step_started : Frame → M (Unit {0})
  step_started frame = do
    st ← get_state
    if should_track_goroutine st.opt.goroutine_filter (named frame)
        then show_started frame
        else modify (
            keep_pending gid
              (λ p. record p { name = named frame; started_at = ts; has_started = true }))
