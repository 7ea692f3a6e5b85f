-- ===== src/Tests/Lifecycle.antt =====
-- The theorems on the small operations of the parse state, at concrete states.
use gtv_final_submission.Prelude.Dict.{lookup, or_zero}
use gtv_final_submission.Prelude.Int.{pos, int_eq, ◌+ℤ◌, ◌-ℤ◌}
use gtv_final_submission.Prelude.{true, none, some, [], ◌∷◌, ◌≡◌, refl, arith, if◌then◌else◌}
use gtv_final_submission.Parse.Finalize.{
  keep_goroutine, finalize_pending_goroutines, finalize_once, keep_goroutine_role,
}
use gtv_final_submission.Parse.Fresh.{
  consume_fresh_ch_ptr, consume_fresh_ch_name, peek_fresh_ch_ptr, peek_fresh_ch_name, consume_once,
}
use gtv_final_submission.Parse.Goroutines.{
  IsSilent, activate_goroutine_from_op, activate_goroutine_from_op-IsSilent,
}
use gtv_final_submission.Parse.Helpers.{
  IsCause, block_cause_for, block_cause_for_sound, is_sync_wait_kind,
  sync_wait_kind_from_runtime_reason,
}
use gtv_final_submission.Parse.Machine.{Machine, done}
use gtv_final_submission.Parse.BlockTime.{IsFree, block_time_counted, handle_runnable_frees}
use gtv_final_submission.Parse.Blocking.{keep_blocked, settle_block, handle_runnable}
use gtv_final_submission.Parse.State.{ParseState, BlockedInfo, Op, new_parse_state}
use gtv_final_submission.Parse.Commit.{handle_region_end}
use gtv_final_submission.Parse.Commit.Depth.{IsWithin}
use gtv_final_submission.Parse.Commit.Bounds.{handle_region_end-IsWithin}
use gtv_final_submission.Parse.SyncWait.{
  set_sync_wait_candidate, clear_sync_wait_candidate, infer_sync_wait_context, sync_wait_roundtrip,
}
use gtv_final_submission.Tests.{accepting, options}

-- Goroutine 7 has logged a channel and waits with both its events; the buffer of its channel is full.
abbrev busy : ParseState
busy = record (new_parse_state options) {
  goroutines = record (new_parse_state options).goroutines {
    pending_goroutines =
        (
          pos 7,
          record {
            name = "main.main";
            created_at = pos 1;
            started_at = pos 2;
            has_created = true;
            has_started = true;
          },
        )
        ∷ [];
  };
  attempts = record (new_parse_state options).attempts {
    cap_by_ptr = ("0x1", pos 2) ∷ [];
    depth_by_ptr = ("0x1", pos 2) ∷ [];
  };
  channel_names = record (new_parse_state options).channel_names {
    last_ch_ptr_by_g = (pos 7, "0x1") ∷ [];
    last_ch_ptr_seq_by_g = (pos 7, pos 3) ∷ [];
    last_ch_name_by_g = (pos 7, "jobs") ∷ [];
    last_ch_name_seq_by_g = (pos 7, pos 4) ∷ [];
    event_index_by_g = (pos 7, pos 5) ∷ [];
  };
}

consume_once_example :
    let p = consume_fresh_ch_ptr (pos 7) busy in
    let q = consume_fresh_ch_name (pos 7) busy in
    (p.0 ≡ peek_fresh_ch_ptr (pos 7) busy)
    × (q.0 ≡ peek_fresh_ch_name (pos 7) busy)
    × (lookup (pos 7) p.1.last_ch_ptr_by_g ≡ none)
    × (lookup (pos 7) q.1.last_ch_name_by_g ≡ none)
    × (peek_fresh_ch_ptr (pos 7) p.1 ≡ "")
    × (peek_fresh_ch_name (pos 7) q.1 ≡ "")
consume_once_example = consume_once (pos 7) busy

-- Goroutine 7 is blocked on "jobs" at 5, and goes on at 9.
abbrev on_jobs : BlockedInfo
on_jobs = record { reason = "send"; ch = "jobs"; channel_id = "0x1"; confidence = "high" }

block_time_counted_example :
    (lookup
        (pos 7)
        (settle_block
          (pos 7)
          (pos 9)
          "send"
          (keep_blocked (pos 7) (pos 5) on_jobs (pos 5) "chan_send" busy)).blocked_total_ms
      ≡ some (or_zero (pos 0) (lookup (pos 7) busy.blocked_total_ms) +ℤ (pos 9 -ℤ pos 5)))
    × IsFree (pos 7) (
        settle_block
          (pos 7)
          (pos 9)
          "send"
          (keep_blocked (pos 7) (pos 5) on_jobs (pos 5) "chan_send" busy))
unfolding lookup new_parse_state ◌-ℤ◌
block_time_counted_example =
    block_time_counted (pos 7) on_jobs (pos 5) (pos 9) "chan_send" "send" busy refl refl

block_cause_for_sound_example : IsCause "send" "0x1" busy (block_cause_for "send" "0x1" busy)
block_cause_for_sound_example = block_cause_for_sound "send" "0x1" busy

-- Goroutine 7 is of interest, and blocked.
abbrev blocked_machine : Machine
blocked_machine = record {
  st =
      keep_blocked (pos 7) (pos 5) on_jobs (pos 5) "chan_send"
        (record busy { goroutines = record busy.goroutines { interested = (pos 7, tt) ∷ [] } });
  out = [];
}

handle_runnable_frees_example :
    ((handle_runnable accepting (pos 20000000) (pos 7) (pos 9) "chan send" blocked_machine).1
      ≡ done tt)
    × IsFree
        (pos 7)
        (handle_runnable accepting (pos 20000000) (pos 7) (pos 9) "chan send" blocked_machine).0.st
unfolding lookup new_parse_state keep_blocked
handle_runnable_frees_example =
    handle_runnable_frees accepting (pos 20000000) (pos 7) (pos 9) "chan send" blocked_machine
      (λ out ev. refl) refl

abbrev waiting : Machine
waiting = record { st = busy; out = [] }

activate_goroutine_from_op-IsSilent_example :
    IsSilent (pos 7) waiting (activate_goroutine_from_op accepting (pos 7) waiting)
unfolding new_parse_state
activate_goroutine_from_op-IsSilent_example =
    activate_goroutine_from_op-IsSilent accepting (pos 7) waiting (λ e. cc)

finalize_once_example :
    let st' = finalize_pending_goroutines (λ gids. gids) busy in
    (finalize_pending_goroutines (λ gids. gids) st' ≡ st')
    × ((if busy.pending_goroutines_audited then busy.pending_goroutines else [])
        ≡ st'.pending_goroutines)
finalize_once_example = finalize_once (λ gids. gids) busy

keep_goroutine_role_example :
    lookup (pos 7) (keep_goroutine "unknown" (pos 7) busy).roles
    ≡ some (or_zero "unknown" (lookup (pos 7) busy.roles))
keep_goroutine_role_example = keep_goroutine_role "unknown" (pos 7) busy

sync_wait_roundtrip_example :
    let begun = set_sync_wait_candidate (pos 7) "mutex_lock" "mutex" (pos 1) busy in
    let ended = clear_sync_wait_candidate (pos 7) "mutex_lock" begun in
    let (k, c, key, confidence) = infer_sync_wait_context (pos 7) "sync" begun in
    (k ≡ "mutex_lock")
    × (c ≡ "mutex")
    × (confidence ≡ "high")
    × (lookup (pos 7) ended.sync_wait_candidate_by_g ≡ none)
    × ((infer_sync_wait_context (pos 7) "sync" ended).0 ≡ sync_wait_kind_from_runtime_reason "sync")
unfolding is_sync_wait_kind
sync_wait_roundtrip_example =
    sync_wait_roundtrip (pos 7) "mutex_lock" "mutex" "sync" (pos 1) busy refl

abbrev a_send_op : Op
a_send_op = record { kind = "send"; ch = "jobs"; ptr = "0x1"; time = pos 1 }

handle_region_end-IsWithin_example :
    IsWithin "0x1"
      (handle_region_end accepting (pos 7) "worker" (pos 2) "send" a_send_op waiting).0.st
unfolding new_parse_state lookup
handle_region_end-IsWithin_example =
    handle_region_end-IsWithin accepting (pos 7) "worker" (pos 2) "send" a_send_op "0x1" waiting
      (omega arith)
