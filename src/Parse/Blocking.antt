-- ===== src/Parse/Blocking.antt =====
-- `ProcessEvent` on a goroutine that goes to wait or that is runnable again: the events of its
-- block, and the time that it was blocked.
use Prim.Native.String.{◌++◌}
use gtv_final_submission.Prelude.Dict.{lookup, insert, erase, or_zero, is_some}
use gtv_final_submission.Prelude.Int.{ℤ, pos, int_eq, ltb_ℤ, leb_ℤ, ◌-ℤ◌}
use gtv_final_submission.Prelude.{
  String, Bool, not, ◌&&◌, ◌||◌, none, some, ◌==◌, string_eq, if◌then◌else◌,
}
use gtv_final_submission.Timeline.{Millis, TimelineEvent, zero_event}
use gtv_final_submission.Parse.Helpers.{
  add_blocked_duration, mark_progress, block_cause_for, unblock_kind_from_reason,
}
use gtv_final_submission.Parse.Inference.{Place, infer_block_channel}
use gtv_final_submission.Parse.Machine.{
  Callback, M, ◌>>=◌, ◌>>◌, skip, get_state, modify, emit, attempt, inc_audit,
}
use gtv_final_submission.Parse.State.{ParseState, BlockedInfo}
use gtv_final_submission.Parse.SyncWait.{clear_sync_wait_candidate, infer_sync_wait_context}

abbrev pub id_of_block : String → String → String
id_of_block ptr key = if not (ptr == "") then key else if not (key == "") then key else ""

abbrev pub audit_block : String → String → ParseState → ParseState
audit_block id kind st =
    if (id == "") && ((kind == "chan_send") || (kind == "chan_recv"))
    then inc_audit "missing_block_channel" st
    else st

abbrev pub drop_audit : String → String
drop_audit kind = "blocked_drop_no_channel_" ++ kind

abbrev pub no_block : BlockedInfo
no_block = record { reason = ""; ch = ""; channel_id = ""; confidence = "" }

module _ (gid : ℤ) (ts : Millis) where
  -- The time at which a goroutine began to wait: that of its candidate, if it is of this kind.
  unfoldable pub wait_start : String → ParseState → Millis
  wait_start kind st = elim (lookup gid st.sync_wait_candidate_by_g) [
    | none ↦ ts
    | some cand ↦
        if (cand.kind == kind) && (ltb_ℤ (pos 0) cand.start_ms && leb_ℤ cand.start_ms ts)
        then cand.start_ms
        else ts
  ]

  -- A goroutine that is blocked already keeps the time and the reason it has.
  unfoldable pub keep_blocked : BlockedInfo → Millis → String → ParseState → ParseState
  keep_blocked info start block_kind st =
      let known = is_some (lookup gid st.blocked_at) in
      record st {
        blocking = record st.blocking {
          blocked = insert gid info st.blocked;
          blocked_at = if known then st.blocked_at else insert gid start st.blocked_at;
          blocked_reason_by_g =
              if known
              then st.blocked_reason_by_g
              else insert gid block_kind st.blocked_reason_by_g;
        };
      }

  -- What is known of the block that ends.
  unfoldable pub ended_block : String → ParseState → BlockedInfo
  ended_block reason st =
      let info = or_zero no_block (lookup gid st.blocked) in
      let c = infer_sync_wait_context gid reason st in
      if not (info.reason == "") then info else elim (lookup gid st.sync_wait_candidate_by_g) [
        | some cand ↦ record {
          reason = cand.kind;
          ch = if info.ch == "" then cand.channel else info.ch;
          channel_id = if info.channel_id == "" then cand.channel_key else info.channel_id;
          confidence = if info.confidence == "" then "high" else info.confidence;
        }
        | none ↦
            if c.0 == ""
            then info
            else record { reason = c.0; ch = c.1; channel_id = c.2; confidence = c.3 }
      ]

  -- A wait that was not seen to begin, but that has a candidate, began with it.
  unfoldable pub recover_start : String → ParseState → ParseState
  recover_start reason st = elim (lookup gid st.sync_wait_candidate_by_g) [
    | none ↦ st
    | some cand ↦
        if is_some (lookup gid st.blocked_at)
          || not (ltb_ℤ (pos 0) cand.start_ms && leb_ℤ cand.start_ms ts)
        then st
        else record st {
          blocking = record st.blocking {
            blocked_at = insert gid cand.start_ms st.blocked_at;
            blocked_reason_by_g =
                insert gid (if reason == "" then cand.kind else reason) st.blocked_reason_by_g;
          };
        }
  ]

  unfoldable pub count_block : String → ParseState → ParseState
  count_block reason st = elim (lookup gid st.blocked_at) [
    | none ↦ st
    | some start ↦
        let key = or_zero "" (lookup gid st.blocked_reason_by_g) in
        let counted =
          add_blocked_duration gid (if key == "" then reason else key) (ts -ℤ start) st in
        record counted {
          blocking = record counted.blocking { blocked_at = erase gid counted.blocked_at };
        }
  ]

  abbrev pub forget_block : ParseState → ParseState
  forget_block st = record st {
    blocking = record st.blocking {
      blocked_reason_by_g = erase gid st.blocked_reason_by_g;
      blocked = erase gid st.blocked;
    };
  }

  -- The whole of what the end of a block does to the state.
  unfoldable pub settle_block : String → ParseState → ParseState
  settle_block reason st = mark_progress ts (
      clear_sync_wait_candidate gid ""
        (forget_block (count_block reason (recover_start reason st))))

module _ (cb : Callback) (window : Millis) (gid : ℤ) (ts : Millis) where
  abbrev pub state_event : String → String → Place → TimelineEvent
  state_event event role p = record zero_event {
    time_ms = ts;
    event = event;
    g = gid;
    role = role;
    channel = p.0;
    channel_key = p.2;
    ch_ptr = p.1;
    source = "state";
  }

  abbrev pub caused : String × ℤ × ℤ → TimelineEvent → TimelineEvent
  caused cause ev = record ev { block_cause = cause.0; block_cap = cause.1; block_len = cause.2 }

  -- The events of a block on a channel, whose name, pointer, key and confidence are inferred.
  unfoldable pub emit_channel_block : String → Place → String × ℤ × ℤ → String → M (Unit {0})
  emit_channel_block kind p cause role = do
    st ← get_state
    let id = id_of_block p.1 p.2
    modify (audit_block id ("chan_" ++ kind))
    emit cb (record (caused cause (state_event "go_block" role p)) {
      block_kind = "chan_" ++ kind;
      channel_id = id;
      confidence = p.3;
    })
    emit cb (
        caused cause
          (state_event (if kind == "send" then "blocked_send" else "blocked_receive") role p))
    if st.opt.emit_atomic
        then attempt
            (emit cb (record (caused cause (state_event "block" role p)) { reason = kind }))
        else skip
    modify (
        keep_blocked gid ts (record { reason = kind; ch = p.0; channel_id = id; confidence = p.3 })
          ts ("chan_" ++ kind))

  unfoldable pub block_on_channel : String → M (Unit {0})
  block_on_channel kind = do
    st ← get_state
    let p = infer_block_channel st window gid kind ts
    if (p.0 == "") && st.opt.drop_block_no_ch
        then modify (inc_audit (drop_audit kind))
        else emit_channel_block kind p (block_cause_for kind p.1 st)
            (or_zero "" (lookup gid st.roles))

  -- The events of a wait for a lock, a group or a condition.
  unfoldable pub emit_sync_block : String → Place → String → M (Unit {0})
  emit_sync_block kind p role = do
    st ← get_state
    emit cb (record (state_event "go_block" role p) {
      block_kind = kind;
      channel_id = p.2;
      confidence = p.3;
    })
    if st.opt.emit_atomic
        then attempt (emit cb (record (state_event "block" role p) { reason = kind }))
        else skip
    modify (λ s.
        keep_blocked gid ts (record { reason = kind; ch = p.0; channel_id = p.2; confidence = p.3 })
          (wait_start gid ts kind s) kind s)

  unfoldable pub block_on_sync : String → M (Unit {0})
  block_on_sync reason = do
    st ← get_state
    let c = infer_sync_wait_context gid reason st
    if c.0 == ""
        then skip
        else emit_sync_block c.0 (c.1, "", c.2, c.3) (or_zero "" (lookup gid st.roles))

  -- A goroutine that goes to wait, with the reason that the runtime gives.
  unfoldable pub handle_waiting : String → M (Unit {0})
  handle_waiting reason = do
    st ← get_state
    if not (is_some (lookup gid st.interested))
        then skip
        else if reason == "chan send"
        then block_on_channel "send"
        else if reason == "chan receive"
        then block_on_channel "recv"
        else block_on_sync reason

  -- A block that is known keeps its key, and its channel unless another is inferred.
  unfoldable pub unblock_place : BlockedInfo → ParseState → Place
  unblock_place info st =
      let p : Place =
        if (info.reason == "send") || (info.reason == "recv")
        then infer_block_channel st window gid info.reason ts
        else (info.ch, "", info.channel_id, info.confidence) in
      if info.channel_id == ""
      then p
      else ((if p.0 == "" then info.ch else p.0), p.1, info.channel_id, p.3)

  abbrev pub go_unblock : BlockedInfo → Place → String → TimelineEvent
  go_unblock info p role = record (state_event "go_unblock" role p) {
    unblock_kind = unblock_kind_from_reason info.reason;
    channel_id = id_of_block p.1 p.2;
    confidence = p.3;
  }

  abbrev pub unblock_told : Bool → BlockedInfo → Place → String → TimelineEvent
  unblock_told atomic info p role =
      if atomic
      then record (state_event "unblock" role p) { reason = info.reason }
      else state_event "unblocked" role p

  unfoldable pub emit_unblock : BlockedInfo → Place → String → M (Unit {0})
  emit_unblock info p role = do
    st ← get_state
    modify (audit_block (id_of_block p.1 p.2) (unblock_kind_from_reason info.reason))
    emit cb (go_unblock info p role)
    emit cb (unblock_told st.opt.emit_atomic info p role)
    modify (settle_block gid ts info.reason)

  -- A goroutine that has waited and is runnable.
  unfoldable pub handle_runnable : String → M (Unit {0})
  handle_runnable reason = do
    st ← get_state
    let info = ended_block gid ts reason st
    if is_some (lookup gid st.interested)
        then emit_unblock info (unblock_place info st) (or_zero "" (lookup gid st.roles))
        else skip
