-- ===== src/Parse/BlockTime.antt =====
-- The time between a block and its end in internal/traceproc/traceproc.go.
use gtv_final_submission.Prelude.Dict.{
  lookup, or_zero, is_some, lookup-insert_self, lookup-erase_self,
}
use gtv_final_submission.Prelude.Int.{ℤ, pos, int_eq, leb_ℤ, ◌-ℤ◌, ◌+ℤ◌}
use gtv_final_submission.Prelude.{
  String, true, false, none, some, ◌≡◌, refl, if◌then◌else◌, string_eq, ap, ◌∙◌, inl, inr, List, [],
  ◌∷◌, ◌++◌, sym, subst, not, ◌&&◌, ◌==◌, Bool-cases, Option-cases,
}
use gtv_final_submission.Timeline.{Millis, TimelineEvent}
use gtv_final_submission.Parse.Blocking.{
  keep_blocked, settle_block, count_block, recover_start, forget_block, handle_runnable,
  emit_unblock, ended_block, audit_block, unblock_place, id_of_block, go_unblock, unblock_told,
}
use gtv_final_submission.Parse.Helpers.{
  add_blocked_duration, mark_progress, unblock_kind_from_reason,
}
use gtv_final_submission.Parse.Inference.{Place}
use gtv_final_submission.Parse.Machine.{Callback, Machine, done, emit, modify, ◌>>◌}
use gtv_final_submission.Parse.State.{ParseState, BlockedInfo}
use gtv_final_submission.Parse.SyncWait.{clear_sync_wait_candidate}

-- A goroutine whose block has begun needs no candidate.
recover_start-known :
    (gid : ℤ) (ts : Millis) (reason : String) (st : ParseState)
    → is_some (lookup gid st.blocked_at) ≡ true
    → recover_start gid ts reason st ≡ st
unfolding recover_start
recover_start-known gid ts reason st h =
    elim (Option-cases (lookup gid st.sync_wait_candidate_by_g)) [
      | inl e ↦ rw (e, recover_start) refl
      | inr (cand, e) ↦ rw (e, h, recover_start) refl
    ]

-- What the last three steps leave alone.
clear_sync_wait_candidate-total :
    (gid : ℤ) (kind : String) (st : ParseState)
    → (clear_sync_wait_candidate gid kind st).blocked_total_ms ≡ st.blocked_total_ms
unfolding clear_sync_wait_candidate
clear_sync_wait_candidate-total gid kind st =
    elim (Option-cases (lookup gid st.sync_wait_candidate_by_g)) [
      | inl e ↦ rw (e, clear_sync_wait_candidate) refl
      | inr (cur, e) ↦ elim (Bool-cases (not (kind == "") && not (cur.kind == kind))) [
        | inl c ↦ rw (e, clear_sync_wait_candidate, c) refl
        | inr c ↦ rw (e, clear_sync_wait_candidate, c) refl
      ]
    ]

settle_block-total :
    (gid : ℤ) (ts : Millis) (reason : String) (st : ParseState)
    → is_some (lookup gid st.blocked_at) ≡ true
    → (settle_block gid ts reason st).blocked_total_ms
      ≡ (count_block gid ts reason st).blocked_total_ms
unfolding settle_block mark_progress
settle_block-total gid ts reason st h =
    rw (settle_block, mark_progress, recover_start-known gid ts reason st h)
      (clear_sync_wait_candidate-total gid "" (forget_block gid ts (count_block gid ts reason st)))

count_block-total :
    (gid : ℤ) (ts : Millis) (reason : String) (st : ParseState) (start : Millis)
    → lookup gid st.blocked_at ≡ some start
    → leb_ℤ (ts -ℤ start) (pos 0) ≡ false
    → lookup gid (count_block gid ts reason st).blocked_total_ms
      ≡ some (or_zero (pos 0) (lookup gid st.blocked_total_ms) +ℤ (ts -ℤ start))
unfolding count_block add_blocked_duration
count_block-total gid ts reason st start h d =
    rw (h, count_block, add_blocked_duration, d)
      (lookup-insert_self gid (or_zero (pos 0) (lookup gid st.blocked_total_ms) +ℤ (ts -ℤ start))
        st.blocked_total_ms)

-- The goroutine is not blocked, and no time runs for it.
abbrev pub IsFree : ℤ → ParseState → Type 0
IsFree gid st =
    (lookup gid st.blocked ≡ none)
    × (lookup gid st.blocked_at ≡ none)
    × (lookup gid st.blocked_reason_by_g ≡ none)

clear_sync_wait_candidate-IsFree :
    (gid : ℤ) (kind : String) (st : ParseState)
    → IsFree gid st
    → IsFree gid (clear_sync_wait_candidate gid kind st)
unfolding clear_sync_wait_candidate
clear_sync_wait_candidate-IsFree gid kind st h =
    elim (Option-cases (lookup gid st.sync_wait_candidate_by_g)) [
      | inl e ↦ rw (e, clear_sync_wait_candidate) h
      | inr (cur, e) ↦ elim (Bool-cases (not (kind == "") && not (cur.kind == kind))) [
        | inl c ↦ rw (e, clear_sync_wait_candidate, c) h
        | inr c ↦ rw (e, clear_sync_wait_candidate, c) h
      ]
    ]

count_block-stopped :
    (gid : ℤ) (ts : Millis) (reason : String) (st : ParseState)
    → lookup gid (count_block gid ts reason st).blocked_at ≡ none
unfolding count_block
count_block-stopped gid ts reason st = elim (Option-cases (lookup gid st.blocked_at)) [
  | inl e ↦ rw (count_block, e) e
  | inr (start, e) ↦
      let counted =
        add_blocked_duration gid
          (let key = or_zero "" (lookup gid st.blocked_reason_by_g) in
            if key == "" then reason else key)
          (ts -ℤ start) st in
      rw (count_block, e) (lookup-erase_self gid counted.blocked_at)
]

pub settle_block-IsFree :
    (gid : ℤ) (ts : Millis) (reason : String) (st : ParseState)
    → IsFree gid (settle_block gid ts reason st)
unfolding settle_block mark_progress
settle_block-IsFree gid ts reason st =
    let counted = count_block gid ts reason (recover_start gid ts reason st) in
    clear_sync_wait_candidate-IsFree gid "" (forget_block gid ts counted) (
      lookup-erase_self gid counted.blocked,
      count_block-stopped gid ts reason (recover_start gid ts reason st),
      lookup-erase_self gid counted.blocked_reason_by_g,
    )

-- A block of a goroutine that was not blocked, and its end at a later time, add the time between
-- them to the goroutine's total, and leave it not blocked.
pub block_time_counted :
    (gid : ℤ) (info : BlockedInfo) (start ts : Millis) (kind reason : String) (st : ParseState)
    → lookup gid st.blocked_at ≡ none
    → leb_ℤ (ts -ℤ start) (pos 0) ≡ false
    → (lookup gid
          (settle_block gid ts reason (keep_blocked gid start info start kind st)).blocked_total_ms
        ≡ some (or_zero (pos 0) (lookup gid st.blocked_total_ms) +ℤ (ts -ℤ start)))
      × IsFree gid (settle_block gid ts reason (keep_blocked gid start info start kind st))
unfolding keep_blocked
block_time_counted gid info start ts kind reason st h d =
    let st' = keep_blocked gid start info start kind st in
    let at : lookup gid st'.blocked_at ≡ some start =
      rw (keep_blocked, h) (lookup-insert_self gid start st.blocked_at) in
    (
      ap (lookup gid) (settle_block-total gid ts reason st' (ap is_some at))
          ∙ count_block-total gid ts reason st' start at d,
      settle_block-IsFree gid ts reason st',
    )

-- Two events between two changes of the state, where the callback refuses no event.
emit_two :
    (cb : Callback) (f g : ParseState → ParseState) (d e : TimelineEvent) (m : Machine)
    → ((out : List TimelineEvent) (ev : TimelineEvent) → cb.refuses out ev ≡ false)
    → let r = (modify f >> (emit cb d >> (emit cb e >> modify g))) m in
      (r.1 ≡ done tt) × (r.0.st ≡ g (f m.st))
unfolding emit
emit_two cb f g d e m a =
    rw (a m.out (cb.wrap d), a (m.out ++ cb.wrap d ∷ []) (cb.wrap e)) (refl, refl)

emit_unblock-IsFree :
    (cb : Callback) (window : Millis) (gid : ℤ) (ts : Millis) (info : BlockedInfo) (p : Place)
    (role : String) (m : Machine)
    → ((out : List TimelineEvent) (ev : TimelineEvent) → cb.refuses out ev ≡ false)
    → ((emit_unblock cb window gid ts info p role m).1 ≡ done tt)
      × IsFree gid (emit_unblock cb window gid ts info p role m).0.st
unfolding emit_unblock
emit_unblock-IsFree cb window gid ts info p role m a =
    let f = audit_block (id_of_block p.1 p.2) (unblock_kind_from_reason info.reason) in
    let r =
      emit_two cb f (settle_block gid ts info.reason) (go_unblock cb window gid ts info p role)
        (unblock_told cb window gid ts m.st.opt.emit_atomic info p role) m a in
    (r.0, subst (IsFree gid) (sym r.1) (settle_block-IsFree gid ts info.reason (f m.st)))

-- A goroutine of interest that is runnable again is not blocked any more, and its handler returns
-- without an error, where the callback refuses no event.
pub handle_runnable_frees :
    (cb : Callback) (window : Millis) (gid : ℤ) (ts : Millis) (reason : String) (m : Machine)
    → ((out : List TimelineEvent) (ev : TimelineEvent) → cb.refuses out ev ≡ false)
    → is_some (lookup gid m.st.interested) ≡ true
    → ((handle_runnable cb window gid ts reason m).1 ≡ done tt)
      × IsFree gid (handle_runnable cb window gid ts reason m).0.st
unfolding handle_runnable
handle_runnable_frees cb window gid ts reason m a h =
    let info = ended_block gid ts reason m.st in
    rw (handle_runnable, h)
      (emit_unblock-IsFree cb window gid ts info (unblock_place cb window gid ts info m.st)
        (or_zero "" (lookup gid m.st.roles)) m a)
