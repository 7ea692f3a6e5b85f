-- ===== src/Audit/Report.antt =====
-- What `EmitAuditSummary` emits of a deadlock.
use mathlib.Core.List.{append_assoc}
use gtv_final_submission.Prelude.Dict.{lookup, is_some, keys}
use gtv_final_submission.Prelude.Int.{ℤ, int_eq}
use gtv_final_submission.Prelude.{
  String, true, false, some, List, [], ◌∷◌, ◌++◌, ◌≡◌, refl, sym, ap, ◌∙◌, inl, inr, Bool-cases,
  Option-cases,
}
use gtv_final_submission.Timeline.{Millis, Fields, TimelineEvent, GoroutineFilterMode, object}
use gtv_final_submission.Parse.State.{ParseState}
use gtv_final_submission.Parse.Machine.{Callback, Machine, done, emit, inc_audit}
use gtv_final_submission.Parse.Goroutines.{
  mark_goroutine_interested, ensure_role, set_role, has_channel_ops, on_goroutines,
}
use gtv_final_submission.Parse.Finalize.{
  keep_goroutine, keep_or_drop, for_each, decide, finalize_pending_goroutines,
}
use gtv_final_submission.Deadlock.Graph.{WaitGraph}
use gtv_final_submission.Deadlock.Search.{
  Probe, found, backtracked, out_of_fuel, report, find_cycle, wait_graph, deadlock_cycle_event,
  quiescence_warning_event,
}
use gtv_final_submission.Normalize.Summary.{fields_of}
use gtv_final_submission.Audit.Cycle.{cycle_of, audit_fields_cycle}
use gtv_final_submission.Audit.Summary.{
  summary_event, audit_summary_event, warn_quiescence, warn_deadlock, emit_audit_summary,
}

keep_goroutine-cycle :
    (fallback : String) (gid : ℤ) (st : ParseState)
    → (keep_goroutine fallback gid st).deadlock_cycle ≡ st.deadlock_cycle
unfolding keep_goroutine ensure_role set_role mark_goroutine_interested
keep_goroutine-cycle fallback gid st = elim (Bool-cases (is_some (lookup gid st.roles))) [
  | inl e ↦ rw (e, keep_goroutine) refl
  | inr e ↦ rw (e, keep_goroutine) refl
]

keep_or_drop-cycle :
    (gid : ℤ) (st : ParseState) → (keep_or_drop gid st).deadlock_cycle ≡ st.deadlock_cycle
unfolding keep_or_drop inc_audit
keep_or_drop-cycle gid st = elim (Bool-cases (has_channel_ops gid st)) [
  | inl e ↦ rw (e, keep_or_drop) (keep_goroutine-cycle "worker" gid st)
  | inr e ↦ rw (e, keep_or_drop) refl
]

for_each-cycle :
    (f : ℤ → ParseState → ParseState)
    → ((gid : ℤ) (st : ParseState) → (f gid st).deadlock_cycle ≡ st.deadlock_cycle)
    → (gids : List ℤ) (st : ParseState) → (for_each f gids st).deadlock_cycle ≡ st.deadlock_cycle
for_each-cycle f h [] st = refl
for_each-cycle f h (gid ∷ gids) st = for_each-cycle f h gids (f gid st) ∙ h gid st

decide-cycle :
    (mode : GoroutineFilterMode) (gids : List ℤ) (st : ParseState)
    → (decide mode gids st).deadlock_cycle ≡ st.deadlock_cycle
decide-cycle GoroutineFilterMode.legacy gids st = refl
decide-cycle GoroutineFilterMode.all gids st =
    for_each-cycle (keep_goroutine "unknown") (keep_goroutine-cycle "unknown") gids st
decide-cycle GoroutineFilterMode.ops gids st =
    for_each-cycle keep_or_drop keep_or_drop-cycle gids st

finalize-cycle :
    (order : List ℤ → List ℤ) (st : ParseState)
    → (finalize_pending_goroutines order st).deadlock_cycle ≡ st.deadlock_cycle
unfolding finalize_pending_goroutines
finalize-cycle order st = elim (Bool-cases st.pending_goroutines_audited) [
  | inl e ↦ rw (e, finalize_pending_goroutines) refl
  | inr e ↦
      rw (e, finalize_pending_goroutines)
        (decide-cycle st.opt.goroutine_filter (order (keys st.pending_goroutines))
          (on_goroutines (λ gs. record gs { pending_goroutines_audited = true }) st))
]

-- A warning and what is stored in the state are one.
report-cycle :
    (st : ParseState) (w : WaitGraph) (p : Probe) (ev : TimelineEvent)
    → (report st w p).1 ≡ some ev
    → (cycle : Fields) × ((report st w p).0.deadlock_cycle ≡ some cycle) × (ev.value ≡ object cycle)
report-cycle st w (found c) ev h = (_, refl, cc)
report-cycle st w (backtracked t) ev h = cc
report-cycle st w out_of_fuel ev h = cc

event-cycle :
    (range : List ℤ → List ℤ) (st : ParseState) (window : Millis) (ev : TimelineEvent)
    → (deadlock_cycle_event range st window).1 ≡ some ev
    → (cycle : Fields) × ((deadlock_cycle_event range st window).0.deadlock_cycle ≡ some cycle)
      × (ev.value ≡ object cycle)
unfolding deadlock_cycle_event
event-cycle range st window ev e =
    let w = wait_graph range st window in
    report-cycle st w (find_cycle w.graph (range (keys w.graph))) ev e

-- A callback that refuses no event.
abbrev pub AcceptsAll : Callback → Type 0
AcceptsAll cb = (out : List TimelineEvent) (ev : TimelineEvent) → cb.refuses out ev ≡ false

emit_done :
    (cb : Callback) (ev : TimelineEvent) (m : Machine)
    → AcceptsAll cb
    → emit cb ev m ≡ (record m { out = m.out ++ (cb.wrap ev ∷ []) }, done tt)
unfolding emit
emit_done cb ev m a = rw (a m.out (cb.wrap ev)) refl

module _ (cb : Callback) (range : List ℤ → List ℤ) (threshold window : Millis) where
  warn_quiescence_runs :
      (m : Machine)
      → AcceptsAll cb
      → (m1 : Machine) × (m1.st ≡ m.st)
        × (warn_quiescence cb range threshold window m ≡ (m1, done tt))
  unfolding warn_quiescence
  warn_quiescence_runs m a = elim (Option-cases (quiescence_warning_event m.st threshold)) [
    | inl e ↦ (m, refl, rw (e, warn_quiescence) refl)
    | inr (ev, e) ↦ (
      record m { out = m.out ++ (cb.wrap ev ∷ []) },
      refl,
      rw (e, warn_quiescence) (emit_done cb ev m a),
    )
  ]

  warn_deadlock_runs :
      (m : Machine) (ev : TimelineEvent)
      → AcceptsAll cb
      → (deadlock_cycle_event range m.st window).1 ≡ some ev
      → warn_deadlock cb range threshold window m ≡ (
        record {
          st = (deadlock_cycle_event range m.st window).0;
          out = m.out ++ (cb.wrap ev ∷ []);
        },
        done tt,
      )
  unfolding warn_deadlock
  warn_deadlock_runs m ev a e =
      rw (e, warn_deadlock)
        (emit_done cb ev (record m { st = (deadlock_cycle_event range m.st window).0 }) a)

  -- Where the callback refuses no event and deadlockCycleEvent has a warning, EmitAuditSummary emits
  -- the warning and the audit summary as its last two events, and the summary holds the value of
  -- the warning under the key "deadlock_cycle".
  pub emit_audit_summary_reports :
      (source : String) (m : Machine) (ev : TimelineEvent)
      → AcceptsAll cb
      → (deadlock_cycle_event range m.st window).1 ≡ some ev
      → (before : List TimelineEvent) × (s : TimelineEvent) × ((emit_audit_summary cb range
            threshold window source m).0.out
          ≡ before ++ (cb.wrap ev ∷ cb.wrap s ∷ []))
        × (s.event ≡ "audit_summary")
        × (cycle_of (fields_of s.value) ≡ some ev.value)
  unfolding emit_audit_summary audit_summary_event emit summary_event
  emit_audit_summary_reports source m ev a e =
      let q = warn_quiescence_runs m a in
      let m1 : Machine = q.0 in
      let e1 : (deadlock_cycle_event range m1.st window).1 ≡ some ev =
        ap (λ (st : ParseState). (deadlock_cycle_event range st window).1) q.1 ∙ e in
      let st2 : ParseState =
        finalize_pending_goroutines range (deadlock_cycle_event range m1.st window).0 in
      let r = event-cycle range m1.st window ev e1 in
      (
        m1.out,
        summary_event source st2,
        rw (q.2, emit_audit_summary)
            (rw (warn_deadlock_runs m1 ev a e1)
              (append_assoc m1.out (cb.wrap ev ∷ []) (cb.wrap (summary_event source st2) ∷ []))),
        refl,
        audit_fields_cycle st2 r.0
              (finalize-cycle range (deadlock_cycle_event range m1.st window).0 ∙ r.1)
            ∙ ap some (sym r.2),
      )
