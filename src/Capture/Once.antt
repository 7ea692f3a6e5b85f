-- ===== src/Capture/Once.antt =====
-- Stopping and flushing once.
use gtv_final_submission.Prelude.{
  ℕ, suc, ◌≤◌, ltb, ◌||◌, String, Bool, true, false, Option, none, some, List, [], ◌∷◌, ◌≡◌, refl,
  ap, ◌∙◌, inl, inr, arith, Bool-cases, if◌then◌else◌,
}
use gtv_final_submission.Capture.Tracer.{
  Writer, Action, trace_start, trace_stop, create, sync, close, hook, Runtime, Tracer, new_tracer,
  start, start_file, stop_idempotent, close_writer, run_hook, flush_idempotent, flush,
  set_flush_hook, stop_flush, Call, call_start, call_start_file, call_stop, call_flush,
  call_set_hook, call_stop_flush, step, run,
}
use gtv_final_submission.Capture.Library

abbrev is_stop : Action → Bool
is_stop trace_stop = true
is_stop (trace_start w) = false
is_stop (create n) = false
is_stop (sync w) = false
is_stop (close w) = false
is_stop (hook h) = false

-- How often the runtime was told to stop tracing.
unfoldable pub stops : List Action → ℕ
stops [] = 0
stops (a ∷ l) = if is_stop a then suc (stops l) else stops l

abbrev after_action : Option String → Action → Bool → Bool
after_action none (trace_start w) r = true
after_action (some err) (trace_start w) r = r
after_action err trace_stop r = false
after_action err (create n) r = r
after_action err (sync w) r = r
after_action err (close w) r = r
after_action err (hook h) r = r

-- Whether the runtime traces after the calls of a list: since a start that succeeded it was not told
-- to stop.
unfoldable pub runs : Runtime → List Action → Bool
runs rt [] = false
runs rt (a ∷ l) = after_action (rt.start_error l) a (runs rt l)

-- The specification knows whether the runtime traces, and whether it was ever told to stop.
pub record Life : Type 0 where
  pub running : Bool
  pub stopped : Bool

abbrev pub life : Runtime → Tracer → Life
life rt t = record { running = runs rt t.calls; stopped = ltb 0 (stops t.calls) }

-- A start that succeeds makes the runtime trace, at any time.
abbrev pub after_start : Life → Life
after_start l = record l { running = true }

-- The first stop that finds the runtime tracing ends that; every other stop does nothing.
abbrev pub after_stop : Life → Life
after_stop l = if l.stopped then l else record { running = false; stopped = l.running }

-- What a call is to the specification: a start or not, and a stop or not.
abbrev starts : Runtime → Tracer → Call → Bool
starts rt t (call_start w) = elim (rt.start_error t.calls) [ none ↦ true | some e ↦ false ]
starts rt t (call_start_file n) = elim (start_file rt n t).1 [ none ↦ true | some e ↦ false ]
starts rt t call_stop = false
starts rt t call_flush = false
starts rt t (call_set_hook h) = false
starts rt t call_stop_flush = false

abbrev asks_to_stop : Call → Bool
asks_to_stop (call_start w) = false
asks_to_stop (call_start_file n) = false
asks_to_stop call_stop = true
asks_to_stop call_flush = false
asks_to_stop (call_set_hook h) = false
asks_to_stop call_stop_flush = true

abbrev pub next_life : Runtime → Tracer → Call → Life → Life
next_life rt t c l =
    if starts rt t c then after_start l else if asks_to_stop c then after_stop l else l

-- The runtime was told to stop once where the one stop is used, and else never.
abbrev pub IsOnce : Tracer → Type 0
IsOnce t = stops t.calls ≡ (if t.stop_done then 1 else 0)

-- The variables of the package say what the runtime does: until the one stop is used, `started` says
-- whether it traces.
abbrev pub IsFaithful : Runtime → Tracer → Type 0
IsFaithful rt t = IsOnce t × ((t.stop_done || t.started) ≡ (t.stop_done || runs rt t.calls))

close_writer_same :
    (rt : Runtime) (w : Option Writer) (t : Tracer)
    → ((close_writer rt w t).stop_done ≡ t.stop_done)
      × ((close_writer rt w t).started ≡ t.started)
      × (stops (close_writer rt w t).calls ≡ stops t.calls)
      × (runs rt (close_writer rt w t).calls ≡ runs rt t.calls)
unfolding close_writer stops runs
close_writer_same rt none t = (refl, refl, refl, refl)
close_writer_same rt (some (Writer.plain n)) t =
    (ground arith, ground arith, ground arith, ground arith)
close_writer_same rt (some (Writer.closer n)) t =
    (ground arith, ground arith, ground arith, ground arith)
close_writer_same rt (some (Writer.file n)) t =
    (ground arith, ground arith, ground arith, ground arith)

run_hook_same :
    (rt : Runtime) (h : Option ℕ) (t : Tracer)
    → ((run_hook rt h t).stop_done ≡ t.stop_done)
      × ((run_hook rt h t).started ≡ t.started)
      × (stops (run_hook rt h t).calls ≡ stops t.calls)
      × (runs rt (run_hook rt h t).calls ≡ runs rt t.calls)
unfolding run_hook stops runs
run_hook_same rt none t = (refl, refl, refl, refl)
run_hook_same rt (some h) t = (ground arith, ground arith, ground arith, ground arith)

flush_same :
    (rt : Runtime) (t : Tracer)
    → ((flush_idempotent rt t).stop_done ≡ t.stop_done)
      × ((flush_idempotent rt t).started ≡ t.started)
      × (stops (flush_idempotent rt t).calls ≡ stops t.calls)
      × (runs rt (flush_idempotent rt t).calls ≡ runs rt t.calls)
unfolding flush_idempotent
flush_same rt t =
    let u = record t { flush_done = true } in
    let c = close_writer_same rt t.writer u in
    let h = run_hook_same rt t.flush_hook (close_writer rt t.writer u) in
    elim (Bool-cases t.flush_done) [
      | inl e ↦ rw (e, flush_idempotent) (refl, refl, refl, refl)
      | inr e ↦ rw (e, flush_idempotent) (h.0 ∙ c.0, h.1 ∙ c.1, h.2 ∙ c.2, h.3 ∙ c.3)
    ]

step-IsFaithful :
    (rt : Runtime) (c : Call) (t : Tracer) → IsFaithful rt t → IsFaithful rt (step rt c t)
unfolding step start start_file stop_idempotent set_flush_hook flush stop_flush stops runs
step-IsFaithful rt (call_start none) t f = ground arith
step-IsFaithful rt (call_start (some w)) t f = ground arith
step-IsFaithful rt (call_start_file n) t f = ground arith
step-IsFaithful rt call_stop t f = ground arith
step-IsFaithful rt call_flush t f = let s = flush_same rt t in rw (s.0, s.1, s.2, s.3) f
step-IsFaithful rt (call_set_hook h) t f = f
step-IsFaithful rt call_stop_flush t f =
    let s = flush_same rt (stop_idempotent t) in rw (s.0, s.1, s.2, s.3) (ground arith)

-- Whether the runtime traces after a call, read off the calls that it got: a start that returns no
-- error makes it trace, also after a stop; the first stop that finds it tracing, and no other, ends
-- that; every other call leaves it. And the variables of the package stay true to it.
pub step_refines :
    (rt : Runtime) (c : Call) (t : Tracer)
    → IsFaithful rt t
    → (life rt (step rt c t) ≡ next_life rt t c (life rt t)) × IsFaithful rt (step rt c t)
unfolding step start start_file stop_idempotent set_flush_hook flush stop_flush stops runs
step_refines rt (call_start none) t f = (ground arith, step-IsFaithful rt (call_start none) t f)
step_refines rt (call_start (some w)) t f =
    (ground arith, step-IsFaithful rt (call_start (some w)) t f)
step_refines rt (call_start_file n) t f = (ground arith, step-IsFaithful rt (call_start_file n) t f)
step_refines rt call_stop t f = (ground arith, step-IsFaithful rt call_stop t f)
step_refines rt call_flush t f =
    let s = flush_same rt t in (rw (s.2, s.3) refl, step-IsFaithful rt call_flush t f)
step_refines rt (call_set_hook h) t f = (refl, f)
step_refines rt call_stop_flush t f =
    let s = flush_same rt (stop_idempotent t) in
    (rw (s.2, s.3) (ground arith), step-IsFaithful rt call_stop_flush t f)

run-IsFaithful :
    (rt : Runtime) (cs : List Call) (t : Tracer) → IsFaithful rt t → IsFaithful rt (run rt cs t)
unfolding run
run-IsFaithful rt [] t f = f
run-IsFaithful rt (c ∷ cs) t f = run-IsFaithful rt cs (step rt c t) (step-IsFaithful rt c t f)

-- Whatever is called in whatever order, the runtime is told to stop tracing at most once.
pub told_once : (rt : Runtime) (cs : List Call) → stops (run rt cs new_tracer).calls ≤ 1
unfolding stops runs
told_once rt cs = ground (arith, (run-IsFaithful rt cs new_tracer (refl, refl)).0)

close_writer_flushed :
    (rt : Runtime) (w : Option Writer) (t : Tracer)
    → (close_writer rt w t).flush_done ≡ t.flush_done
unfolding close_writer
close_writer_flushed rt none t = refl
close_writer_flushed rt (some (Writer.plain n)) t = ground arith
close_writer_flushed rt (some (Writer.closer n)) t = ground arith
close_writer_flushed rt (some (Writer.file n)) t = ground arith

run_hook_flushed :
    (rt : Runtime) (h : Option ℕ) (t : Tracer) → (run_hook rt h t).flush_done ≡ t.flush_done
unfolding run_hook
run_hook_flushed rt none t = refl
run_hook_flushed rt (some h) t = ground arith

flushed : (rt : Runtime) (t : Tracer) → (flush_idempotent rt t).flush_done ≡ true
unfolding flush_idempotent
flushed rt t =
    let u = record t { flush_done = true } in
    elim (Bool-cases t.flush_done) [
      | inl e ↦ rw (e, flush_idempotent) refl
      | inr e ↦
          rw (e, flush_idempotent)
            (run_hook_flushed rt t.flush_hook (close_writer rt t.writer u)
              ∙ close_writer_flushed rt t.writer u)
    ]

flushed_stays : (rt : Runtime) (t : Tracer) → t.flush_done ≡ true → flush_idempotent rt t ≡ t
unfolding flush_idempotent
flushed_stays rt t e = rw (e, flush_idempotent) refl

-- A second Flush changes nothing and returns what the first one did, whatever the runtime does.
pub flush_idempotent_twice : (rt : Runtime) (t : Tracer) → let r = flush rt t in flush rt r.0 ≡ r
unfolding flush
flush_idempotent_twice rt t =
    ap (λ (u : Tracer). (u, u.flush_err)) (flushed_stays rt (flush_idempotent rt t) (flushed rt t))

abbrev UsedUp : Library.Session → Type 0
UsedUp s = (s.stop_done ≡ true) × (stops s.calls ≡ 0)

start-UsedUp :
    (rt : Runtime) (w : Writer) (s : Library.Session) → UsedUp s → UsedUp (Library.start rt w s).0
unfolding Library.start stops
start-UsedUp rt (Writer.plain n) s (d, z) = (ground arith, ground arith)
start-UsedUp rt (Writer.closer n) s (d, z) = (ground arith, ground arith)
start-UsedUp rt (Writer.file n) s (d, z) = (ground arith, ground arith)

step-UsedUp :
    (rt : Runtime) (c : Library.Call) (s : Library.Session)
    → UsedUp s
    → UsedUp (Library.step rt c s)
unfolding Library.step Library.stop Library.flush Library.set_flush_func stops
step-UsedUp rt (Library.call_start w) s u = start-UsedUp rt w s u
step-UsedUp rt Library.call_stop s (d, z) = (ground arith, ground arith)
step-UsedUp rt Library.call_flush s (d, z) = (ground arith, ground arith)
step-UsedUp rt (Library.call_set_flush_func none) s u = u
step-UsedUp rt (Library.call_set_flush_func (some f)) s u = u

run-UsedUp :
    (rt : Runtime) (cs : List Library.Call) (s : Library.Session)
    → UsedUp s
    → stops (Library.run rt cs s).calls ≡ 0
unfolding Library.run
run-UsedUp rt [] s u = u.1
run-UsedUp rt (c ∷ cs) s u = run-UsedUp rt cs (Library.step rt c s) (step-UsedUp rt c s u)

-- In the package that programs import, a Stop before the first Start uses the one stop up: whatever
-- is called after it, the runtime is never told to stop tracing.
pub stop_used_up :
    (rt : Runtime) (cs : List Library.Call)
    → stops (Library.run rt cs (Library.stop Library.new_session)).calls ≡ 0
unfolding Library.stop stops
stop_used_up rt cs = run-UsedUp rt cs (Library.stop Library.new_session) (refl, refl)
