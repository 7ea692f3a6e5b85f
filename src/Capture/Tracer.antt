-- ===== src/Capture/Tracer.antt =====
-- internal/gtvtrace/trace.go: the variables of the package as a state, with the list of the calls
-- outside the package, the last one in front. Whether such a call fails is up to the runtime, which
-- sees the calls so far.
use gtv_final_submission.Prelude.{
  ℕ, String, Bool, true, false, not, ◌&&◌, Option, none, some, List, [], ◌∷◌, if◌then◌else◌,
}

-- An `io.Writer`: without a Close method, with one, or an *os.File.
pub data Writer : Type 0 where
  plain : ℕ → Writer
  closer : ℕ → Writer
  file : ℕ → Writer

pub data Action : Type 0 where
  trace_start : Option Writer → Action
  trace_stop : Action
  create : ℕ → Action
  sync : Writer → Action
  close : Writer → Action
  hook : ℕ → Action

-- The error with which a call ends, if it fails, after the calls of the list.
pub record Runtime : Type 0 where
  pub start_error : List Action → Option String
  pub create_error : List Action → Option String
  pub close_error : List Action → Option String
  pub hook_error : List Action → Option String

pub record Tracer : Type 0 where
  pub stop_done : Bool
  pub flush_done : Bool
  pub flush_err : Option String
  pub writer : Option Writer
  pub owns_writer : Bool
  pub flush_hook : Option ℕ
  pub started : Bool
  pub calls : List Action

abbrev pub new_tracer : Tracer
new_tracer = record {
  stop_done = false;
  flush_done = false;
  flush_err = none;
  writer = none;
  owns_writer = false;
  flush_hook = none;
  started = false;
  calls = [];
}

abbrev closable : Writer → Option Writer
closable (plain n) = none
closable (closer n) = some (closer n)
closable (file n) = some (file n)

abbrev begin : Option String → Tracer → Tracer
begin none t = record t { started = true }
begin (some err) t = t

abbrev aim : Option Writer → Tracer → Tracer
aim none t = t
aim (some w) t = record t { writer = closable w; owns_writer = false }

abbrev pub log : Action → Tracer → Tracer
log a t = record t { calls = a ∷ t.calls }

-- The new state and the error that is returned. Without a writer the trace goes to io.Discard.
unfoldable pub start : Runtime → Option Writer → Tracer → Tracer × Option String
start rt w t = let err = rt.start_error t.calls in (begin err (log (trace_start w) (aim w t)), err)

abbrev begin_file : ℕ → Option String → Tracer → Tracer
begin_file n none t = record t { started = true }
begin_file n (some err) t = log (close (file n)) (record t { writer = none; owns_writer = false })

abbrev try_file : Runtime → ℕ → Option String → Tracer → Tracer × Option String
try_file rt n (some err) t = (t, some err)
try_file rt n none t =
    let opened = log (create n) (record t { writer = some (file n); owns_writer = true }) in
    let err = rt.start_error opened.calls in
    (begin_file n err (log (trace_start (some (file n))) opened), err)

-- The file is known by a number, which stands for its path.
unfoldable pub start_file : Runtime → ℕ → Tracer → Tracer × Option String
start_file rt n t = try_file rt n (rt.create_error t.calls) t

unfoldable pub stop_idempotent : Tracer → Tracer
stop_idempotent t =
    if t.started && not t.stop_done then log trace_stop (record t { stop_done = true }) else t

-- The first error is kept.
abbrev pub keep_error : Option String → Tracer → Tracer
keep_error err t = elim t.flush_err [ none ↦ record t { flush_err = err } | some old ↦ t ]

abbrev sync_file : Writer → Tracer → Tracer
sync_file (file n) t = log (sync (file n)) t
sync_file (closer n) t = t
sync_file (plain n) t = t

unfoldable pub close_writer : Runtime → Option Writer → Tracer → Tracer
close_writer rt none t = t
close_writer rt (some w) t =
    let s = sync_file w t in
    if t.owns_writer then keep_error (rt.close_error s.calls) (log (close w) s) else t

unfoldable pub run_hook : Runtime → Option ℕ → Tracer → Tracer
run_hook rt none t = t
run_hook rt (some h) t = keep_error (rt.hook_error t.calls) (log (hook h) t)

unfoldable pub flush_idempotent : Runtime → Tracer → Tracer
flush_idempotent rt t =
    if t.flush_done
    then t
    else run_hook rt t.flush_hook (close_writer rt t.writer (record t { flush_done = true }))

unfoldable pub flush : Runtime → Tracer → Tracer × Option String
flush rt t = let u = flush_idempotent rt t in (u, u.flush_err)

unfoldable pub set_flush_hook : Option ℕ → Tracer → Tracer
set_flush_hook h t = record t { flush_hook = h }

-- StopFlushExit of stopper.go, up to the exit of the process.
unfoldable pub stop_flush : Runtime → Tracer → Tracer
stop_flush rt t = (flush rt (stop_idempotent t)).0

-- The calls of the package's functions.
pub data Call : Type 0 where
  call_start : Option Writer → Call
  call_start_file : ℕ → Call
  call_stop : Call
  call_flush : Call
  call_set_hook : Option ℕ → Call
  call_stop_flush : Call

unfoldable pub step : Runtime → Call → Tracer → Tracer
step rt (call_start w) t = (start rt w t).0
step rt (call_start_file n) t = (start_file rt n t).0
step rt call_stop t = stop_idempotent t
step rt call_flush t = (flush rt t).0
step rt (call_set_hook h) t = set_flush_hook h t
step rt call_stop_flush t = stop_flush rt t

unfoldable pub run : Runtime → List Call → Tracer → Tracer
run rt [] t = t
run rt (c ∷ cs) t = run rt cs (step rt c t)
