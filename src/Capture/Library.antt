-- ===== src/Capture/Library.antt =====
-- gtv/trace.go: the package that programs import.
use gtv_final_submission.Prelude.{
  ℕ, String, Bool, true, false, Option, none, some, List, [], ◌∷◌, if◌then◌else◌,
}
use gtv_final_submission.Capture.Tracer.{
  Writer, plain, closer, file, Action, trace_start, trace_stop, close, hook, Runtime,
}

pub record Session : Type 0 where
  pub started : Bool
  pub stop_done : Bool
  pub flush_done : Bool
  pub flush_fn : Option ℕ
  pub close_fn : Option Writer
  pub calls : List Action

abbrev pub new_session : Session
new_session = record {
  started = false;
  stop_done = false;
  flush_done = false;
  flush_fn = none;
  close_fn = none;
  calls = [];
}

abbrev keep_closer : Writer → Session → Session
keep_closer (plain n) s = s
keep_closer (closer n) s = record s { close_fn = some (closer n) }
keep_closer (file n) s = record s { close_fn = some (file n) }

abbrev begin : Option String → Writer → Session → Session
begin (some err) w s = s
begin none w s = keep_closer w (record s { started = true })

unfoldable pub start : Runtime → Writer → Session → Session × Option String
start rt w s =
    let err = rt.start_error s.calls in
    (begin err w (record s { calls = trace_start (some w) ∷ s.calls }), err)

-- A nil function is not stored.
unfoldable pub set_flush_func : Option ℕ → Session → Session
set_flush_func none s = s
set_flush_func (some f) s = record s { flush_fn = some f }

unfoldable pub stop : Session → Session
stop s =
    if s.stop_done
    then s
    else if s.started
    then record s { stop_done = true; calls = trace_stop ∷ s.calls }
    else record s { stop_done = true }

abbrev finish : Option ℕ → Option Writer → Session → Session
finish (some f) w s = record s { calls = hook f ∷ s.calls }
finish none (some w) s = record s { calls = close w ∷ s.calls }
finish none none s = s

unfoldable pub flush : Session → Session
flush s = if s.flush_done then s else finish s.flush_fn s.close_fn (record s { flush_done = true })

pub data Call : Type 0 where
  call_start : Writer → Call
  call_stop : Call
  call_flush : Call
  call_set_flush_func : Option ℕ → Call

unfoldable pub step : Runtime → Call → Session → Session
step rt (call_start w) s = (start rt w s).0
step rt call_stop s = stop s
step rt call_flush s = flush s
step rt (call_set_flush_func f) s = set_flush_func f s

unfoldable pub run : Runtime → List Call → Session → Session
run rt [] s = s
run rt (c ∷ cs) s = run rt cs (step rt c s)
