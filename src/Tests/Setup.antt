-- ===== src/Tests/Setup.antt =====
-- The options of the instrumenter and the capture of a trace, at concrete settings.
use gtv_final_submission.Prelude.Text.{to_lower, trim_space, drop_text}
use gtv_final_submission.Prelude.Words.{trim_prefix, has_char}
use gtv_final_submission.Prelude.{
  ◌≤◌, String, true, false, none, some, [], ◌∷◌, ◌≡◌, refl, if◌then◌else◌, ◌==◌, string_eq,
}
use gtv_final_submission.Instrument.Options.{instr_opts, match_any}
use gtv_final_submission.Instrument.Directives.{
  Config, SourceFile, is_excluded, parse_options_from_env_and_directives,
}
use gtv_final_submission.Instrument.Gate.{
  has_io_regions, parse_options_excluded, parse_options_tasks_only,
}
use gtv_final_submission.Capture.Library
use gtv_final_submission.Capture.Tracer.{
  Writer, Runtime, Tracer, new_tracer, call_start, call_start_file, call_stop, call_flush, step,
  start_file, stop_idempotent, flush, run,
}
use gtv_final_submission.Capture.Once.{
  IsFaithful, life, next_life, runs, stops, step_refines, told_once, flush_idempotent_twice,
  stop_used_up,
}

abbrev the_path : String
the_path = "cfg.json"

abbrev blank : String
blank = ""

abbrev env : String → String
env name = if name == "GTV_INSTR_CONFIG" then the_path else blank

-- A configuration that leaves out the package "main".
abbrev config : Config
config = record {
  guard_labels = none;
  goroutine_regions = none;
  block_regions = none;
  http_tasks = none;
  grpc_tasks = none;
  loop_regions = none;
  io_regions = none;
  database_sql = some true;
  encoding_json = none;
  net_http = none;
  os_io = none;
  assume_background = none;
  io_assume_background = none;
  level = "";
  only = [];
  skip = [];
  include_packages = [];
  exclude_packages = "Main" ∷ [];
}

abbrev commented : SourceFile
commented = record { package_name = "main"; comments = "// gtv: io_regions=on" ∷ [] }

abbrev plain_file : SourceFile
plain_file = record { package_name = "main"; comments = "// the program" ∷ [] }

parse_options_excluded_example :
    has_io_regions
      (parse_options_from_env_and_directives env
        (λ path. some config)
        (λ p name. false)
        (λ d. none)
        commented
        instr_opts).opts
    ≡ false
unfolding is_excluded match_any trim_space to_lower has_char
parse_options_excluded_example =
    parse_options_excluded env (λ path. some config) (λ p name. false) (λ d. none) commented
      instr_opts refl

parse_options_tasks_only_example :
    let o =
      (parse_options_from_env_and_directives env
        (λ path. some config)
        (λ p name. false)
        (λ d. none)
        plain_file
        instr_opts).opts in
    (o.level ≡ "tasks_only") × (o.add_goroutine_regions ≡ false) × (o.add_block_regions ≡ false)
unfolding is_excluded match_any trim_space to_lower has_char trim_prefix drop_text
parse_options_tasks_only_example =
    parse_options_tasks_only env (λ path. some config) (λ p name. false) (λ d. none) plain_file
      instr_opts refl (refl, tt)

-- A runtime in which nothing fails but the hook.
abbrev runtime : Runtime
runtime = record {
  start_error = λ calls. none;
  create_error = λ calls. none;
  close_error = λ calls. none;
  hook_error = λ calls. some "hook";
}

-- The tracer after a start and a stop.
abbrev stopped_tracer : Tracer
stopped_tracer = run runtime (call_start_file 0 ∷ call_stop ∷ []) new_tracer

step_refines_example :
    (life runtime (step runtime (call_start none) stopped_tracer)
      ≡ next_life runtime stopped_tracer (call_start none) (life runtime stopped_tracer))
    × IsFaithful runtime (step runtime (call_start none) stopped_tracer)
unfolding stops runs run step start_file stop_idempotent
step_refines_example = step_refines runtime (call_start none) stopped_tracer (refl, refl)

told_once_example :
    stops
      (run runtime (call_start_file 0 ∷ call_stop ∷ call_stop ∷ call_flush ∷ []) new_tracer).calls
    ≤ 1
told_once_example = told_once runtime (call_start_file 0 ∷ call_stop ∷ call_stop ∷ call_flush ∷ [])

flush_idempotent_twice_example : let r = flush runtime new_tracer in flush runtime r.0 ≡ r
flush_idempotent_twice_example = flush_idempotent_twice runtime new_tracer

stop_used_up_example :
    stops
      (Library.run runtime
        (Library.call_start (Writer.file 0) ∷ Library.call_stop ∷ [])
        (Library.stop Library.new_session)).calls
    ≡ 0
stop_used_up_example =
    stop_used_up runtime (Library.call_start (Writer.file 0) ∷ Library.call_stop ∷ [])
