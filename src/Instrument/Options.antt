-- ===== src/Instrument/Options.antt =====
-- `Options`, and how the environment, a configuration file and the directives of a source file change
-- them. The environment, the file system, the JSON decoder, path.Match and time.ParseDuration are
-- parameters; of a parsed source file the code uses the name of its package and its comments.
use Prim.Native.Char.{Char, code}
use gtv_final_submission.Prelude.Text.{to_lower, trim_space}
use gtv_final_submission.Prelude.Words.{equal_fold, trim_quotes, fields_func, has_char}
use gtv_final_submission.Prelude.{
  String, Bool, true, false, not, ◌&&◌, ◌||◌, nat_beq, List, [], ◌∷◌, ◌==◌, string_eq,
  if◌then◌else◌,
}
use gtv_final_submission.Timeline.Kinds.{one_of}

pub record Options : Type 0 where
  pub level : String
  pub guard_dynamic_labels : Bool
  pub add_goroutine_regions : Bool
  pub add_block_regions : Bool
  pub add_http_handler_tasks : Bool
  pub add_grpc_tasks : Bool
  pub add_loop_regions : Bool
  pub add_value_logs : Bool
  pub add_io_regions : Bool
  pub add_io_json_regions : Bool
  pub add_io_db_regions : Bool
  pub add_io_http_regions : Bool
  pub add_io_os_regions : Bool
  pub io_assume_background : Bool
  pub include_packages : List String
  pub exclude_packages : List String

abbrev pub instr_opts : Options
instr_opts = record {
  level = "regions";
  guard_dynamic_labels = true;
  add_goroutine_regions = true;
  add_block_regions = true;
  add_http_handler_tasks = false;
  add_grpc_tasks = false;
  add_loop_regions = false;
  add_value_logs = false;
  add_io_regions = false;
  add_io_json_regions = false;
  add_io_db_regions = false;
  add_io_http_regions = false;
  add_io_os_regions = false;
  io_assume_background = false;
  include_packages = [];
  exclude_packages = [];
}

abbrev pub yes_words : List String
yes_words = "1" ∷ "true" ∷ "yes" ∷ "on" ∷ []

abbrev pub no_words : List String
no_words = "0" ∷ "false" ∷ "no" ∷ "off" ∷ []

unfoldable pub bool_env : (String → String) → String → Bool → Bool
bool_env env name def =
    let v = trim_space (env name) in if v == "" then def else one_of yes_words (to_lower v)

abbrev pub mvp_enabled : (String → String) → Bool
mvp_enabled env = bool_env env "GTV_MVP" false

unfoldable pub apply_mvp_defaults : Options → Options
apply_mvp_defaults o = record o {
  add_io_regions = false;
  add_io_json_regions = false;
  add_io_db_regions = false;
  add_io_http_regions = false;
  add_io_os_regions = false;
  io_assume_background = false;
  add_loop_regions = false;
  add_http_handler_tasks = false;
  add_grpc_tasks = false;
  add_value_logs = false;
}

-- `SetOptions`, as the new value of `instrOpts`.
unfoldable pub set_options : (String → String) → Options → Options
set_options env o = if mvp_enabled env then apply_mvp_defaults o else o

unfoldable pub value_logs_env : (String → String) → Bool → Bool
value_logs_env env def = bool_env env "GTV_LOG_VALUES" def

unfoldable pub downgrade_to_tasks_only : Options → Options
downgrade_to_tasks_only o = record o {
  level = "tasks_only";
  add_goroutine_regions = false;
  add_block_regions = false;
  add_http_handler_tasks = false;
  add_grpc_tasks = false;
  add_io_regions = false;
  add_io_json_regions = false;
  add_io_db_regions = false;
  add_io_http_regions = false;
  add_io_os_regions = false;
  io_assume_background = false;
}

unfoldable pub parse_bool_word : String → Bool → Bool
parse_bool_word v def =
    let w = to_lower (trim_quotes v) in
    if one_of yes_words w then true else if one_of no_words w then false else def

is_list_sep : Char → Bool
is_list_sep c =
    nat_beq (code c) b',' || (nat_beq (code c) b'|' || (nat_beq (code c) 32 || nat_beq (code c) 9))

trim_words : List String → List String
trim_words [] = []
trim_words (w ∷ ws) =
    let rest = trim_words ws in if trim_space w == "" then rest else trim_space w ∷ rest

unfoldable pub split_list : String → List String
unfolding is_list_sep trim_words
split_list s =
    let t = trim_quotes s in if t == "" then [] else trim_words (fields_func is_list_sep t)

is_glob : Char → Bool
is_glob c = nat_beq (code c) b'*' || (nat_beq (code c) b'?' || nat_beq (code c) b'[')

-- The closure `matchAny`.
unfoldable pub match_any : (String → String → Bool) → String → List String → Bool
unfolding is_glob
match_any path_match name [] = false
match_any path_match name (p ∷ ps) =
    let pattern = trim_space p in
    (not (pattern == "")
      && (if has_char is_glob pattern then path_match pattern name else equal_fold pattern name))
    || match_any path_match name ps

-- The environment over the defaults.
unfoldable pub merge_env : (String → String) → Options → Options
merge_env env o =
    let lvl = trim_space (env "GTV_INSTR_LEVEL") in
    record {
      level = if lvl == "" then o.level else to_lower lvl;
      guard_dynamic_labels = bool_env env "GTV_INSTR_GUARD_LABELS" o.guard_dynamic_labels;
      add_goroutine_regions = bool_env env "GTV_INSTR_GOROUTINE_REGIONS" o.add_goroutine_regions;
      add_block_regions = bool_env env "GTV_INSTR_BLOCK_REGIONS" o.add_block_regions;
      add_http_handler_tasks = bool_env env "GTV_INSTR_HTTP_TASKS" o.add_http_handler_tasks;
      add_grpc_tasks = bool_env env "GTV_INSTR_GRPC_TASKS" o.add_grpc_tasks;
      add_loop_regions = bool_env env "GTV_INSTR_LOOP_REGIONS" o.add_loop_regions;
      add_value_logs = bool_env env "GTV_LOG_VALUES" o.add_value_logs;
      add_io_regions = bool_env env "GTV_INSTR_IO_REGIONS" o.add_io_regions;
      add_io_json_regions = bool_env env "GTV_INSTR_IO_JSON" o.add_io_json_regions;
      add_io_db_regions = bool_env env "GTV_INSTR_IO_DB" o.add_io_db_regions;
      add_io_http_regions = bool_env env "GTV_INSTR_IO_HTTP" o.add_io_http_regions;
      add_io_os_regions = bool_env env "GTV_INSTR_IO_OS" o.add_io_os_regions;
      io_assume_background = bool_env env "GTV_INSTR_IO_ASSUME_BG" o.io_assume_background;
      include_packages = o.include_packages;
      exclude_packages = o.exclude_packages;
    }
