-- ===== src/Instrument/Directives.antt =====
-- `ParseOptionsFromEnvAndDirectives`: the environment, the configuration file, the filters of
-- packages, and the directives of the source file, in this order.
use Prim.Native.Char.{Char, code}
use mathlib.Core.List.{◌++◌ as append}
use gtv_final_submission.Prelude.Int.{ℤ, pos}
use gtv_final_submission.Prelude.Text.{to_lower, trim_space, split_first, starts_with}
use gtv_final_submission.Prelude.Words.{trim_prefix, trim_quotes, split_at}
use gtv_final_submission.Prelude.{
  String, Bool, true, false, not, ◌&&◌, ◌||◌, nat_beq, Option, none, some, List, [], ◌∷◌, ◌==◌,
  string_eq, if◌then◌else◌,
}
use gtv_final_submission.Timeline.Kinds.{one_of}
use gtv_final_submission.Instrument.Options.{
  Options, merge_env, mvp_enabled, apply_mvp_defaults, downgrade_to_tasks_only, parse_bool_word,
  split_list, match_any,
}

-- The configuration file. A pointer that is nil leaves the option as it is.
pub record Config : Type 0 where
  pub guard_labels : Option Bool
  pub goroutine_regions : Option Bool
  pub block_regions : Option Bool
  pub http_tasks : Option Bool
  pub grpc_tasks : Option Bool
  pub loop_regions : Option Bool
  pub io_regions : Option Bool
  pub database_sql : Option Bool
  pub encoding_json : Option Bool
  pub net_http : Option Bool
  pub os_io : Option Bool
  pub assume_background : Option Bool
  pub io_assume_background : Option Bool
  pub level : String
  pub only : List String
  pub skip : List String
  pub include_packages : List String
  pub exclude_packages : List String

-- What the code uses of a parsed file: the name of its package, and the texts of its comments.
pub record SourceFile : Type 0 where
  pub package_name : String
  pub comments : List String

-- What the function returns. A set is the list of its members, in the order of their insertion.
pub record Parsed : Type 0 where
  pub opts : Options
  pub only_set : List String
  pub skip_set : List String
  pub timeout_ns : ℤ
  pub has_timeout : Bool
  pub done_name : String

abbrev pub or_old : Option Bool → Bool → Bool
or_old none old = old
or_old (some b) old = b

abbrev is_nil : List String → Bool
is_nil [] = true
is_nil (p ∷ ps) = false

abbrev pub replace_list : List String → List String → List String
replace_list [] old = old
replace_list (p ∷ ps) old = p ∷ ps

unfoldable pub merge_config : Config → Options → Options
merge_config c o = record o {
  guard_dynamic_labels = or_old c.guard_labels o.guard_dynamic_labels;
  add_goroutine_regions = or_old c.goroutine_regions o.add_goroutine_regions;
  add_block_regions = or_old c.block_regions o.add_block_regions;
  add_http_handler_tasks = or_old c.http_tasks o.add_http_handler_tasks;
  add_grpc_tasks = or_old c.grpc_tasks o.add_grpc_tasks;
  add_loop_regions = or_old c.loop_regions o.add_loop_regions;
  add_io_regions = or_old c.io_regions o.add_io_regions;
  add_io_db_regions = or_old c.database_sql o.add_io_db_regions;
  add_io_json_regions = or_old c.encoding_json o.add_io_json_regions;
  add_io_http_regions = or_old c.net_http o.add_io_http_regions;
  add_io_os_regions = or_old c.os_io o.add_io_os_regions;
  io_assume_background =
      or_old c.io_assume_background (or_old c.assume_background o.io_assume_background);
  level = if c.level == "" then o.level else to_lower c.level;
  include_packages = replace_list c.include_packages o.include_packages;
  exclude_packages = replace_list c.exclude_packages o.exclude_packages;
}

abbrev pub insert_names : List String → List String → List String
insert_names [] known = known
insert_names (s ∷ ss) known =
    let name = trim_space s in
    insert_names ss (if name == "" then known else append known (name ∷ []))

unfoldable pub is_excluded : (String → String → Bool) → String → List String → List String → Bool
is_excluded path_match name include exclude =
    (not (is_nil include) && not (match_any path_match name include))
    || match_any path_match name exclude

-- The gate of packages, which stands twice in the code: on the lists of the file, and on the options'.
abbrev pub gate : (String → String → Bool) → String → List String → List String → Options → Options
gate path_match name include exclude o =
    if is_excluded path_match name include exclude then downgrade_to_tasks_only o else o

unfoldable pub apply_config : (String → String → Bool) → String → Option Config → Parsed → Parsed
apply_config path_match name none p = p
apply_config path_match name (some c) p = record p {
  opts = gate path_match name c.include_packages c.exclude_packages (merge_config c p.opts);
  only_set = insert_names c.only p.only_set;
  skip_set = insert_names c.skip p.skip_set;
}

abbrev pub set_timeout : Option ℤ → Parsed → Parsed
set_timeout none p = p
set_timeout (some d) p = record p { timeout_ns = d; has_timeout = true }

-- The switch on the key of a directive.
unfoldable pub apply_directive : (String → Option ℤ) → String → String → Parsed → Parsed
apply_directive parse_duration key val p =
    let o = p.opts in
    if one_of ("timeout" ∷ "bounded" ∷ []) key
    then set_timeout (parse_duration val) p
    else if key == "done"
    then (if val == "" then p else record p { done_name = trim_quotes val })
    else if key == "goroutine_regions"
    then record p {
      opts = record o { add_goroutine_regions = parse_bool_word val o.add_goroutine_regions };
    }
    else if key == "guard_labels"
    then record p {
      opts = record o { guard_dynamic_labels = parse_bool_word val o.guard_dynamic_labels };
    }
    else if key == "level"
    then (if val == ""
        then p
        else record p { opts = record o { level = to_lower (trim_quotes val) } })
    else if key == "block_regions"
    then record p {
      opts = record o { add_block_regions = parse_bool_word val o.add_block_regions };
    }
    else if key == "http_tasks"
    then record p {
      opts = record o { add_http_handler_tasks = parse_bool_word val o.add_http_handler_tasks };
    }
    else if key == "grpc_tasks"
    then record p { opts = record o { add_grpc_tasks = parse_bool_word val o.add_grpc_tasks } }
    else if key == "loop_regions"
    then record p { opts = record o { add_loop_regions = parse_bool_word val o.add_loop_regions } }
    else if key == "io_regions"
    then record p { opts = record o { add_io_regions = parse_bool_word val o.add_io_regions } }
    else if key == "only"
    then record p { only_set = append p.only_set (split_list val) }
    else if key == "skip"
    then record p { skip_set = append p.skip_set (split_list val) }
    else p

abbrev pub apply_pair : (String → Option ℤ) → Option (String × String) → Parsed → Parsed
apply_pair parse_duration none p = p
apply_pair parse_duration (some (k, v)) p =
    apply_directive parse_duration (to_lower (trim_space k)) (trim_space v) p

unfoldable pub apply_parts : (String → Option ℤ) → List String → Parsed → Parsed
apply_parts parse_duration [] p = p
apply_parts parse_duration (part ∷ parts) p =
    apply_parts parse_duration parts
      (apply_pair parse_duration (split_first (trim_space part) "=") p)

is_comma : Char → Bool
is_comma c = nat_beq (code c) b','

-- The text of a comment behind the slashes.
abbrev pub comment_text : String → String
comment_text c = trim_space (trim_prefix c "//")

abbrev pub is_directive : String → Bool
is_directive c = starts_with (comment_text c) "gtv:"

-- The parts of a directive that the commas separate.
unfoldable pub directive_parts : String → List String
unfolding is_comma
directive_parts c = split_at is_comma (trim_space (trim_prefix (comment_text c) "gtv:"))

unfoldable pub apply_comment : (String → Option ℤ) → String → Parsed → Parsed
apply_comment parse_duration c p =
    if is_directive c then apply_parts parse_duration (directive_parts c) p else p

unfoldable pub apply_comments : (String → Option ℤ) → List String → Parsed → Parsed
apply_comments parse_duration [] p = p
apply_comments parse_duration (c ∷ cs) p =
    apply_comments parse_duration cs (apply_comment parse_duration c p)

-- The configuration of the file that GTV_INSTR_CONFIG names, if it can be read and decoded.
abbrev pub config_of : (String → String) → (String → Option Config) → Option Config
config_of env read_config =
    let cfg_path = trim_space (env "GTV_INSTR_CONFIG") in
    if cfg_path == "" then none else read_config cfg_path

-- The options of the environment, before any filter or directive.
abbrev pub at_start : (String → String) → Options → Parsed
at_start env base = record {
  opts = merge_env env base;
  only_set = [];
  skip_set = [];
  timeout_ns = pos 0;
  has_timeout = false;
  done_name = "";
}

module _ (env : String → String) (read_config : String → Option Config)
    (path_match : String → String → Bool) (parse_duration : String → Option ℤ) where
  -- Up to the directives.
  unfoldable pub gated : SourceFile → Options → Parsed
  gated file base =
      let p =
        apply_config path_match file.package_name (config_of env read_config) (at_start env base) in
      record p {
        opts =
            gate path_match file.package_name p.opts.include_packages p.opts.exclude_packages
              p.opts;
      }

  unfoldable pub parse_options_from_env_and_directives : SourceFile → Options → Parsed
  parse_options_from_env_and_directives file base =
      let p = apply_comments parse_duration file.comments (gated file base) in
      if mvp_enabled env then record p { opts = apply_mvp_defaults p.opts } else p
