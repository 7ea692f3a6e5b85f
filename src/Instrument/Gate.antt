-- ===== src/Instrument/Gate.antt =====
-- What the environment, the filters of packages and the directives leave of the options.
use gtv_final_submission.Prelude.Int.{ℤ}
use gtv_final_submission.Prelude.Text.{trim_space, split_first, to_lower}
use gtv_final_submission.Prelude.{
  String, Bool, true, false, ◌||◌, Option, none, some, List, [], ◌∷◌, ◌==◌, string_eq, ◌≡◌, refl,
  ap, ap₂, ◌∙◌, inl, inr, Bool-cases, All, if◌then◌else◌,
}
use gtv_final_submission.Timeline.Kinds.{one_of}
use gtv_final_submission.Instrument.Options.{
  Options, merge_env, mvp_enabled, apply_mvp_defaults, downgrade_to_tasks_only,
}
use gtv_final_submission.Instrument.Directives.{
  Config, SourceFile, Parsed, replace_list, merge_config, is_excluded, gate, apply_config,
  set_timeout, apply_directive, apply_pair, apply_parts, is_directive, at_start, directive_parts,
  apply_comment, apply_comments, config_of, gated, parse_options_from_env_and_directives,
}

-- The regions around input and output that no directive names.
abbrev pub has_io_regions : Options → Bool
has_io_regions o =
    o.add_io_json_regions
    || (o.add_io_db_regions
        || (o.add_io_http_regions || (o.add_io_os_regions || o.io_assume_background)))

record KeepsIo (p q : Parsed) : Type 0 where
  same : has_io_regions q.opts ≡ has_io_regions p.opts

either : {p x y : Parsed} (b : Bool) → KeepsIo p x → KeepsIo p y → KeepsIo p (if b then x else y)
either true h k = h
either false h k = k

timeout-KeepsIo : (p : Parsed) (o : Option ℤ) → KeepsIo p (set_timeout o p)
timeout-KeepsIo p none = record { same = refl }
timeout-KeepsIo p (some d) = record { same = refl }

apply_directive-KeepsIo :
    (d : String → Option ℤ) (key val : String) (p : Parsed)
    → KeepsIo p (apply_directive d key val p)
unfolding apply_directive
apply_directive-KeepsIo d key val p =
    either (one_of ("timeout" ∷ "bounded" ∷ []) key) (timeout-KeepsIo p (d val)) (
      either (key == "done") (either (val == "") (record { same = refl }) (record { same = refl }))
        (either (key == "goroutine_regions") (record { same = refl })
          (either (key == "guard_labels") (record { same = refl })
            (either (key == "level")
              (either (val == "") (record { same = refl }) (record { same = refl }))
              (either (key == "block_regions") (record { same = refl })
                (either (key == "http_tasks") (record { same = refl })
                  (either (key == "grpc_tasks") (record { same = refl })
                    (either (key == "loop_regions") (record { same = refl })
                      (either (key == "io_regions") (record { same = refl })
                        (either (key == "only") (record { same = refl })
                          (either (key == "skip") (record { same = refl })
                            (record { same = refl }))))))))))))

trans-KeepsIo : {p q r : Parsed} → KeepsIo p q → KeepsIo q r → KeepsIo p r
trans-KeepsIo h k = record { same = k.same ∙ h.same }

apply_pair-KeepsIo :
    (d : String → Option ℤ) (o : Option (String × String)) (p : Parsed)
    → KeepsIo p (apply_pair d o p)
apply_pair-KeepsIo d none p = record { same = refl }
apply_pair-KeepsIo d (some (k, v)) p =
    apply_directive-KeepsIo d (to_lower (trim_space k)) (trim_space v) p

apply_parts-KeepsIo :
    (d : String → Option ℤ) (parts : List String) (p : Parsed) → KeepsIo p (apply_parts d parts p)
unfolding apply_parts
apply_parts-KeepsIo d [] p = record { same = refl }
apply_parts-KeepsIo d (part ∷ parts) p =
    let o = split_first (trim_space part) "=" in
    trans-KeepsIo (apply_pair-KeepsIo d o p) (apply_parts-KeepsIo d parts (apply_pair d o p))

apply_comment-KeepsIo :
    (d : String → Option ℤ) (c : String) (p : Parsed) → KeepsIo p (apply_comment d c p)
unfolding apply_comment
apply_comment-KeepsIo d c p =
    either (is_directive c) (apply_parts-KeepsIo d (directive_parts c) p) (record { same = refl })

apply_comments-KeepsIo :
    (d : String → Option ℤ) (cs : List String) (p : Parsed) → KeepsIo p (apply_comments d cs p)
unfolding apply_comments
apply_comments-KeepsIo d [] p = record { same = refl }
apply_comments-KeepsIo d (c ∷ cs) p =
    trans-KeepsIo (apply_comment-KeepsIo d c p) (apply_comments-KeepsIo d cs (apply_comment d c p))

-- Comments that are no directives change nothing.
apply_comments_plain :
    (d : String → Option ℤ) (cs : List String) (p : Parsed)
    → All (λ c. is_directive c ≡ false) cs
    → apply_comments d cs p ≡ p
unfolding apply_comments apply_comment
apply_comments_plain d [] p a = refl
apply_comments_plain d (c ∷ cs) p (h, a) = rw (h, apply_comment) (apply_comments_plain d cs p a)

-- The lists that filter the packages.
abbrev pub filters : Option Config → Options → List String × List String
filters none base = (base.include_packages, base.exclude_packages)
filters (some c) base = (
  replace_list c.include_packages base.include_packages,
  replace_list c.exclude_packages base.exclude_packages,
)

gate_keeps :
    (m : String → String → Bool) (name : String) (ins outs : List String) (o : Options)
    → ((gate m name ins outs o).include_packages ≡ o.include_packages)
      × ((gate m name ins outs o).exclude_packages ≡ o.exclude_packages)
unfolding downgrade_to_tasks_only
gate_keeps m name ins outs o = elim (Bool-cases (is_excluded m name ins outs)) [
  | inl e ↦ rw e (refl, refl)
  | inr e ↦ rw e (refl, refl)
]

gate_closed :
    (m : String → String → Bool) (name : String) (ins outs : List String) (o : Options)
    → is_excluded m name ins outs ≡ true
    → gate m name ins outs o ≡ downgrade_to_tasks_only o
gate_closed m name ins outs o h = rw h refl

lists_are :
    (m : String → String → Bool) (name : String) (env : String → String) (c : Option Config)
    (base : Options)
    → let o = (apply_config m name c (at_start env base)).opts in
      (o.include_packages ≡ (filters c base).0) × (o.exclude_packages ≡ (filters c base).1)
unfolding apply_config merge_config merge_env
lists_are m name env none base = (refl, refl)
lists_are m name env (some c) base =
    gate_keeps m name c.include_packages c.exclude_packages (merge_config c (merge_env env base))

module _ (env : String → String) (read_config : String → Option Config)
    (path_match : String → String → Bool) (parse_duration : String → Option ℤ) (file : SourceFile)
    (base : Options) where
  gated_excluded :
      (let f = filters (config_of env read_config) base in
        is_excluded path_match file.package_name f.0 f.1 ≡ true)
      → (gated env read_config path_match parse_duration file base).opts
        ≡ downgrade_to_tasks_only
            (apply_config path_match file.package_name
              (config_of env read_config)
              (at_start env base)).opts
  unfolding gated
  gated_excluded h =
      let c = config_of env read_config in
      let o = (apply_config path_match file.package_name c (at_start env base)).opts in
      let same = lists_are path_match file.package_name env c base in
      gate_closed path_match file.package_name o.include_packages o.exclude_packages o
        (ap₂ (is_excluded path_match file.package_name) same.0 same.1 ∙ h)

  -- Where the lists of the configuration, or those of the defaults in place of an empty one, exclude
  -- the package of a file, its effective options have none of the regions around input and output
  -- that no directive names, whatever its directives say.
  pub parse_options_excluded :
      (let f = filters (config_of env read_config) base in
        is_excluded path_match file.package_name f.0 f.1 ≡ true)
      → has_io_regions
          (parse_options_from_env_and_directives env read_config path_match parse_duration file
            base).opts
        ≡ false
  unfolding parse_options_from_env_and_directives downgrade_to_tasks_only apply_mvp_defaults
  parse_options_excluded h =
      let g = gated env read_config path_match parse_duration file base in
      let p = apply_comments parse_duration file.comments g in
      let off : has_io_regions p.opts ≡ false =
        (apply_comments-KeepsIo parse_duration file.comments g).same
        ∙ ap has_io_regions (gated_excluded h) in
      elim (Bool-cases (mvp_enabled env)) [
        | inl m ↦ rw (m, parse_options_from_env_and_directives) refl
        | inr m ↦ rw (m, parse_options_from_env_and_directives) off
      ]

  -- Where those lists exclude the package of a file that has no directives, the level of its
  -- effective options is "tasks_only", without regions of goroutines and of blocking operations.
  pub parse_options_tasks_only :
      (let f = filters (config_of env read_config) base in
        is_excluded path_match file.package_name f.0 f.1 ≡ true)
      → All (λ c. is_directive c ≡ false) file.comments
      → let o =
          (parse_options_from_env_and_directives env read_config path_match parse_duration file
            base).opts in
        (o.level ≡ "tasks_only") × (o.add_goroutine_regions ≡ false) × (o.add_block_regions ≡ false)
  unfolding parse_options_from_env_and_directives downgrade_to_tasks_only apply_mvp_defaults
  parse_options_tasks_only h plain =
      let g = gated env read_config path_match parse_duration file base in
      let same : (apply_comments parse_duration file.comments g).opts
          ≡ downgrade_to_tasks_only
              (apply_config path_match file.package_name (config_of env read_config)
                (at_start env base)).opts =
        ap (λ (p : Parsed). p.opts) (apply_comments_plain parse_duration file.comments g plain)
        ∙ gated_excluded h in
      elim (Bool-cases (mvp_enabled env)) [
        | inl m ↦
            rw (m, parse_options_from_env_and_directives)
              (
                ap (λ (o : Options). o.level) same,
                ap (λ (o : Options). o.add_goroutine_regions) same,
                ap (λ (o : Options). o.add_block_regions) same,
              )
        | inr m ↦
            rw (m, parse_options_from_env_and_directives)
              (
                ap (λ (o : Options). o.level) same,
                ap (λ (o : Options). o.add_goroutine_regions) same,
                ap (λ (o : Options). o.add_block_regions) same,
              )
      ]
