-- ===== src/Config/Validate/Meaning.antt =====
-- What holds of a configuration with no issues.
use congraph_log_watcher.Common.{
  ℕ, suc, ◌≡◌, refl, ap, ◌⊎◌, inl, inr, Bool, true, false, not, List, [], ◌∷◌, ◌++◌, Option, none,
  some, Text, text, text_eq, has_text, is_nil, is_empty, is_negative, is_nonpositive, All, arith,
  Strings, Regexp, Result, ok, err, Bool-cases, if◌then◌else◌,
}
use congraph_log_watcher.Entry.Level.{LogLevel, LevelError, parse_log_level}
use congraph_log_watcher.Config.{Config, RuleConfig, DedupConfig}
use congraph_log_watcher.Config.Validate.{
  Issue, Place, Fault, issue_if, issue_of, concat, name_fault, with_name, level_fault, with_level,
  is_blank, pattern_fault, validate_names, validate_levels, validate_levels_from,
  validate_regex_from, validate_pattern, validate_excludes, validate_dedup, validate_dedup_fields,
  rule_parts, limit_parts, config_parts, under, validate_rule, validate_rules_from, validate_rules,
  validate_limits, validate, validate_regex_rules, redaction_patterns, normalization_patterns,
  allowed_dedup_modes,
}

append-nil_inv : (xs ys : List Issue) → xs ++ ys ≡ [] → (xs ≡ []) × (ys ≡ [])
append-nil_inv [] ys h = (refl, h)
append-nil_inv (x ∷ xs) ys h = cc

concat-All : (xss : List (List Issue)) → concat xss ≡ [] → All (λ xs. xs ≡ []) xss
concat-All [] h = tt
concat-All (xs ∷ xss) h = let (p, q) = append-nil_inv xs (concat xss) h in (p, concat-All xss q)

issue_if-nil : (b : Bool) (p : Place) (f : Fault) → issue_if b p f ≡ [] → b ≡ false
issue_if-nil true p f h = cc
issue_if-nil false p f h = refl

issue_of-nil : (p : Place) (o : Option Fault) → issue_of p o ≡ [] → o ≡ none
issue_of-nil p none h = refl
issue_of-nil p (some f) h = cc

module _ (strings : Strings) where
  not_blank : (t : Text) → is_blank strings t ≡ false → is_empty t ≡ false
  not_blank [] h = absurd_blank (ap is_empty (strings.trim_space_ascii [] tt)) h
    where
      absurd_blank :
          is_empty (strings.trim_space []) ≡ true
          → is_empty (strings.trim_space []) ≡ false
          → is_empty (text "") ≡ false
      absurd_blank p q = cc
  not_blank (c ∷ t) h = refl

  -- The text names a level.
  abbrev pub Names : Text → Type 0
  Names value = (l : LogLevel) × (parse_log_level strings value ≡ ok l)

  level_fault-none :
      (seen : List LogLevel) (r : Result LevelError LogLevel)
      → level_fault seen r ≡ none
      → (l : LogLevel) × (r ≡ ok l)
  level_fault-none seen (ok l) h = (l, refl)
  level_fault-none seen (err e) h = cc

  validate_levels_from-Names :
      (path : Place) (index : ℕ) (seen : List LogLevel) (values : List Text)
      → validate_levels_from strings path index seen values ≡ []
      → All Names values
  unfolding validate_levels_from
  validate_levels_from-Names path index seen [] h = tt
  validate_levels_from-Names path index seen (v ∷ vs) h =
      let (p, q) = append-nil_inv _ _ h in
      (
        level_fault-none seen (parse_log_level strings v) (issue_of-nil _ _ p),
        validate_levels_from-Names path (suc index) (with_level seen (parse_log_level strings v)) vs
            q,
      )

  pub validate_levels-Names :
      (path : Place) (values : List Text)
      → validate_levels strings path values true ≡ []
      → (is_nil values ≡ false) × All Names values
  unfolding validate_levels
  validate_levels-Names path [] h = cc
  validate_levels-Names path (v ∷ vs) h = (refl, validate_levels_from-Names path 0 [] (v ∷ vs) h)

  validate_names_given :
      (path : Place) (values : List Text)
      → validate_names strings path values true ≡ []
      → is_nil values ≡ false
  unfolding validate_names
  validate_names_given path [] h = cc
  validate_names_given path (v ∷ vs) h = refl

module _ (strings : Strings) (regexp : Regexp) where
  open strings use {trim_space, to_lower}
  open regexp use {Pattern, compile}

  -- The pattern is not empty, and compiles.
  abbrev pub Compiles : Text → Type 0
  Compiles pattern = (is_empty pattern ≡ false) × (p : Pattern) × (compile pattern ≡ some p)

  pattern_fault-none : (o : Option Pattern) → pattern_fault o ≡ none → (p : Pattern) × (o ≡ some p)
  pattern_fault-none none h = cc
  pattern_fault-none (some p) h = (p, refl)

  pattern-Compiles :
      (pattern : Text)
      → (if is_blank strings pattern then some Fault.empty else pattern_fault (compile pattern))
        ≡ none
      → Compiles pattern
  pattern-Compiles pattern h = elim (Bool-cases (is_blank strings pattern)) [
    | inl b ↦ ground (arith, b, h)
    | inr b ↦
        let (p, e) = pattern_fault-none (compile pattern) (ground (arith, b, h)) in
        (not_blank strings pattern b, p, e)
  ]

  validate_regex_from-Compiles :
      (path : Place) (index : ℕ) (patterns : List Text)
      → validate_regex_from strings regexp path index patterns ≡ []
      → All Compiles patterns
  unfolding validate_regex_from
  validate_regex_from-Compiles path index [] h = tt
  validate_regex_from-Compiles path index (p ∷ ps) h =
      let (a, b) = append-nil_inv _ _ h in
      (pattern-Compiles p (issue_of-nil _ _ a), validate_regex_from-Compiles path (suc index) ps b)

  -- The pattern is empty, or compiles.
  abbrev pub MayCompile : Text → Type 0
  MayCompile pattern = (is_empty pattern ≡ true) ⊎ ((p : Pattern) × (compile pattern ≡ some p))

  validate_pattern-MayCompile :
      (path : Place) (pattern : Text)
      → validate_pattern strings regexp path pattern ≡ []
      → MayCompile pattern
  unfolding validate_pattern
  validate_pattern-MayCompile path [] h = inl refl
  validate_pattern-MayCompile path (c ∷ t) h =
      inr (pattern_fault-none (compile (c ∷ t)) (issue_of-nil _ _ h))

  validate_excludes-MayCompile :
      (path : Place) (index : ℕ) (patterns : List Text)
      → validate_excludes strings regexp path index patterns ≡ []
      → All MayCompile patterns
  unfolding validate_excludes
  validate_excludes-MayCompile path index [] h = tt
  validate_excludes-MayCompile path index (p ∷ ps) h =
      let (a, b) = append-nil_inv _ _ h in
      (validate_pattern-MayCompile _ p a, validate_excludes-MayCompile path (suc index) ps b)

  -- What the code relies on of a rule
  pub record IsRule (rule : RuleConfig) : Type 0 where
    pub named : is_empty (trim_space rule.id) ≡ false
    pub levels_given : is_nil rule.match_config.levels ≡ false
    pub levels : All (Names strings) rule.match_config.levels
    pub pattern : MayCompile rule.match_config.pattern
    pub excludes : All MayCompile rule.match_config.excludes
    pub threshold : is_nonpositive rule.threshold ≡ false
    pub window : is_nonpositive rule.window ≡ false
    pub cooldown : is_negative rule.cooldown ≡ false
    pub mode : has_text allowed_dedup_modes (to_lower (trim_space rule.dedup.mode)) ≡ true
    pub fields :
        text_eq (to_lower (trim_space rule.dedup.mode)) (text "fields") ≡ true
        → is_nil rule.dedup.fields ≡ false
    pub normalize : All Compiles (normalization_patterns rule.dedup.normalize)

  not-false : (b : Bool) → not b ≡ false → b ≡ true
  not-false b h = ground arith

  name_fault-none : (seen : List Text) (t : Text) → name_fault seen t ≡ none → is_empty t ≡ false
  name_fault-none seen [] h = cc
  name_fault-none seen (c ∷ t) h = refl

  dedup_fields_given :
      (path : Place) (dedup : DedupConfig)
      → text_eq (to_lower (trim_space dedup.mode)) (text "fields") ≡ true
      → validate_dedup_fields strings regexp path dedup ≡ []
      → is_nil dedup.fields ≡ false
  unfolding validate_dedup_fields
  dedup_fields_given path dedup e h =
      validate_names_given strings (under path (text "fields")) dedup.fields (rw e at h)

  validate_dedup_lem :
      (path : Place) (dedup : DedupConfig)
      → validate_dedup strings regexp path dedup ≡ []
      → (has_text allowed_dedup_modes (to_lower (trim_space dedup.mode)) ≡ true)
        × (text_eq (to_lower (trim_space dedup.mode)) (text "fields") ≡ true
            → is_nil dedup.fields ≡ false)
        × All Compiles (normalization_patterns dedup.normalize)
  unfolding validate_dedup
  validate_dedup_lem path dedup h =
      let (a, bc) = append-nil_inv _ _ h in
      let (b, c) = append-nil_inv _ _ bc in
      (
        not-false _ (issue_if-nil _ _ _ a),
        λ e. dedup_fields_given path dedup e b,
        validate_regex_from-Compiles (under path (text "normalize")) 0
            (normalization_patterns dedup.normalize) c,
      )

  validate_rule-IsRule :
      (path : Place) (rule : RuleConfig)
      → is_empty (trim_space rule.id) ≡ false
      → validate_rule strings regexp path rule ≡ []
      → IsRule rule
  unfolding validate_rule rule_parts
  validate_rule-IsRule path rule n h =
      let (
        severity,
        (
          containers,
          (
            levels,
            (pattern, (excludes, (equals, (threshold, (window, (cooldown, (dedup, rest))))))),
          ),
        ),
      ) =
        concat-All (rule_parts strings regexp path rule) h in
      let (given, names) = validate_levels-Names strings _ rule.match_config.levels levels in
      let (mode, fields, normalize) = validate_dedup_lem _ rule.dedup dedup in
      record {
        named = n;
        levels_given = given;
        levels = names;
        pattern = validate_pattern-MayCompile _ rule.match_config.pattern pattern;
        excludes = validate_excludes-MayCompile _ 0 rule.match_config.excludes excludes;
        threshold = issue_if-nil _ _ _ threshold;
        window = issue_if-nil _ _ _ window;
        cooldown = issue_if-nil _ _ _ cooldown;
        mode = mode;
        fields = fields;
        normalize = normalize;
      }

  validate_rules_from-IsRule :
      (index : ℕ) (ids : List Text) (rules : List RuleConfig)
      → validate_rules_from strings regexp index ids rules ≡ []
      → All IsRule rules
  unfolding validate_rules_from
  validate_rules_from-IsRule index ids [] h = tt
  validate_rules_from-IsRule index ids (r ∷ rs) h =
      let (a, bc) = append-nil_inv _ _ h in
      let (b, c) = append-nil_inv _ _ bc in
      (
        validate_rule-IsRule _ r (name_fault-none ids (trim_space r.id) (issue_of-nil _ _ a)) b,
        validate_rules_from-IsRule (suc index) (with_name ids (trim_space r.id)) rs c,
      )

  validate_rules-IsRule :
      (rules : List RuleConfig) → validate_rules strings regexp rules ≡ [] → All IsRule rules
  unfolding validate_rules
  validate_rules-IsRule [] h = cc
  validate_rules-IsRule (r ∷ rs) h = validate_rules_from-IsRule 0 [] (r ∷ rs) h

  -- What the code relies on of a configuration
  pub record IsConfig (c : Config) : Type 0 where
    pub context_levels : All (Names strings) c.levels.context
    pub candidate_levels : All (Names strings) c.levels.alert_candidates
    pub redactions : All Compiles (redaction_patterns c.redaction.rules)
    pub rules : All IsRule c.rules
    pub max_groups : is_nonpositive c.aggregation.max_groups ≡ false
    pub group_ttl : is_nonpositive c.aggregation.group_ttl ≡ false
    pub max_samples : is_nonpositive c.aggregation.max_samples ≡ false
    pub buffer_lines : is_nonpositive c.context.buffer_lines ≡ false
    pub queue_size : is_nonpositive c.notifier.queue_size ≡ false
    pub max_alerts : is_nonpositive c.notifier.max_alerts_per_minute ≡ false
    pub storm_cooldown : is_negative c.notifier.storm_cooldown ≡ false

  pub validate-IsConfig : (c : Config) → validate strings regexp c ≡ [] → IsConfig c
  unfolding validate config_parts limit_parts validate_limits validate_regex_rules
  validate-IsConfig c h =
      let (
        level,
        (
          socket,
          (
            parser,
            (
              names,
              (
                context,
                (candidates, (checkpoint, (limits, (service, (redaction, (rules, rest)))))),
              ),
            ),
          ),
        ),
      ) =
        concat-All (config_parts strings regexp c) h in
      let (groups, (ttl, (samples, (buffer, (queue, (alerts, (storm, end))))))) =
        concat-All (limit_parts c) limits in
      record {
        context_levels = (validate_levels-Names strings _ c.levels.context context).1;
        candidate_levels = (validate_levels-Names strings _ c.levels.alert_candidates candidates).1;
        redactions = validate_regex_from-Compiles _ 0 _ redaction;
        rules = validate_rules-IsRule c.rules rules;
        max_groups = issue_if-nil _ _ _ groups;
        group_ttl = issue_if-nil _ _ _ ttl;
        max_samples = issue_if-nil _ _ _ samples;
        buffer_lines = issue_if-nil _ _ _ buffer;
        queue_size = issue_if-nil _ _ _ queue;
        max_alerts = issue_if-nil _ _ _ alerts;
        storm_cooldown = issue_if-nil _ _ _ storm;
      }
