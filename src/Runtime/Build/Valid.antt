-- ===== src/Runtime/Build/Valid.antt =====
-- A configuration with no issues is built, and its rules never make the pipeline fail.
use congraph_log_watcher.Common.{
  ℕ, suc, ◌≡◌, refl, ◌⊎◌, inl, inr, true, false, List, [], ◌∷◌, Option, none, some, Text, text,
  text_eq, has_text, text_eq_iff, is_nil, is_empty, ℤ, pos_part, is_nonpositive, All, arith,
  Strings, Regexp, ok, Bool-cases,
}
use congraph_log_watcher.Entry.Level.{LogLevel, set_add}
use congraph_log_watcher.Config.{
  Config as Settings, RuleConfig, RedactionRuleConfig, NormalizationRuleConfig,
}
use congraph_log_watcher.Config.Validate.{
  validate, redaction_patterns, normalization_patterns, allowed_dedup_modes,
}
use congraph_log_watcher.Config.Validate.Meaning.{
  Names, Compiles, MayCompile, IsRule, validate-IsConfig,
}
use congraph_log_watcher.Redact.{Redactor, new_from}
use congraph_log_watcher.Rule.{Rule, Replacement, DedupMode, exact, normalized, fields, rule_only}
use congraph_log_watcher.Rule.Compile.{
  compile_rule, compiled_rule, compile_levels, compile_levels_from, compile_optional_pattern,
  compile_excludes, parse_dedup_mode, new_normalizer, fields_given,
}
use congraph_log_watcher.Router.{new, new_from_names, parse_levels}
use congraph_log_watcher.ContextBuf.Store.{new_store}
use congraph_log_watcher.Aggregate
use congraph_log_watcher.Aggregate.{Aggregator}
use congraph_log_watcher.Aggregate.Invariant.{IsValid, new-IsValid}
use congraph_log_watcher.Processor.Failing.{IsSound}
use congraph_log_watcher.Runtime.Build.{Parts, build_pipeline_parts, redaction_rules, compile_rules}

set_add-given : (set : List LogLevel) (l : LogLevel) → is_nil (set_add set l) ≡ false
set_add-given [] l = refl
set_add-given (m ∷ set) l = ground arith

module _ (strings : Strings) (regexp : Regexp) where
  open strings use {trim_space, to_lower}
  open regexp use {Pattern, compile}

  redactor_built :
      (index : ℕ) (rules : List RedactionRuleConfig)
      → All (Compiles strings regexp) (redaction_patterns rules)
      → (r : Redactor regexp) × (new_from regexp index (redaction_rules rules) ≡ ok r)
  unfolding new_from redaction_rules
  redactor_built index [] h = ([], refl)
  redactor_built index (r ∷ rs) h =
      let (given, p, e) = h.0 in
      let (rest, f) = redactor_built (suc index) rs h.1 in
      (record { pattern = p; replace = r.replace } ∷ rest, ground (arith, given, e, f))

  levels_parsed :
      (values : List Text)
      → All (Names strings) values
      → (ls : List LogLevel) × (parse_levels strings values ≡ ok ls)
  unfolding parse_levels
  levels_parsed [] h = ([], refl)
  levels_parsed (v ∷ vs) h =
      let (l, e) = h.0 in let (ls, f) = levels_parsed vs h.1 in (l ∷ ls, ground (arith, e, f))

  levels_compiled :
      (set : List LogLevel) (values : List Text)
      → All (Names strings) values
      → (is_nil set ≡ false) ⊎ (is_nil values ≡ false)
      → (ls : List LogLevel) × (compile_levels_from strings set values ≡ ok ls)
        × (is_nil ls ≡ false)
  unfolding compile_levels_from
  levels_compiled set [] h (inl n) = (set, refl, n)
  levels_compiled set [] h (inr n) = cc
  levels_compiled set (v ∷ vs) h n =
      let (l, e) = h.0 in
      let (ls, f, g) = levels_compiled (set_add set l) vs h.1 (inl (set_add-given set l)) in
      (ls, ground (arith, e, f), g)

  pattern_compiled :
      (pattern : Text)
      → MayCompile strings regexp pattern
      → (p : Option Pattern) × (compile_optional_pattern regexp pattern ≡ some p)
  unfolding compile_optional_pattern
  pattern_compiled pattern (inl e) = (none, ground (arith, e))
  pattern_compiled pattern (inr (p, e)) = elim (Bool-cases (is_empty pattern)) [
    | inl b ↦ (none, ground (arith, b))
    | inr b ↦ (some p, ground (arith, b, e))
  ]

  excludes_compiled :
      (index : ℕ) (patterns : List Text)
      → All (MayCompile strings regexp) patterns
      → (ps : List Pattern) × (compile_excludes regexp index patterns ≡ ok ps)
  unfolding compile_excludes
  excludes_compiled index [] h = ([], refl)
  excludes_compiled index (v ∷ vs) h =
      let (p, e) = pattern_compiled v h.0 in
      let (ps, f) = excludes_compiled (suc index) vs h.1 in
      (elim p [ none ↦ ps | some q ↦ q ∷ ps ], ground (arith, e, f))

  normalizer_built :
      (index : ℕ) (rules : List NormalizationRuleConfig)
      → All (Compiles strings regexp) (normalization_patterns rules)
      → (rs : List (Replacement Pattern)) × (new_normalizer regexp index rules ≡ ok rs)
  unfolding new_normalizer
  normalizer_built index [] h = ([], refl)
  normalizer_built index (r ∷ rs) h =
      let (given, p, e) = h.0 in
      let (rest, f) = normalizer_built (suc index) rs h.1 in
      (record { pattern = p; replace = r.replace } ∷ rest, ground (arith, given, e, f))

  mode_parsed :
      (mode : Text) (names : List Text)
      → has_text allowed_dedup_modes (to_lower (trim_space mode)) ≡ true
      → (text_eq (to_lower (trim_space mode)) (text "fields") ≡ true → is_nil names ≡ false)
      → (m : DedupMode) × (parse_dedup_mode strings mode ≡ ok m) × (fields_given m names ≡ true)
  unfolding parse_dedup_mode
  mode_parsed mode names h g =
      let v = to_lower (trim_space mode) in
      elim (Bool-cases (text_eq v (text "exact"))) [
        | inl e ↦ (exact, ground (arith, e), refl)
        | inr e ↦ elim (Bool-cases (text_eq v (text "normalized"))) [
          | inl f ↦ (normalized, ground (arith, e, f), refl)
          | inr f ↦ elim (Bool-cases (text_eq v (text "fields"))) [
            | inl k ↦ (fields, ground (arith, e, f, k), fields_named names (g k))
            | inr k ↦ elim (Bool-cases (text_eq v (text "rule"))) [
              | inl l ↦ (rule_only, ground (arith, e, f, k, l), refl)
              | inr l ↦ absurd (not_allowed v e f k l h)
            ]
          ]
        ]
      ]
    where
      fields_named : (names : List Text) → is_nil names ≡ false → fields_given fields names ≡ true
      fields_named [] n = cc
      fields_named (x ∷ xs) n = refl

      not_allowed :
          (v : Text)
          → text_eq v (text "exact") ≡ false
          → text_eq v (text "normalized") ≡ false
          → text_eq v (text "fields") ≡ false
          → text_eq v (text "rule") ≡ false
          → has_text allowed_dedup_modes v ≡ true
          → ⊥
      not_allowed v a b c d t = ground (
        arith,
        text_eq_iff (text "exact") v,
        text_eq_iff (text "normalized") v,
        text_eq_iff (text "fields") v,
        text_eq_iff (text "rule") v,
        text_eq_iff v (text "exact"),
        text_eq_iff v (text "normalized"),
        text_eq_iff v (text "fields"),
        text_eq_iff v (text "rule"),
      )

  rule_compiled :
      (r : RuleConfig)
      → IsRule strings regexp r
      → (x : Rule Pattern) × (compile_rule strings regexp r ≡ ok x) × IsSound x
  unfolding compile_rule compile_levels compiled_rule
  rule_compiled r v =
      let (levels, e, given) =
        levels_compiled [] r.match_config.levels v.levels (inr v.levels_given) in
      let (pattern, f) = pattern_compiled r.match_config.pattern v.pattern in
      let (excludes, g) = excludes_compiled 0 r.match_config.excludes v.excludes in
      let (mode, h, k) = mode_parsed r.dedup.mode r.dedup.fields v.mode v.fields in
      let (normalizer, l) = normalizer_built 0 r.dedup.normalize v.normalize in
      (
        compiled_rule strings regexp r levels pattern excludes mode normalizer,
        ground (arith, v.named, e, given, f, g, h, k, l),
        record { threshold = v.threshold; window = v.window; cooldown = v.cooldown },
      )

  rules_compiled :
      (rs : List RuleConfig)
      → All (IsRule strings regexp) rs
      → (xs : List (Rule Pattern)) × (compile_rules strings regexp rs ≡ ok xs) × All IsSound xs
  unfolding compile_rules
  rules_compiled [] h = ([], refl, tt)
  rules_compiled (r ∷ rs) h =
      let (x, e, v) = rule_compiled r h.0 in
      let (xs, f, w) = rules_compiled rs h.1 in (x ∷ xs, ground (arith, e, f), (v, w))

  store_built :
      (capacity : ℤ)
      → is_nonpositive capacity ≡ false
      → new_store capacity ≡ some (record { capacity = capacity; buffers = [] })
  unfolding new_store
  store_built capacity h = ground (arith, h)

  aggregator_built :
      (c : Aggregate.Config)
      → is_nonpositive c.max_groups ≡ false
      → is_nonpositive c.group_ttl ≡ false
      → is_nonpositive c.max_samples ≡ false
      → (a : Aggregator) × (Aggregate.new c ≡ ok a)
  unfolding Aggregate.new
  aggregator_built c g t s = (
    record {
      max_groups = pos_part c.max_groups;
      group_ttl = c.group_ttl;
      max_samples = pos_part c.max_samples;
      groups = [];
    },
    ground (arith, g, t, s),
  )

  -- A configuration in which `Validate` finds no issue is built: no part of the pipeline refuses it.
  -- The aggregator is then valid, and takes events of each of the compiled rules.
  pub validated_builds :
      (c : Settings)
      → validate strings regexp c ≡ []
      → (parts : Parts strings regexp) × (build_pipeline_parts strings regexp c ≡ ok parts)
        × All IsSound parts.rules
        × IsValid parts.aggregator
  unfolding build_pipeline_parts new_from_names
  validated_builds c h =
      let v = validate-IsConfig strings regexp c h in
      let (redactor, e) = redactor_built 0 c.redaction.rules v.redactions in
      let (rules, f, sound) = rules_compiled c.rules v.rules in
      let (context, g) = levels_parsed c.levels.context v.context_levels in
      let (candidates, k) = levels_parsed c.levels.alert_candidates v.candidate_levels in
      let settings : Aggregate.Config = record {
        max_groups = c.aggregation.max_groups;
        group_ttl = c.aggregation.group_ttl;
        max_samples = c.aggregation.max_samples;
      } in
      let (aggregator, l) = aggregator_built settings v.max_groups v.group_ttl v.max_samples in
      let parts : Parts strings regexp = record {
        redactor = redactor;
        rules = rules;
        gate = new context candidates;
        contexts = record { capacity = c.context.buffer_lines; buffers = [] };
        aggregator = aggregator;
      } in
      (
        parts,
        ground (arith, e, f, g, k, store_built c.context.buffer_lines v.buffer_lines, l),
        sound,
        new-IsValid settings l,
      )
