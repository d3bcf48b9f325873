-- ===== src/Config/Validate/Rules.antt =====
-- internal/config/validate.go: the checks of patterns and rules.
use congraph_log_watcher.Common.{
  ℕ, suc, true, false, not, ◌&&◌, List, [], ◌∷◌, ◌++◌, Option, none, some, Text, text, text_eq,
  has_text, is_nil, is_empty, is_negative, is_nonpositive, Strings, Regexp, if◌then◌else◌,
}
use congraph_log_watcher.Config.{
  RuleConfig, RedactionRuleConfig, NormalizationRuleConfig, DedupConfig, RuleContextConfig,
}
use congraph_log_watcher.Config.Validate.Values.{
  Place, at_field, item, under, Fault, missing, empty, negative, not_positive, invalid_regexp,
  unsupported, Issue, issue_if, concat, allowed_severities, allowed_dedup_modes, name_fault,
  with_name, issue_of, is_blank, validate_names, validate_levels, validate_field_equals,
}

abbrev pub redaction_patterns : List RedactionRuleConfig → List Text
redaction_patterns [] = []
redaction_patterns (r ∷ rs) = r.pattern ∷ redaction_patterns rs

abbrev pub normalization_patterns : List NormalizationRuleConfig → List Text
normalization_patterns [] = []
normalization_patterns (r ∷ rs) = r.pattern ∷ normalization_patterns rs

-- A pattern that does not compile
abbrev pub pattern_fault {ℓ} : {Pattern : Type ℓ} → Option Pattern → Option Fault
pattern_fault none = some invalid_regexp
pattern_fault (some p) = none

module _ (strings : Strings) (regexp : Regexp) where
  open strings use {trim_space, to_lower}
  open regexp use {compile}

  -- `validateRegexRules`, and the loop of `validateDedup`, over the patterns
  unfoldable pub validate_regex_from : Place → ℕ → List Text → List Issue
  validate_regex_from path index [] = []
  validate_regex_from path index (pattern ∷ patterns) =
      let fault =
        if is_blank strings pattern then some empty else pattern_fault (compile pattern) in
      issue_of (under (item path index) (text "pattern")) fault
      ++ validate_regex_from path (suc index) patterns

  unfoldable pub validate_regex_rules : Place → List RedactionRuleConfig → List Issue
  unfolding validate_regex_from
  validate_regex_rules path rules = validate_regex_from path 0 (redaction_patterns rules)

  -- `validatePatterns`
  unfoldable pub validate_pattern : Place → Text → List Issue
  validate_pattern path pattern =
      if is_empty pattern then [] else issue_of path (pattern_fault (compile pattern))

  unfoldable pub validate_excludes : Place → ℕ → List Text → List Issue
  unfolding validate_pattern
  validate_excludes path index [] = []
  validate_excludes path index (pattern ∷ patterns) =
      validate_pattern (item path index) pattern ++ validate_excludes path (suc index) patterns

  unfoldable pub validate_dedup_fields : Place → DedupConfig → List Issue
  unfolding validate_names
  validate_dedup_fields path dedup =
      if text_eq (to_lower (trim_space dedup.mode)) (text "fields")
      then validate_names strings (under path (text "fields")) dedup.fields true
      else []

  unfoldable pub validate_dedup : Place → DedupConfig → List Issue
  unfolding validate_dedup_fields validate_regex_from
  validate_dedup path dedup =
      let mode = to_lower (trim_space dedup.mode) in
      issue_if (not (has_text allowed_dedup_modes mode)) (under path (text "mode"))
        (unsupported dedup.mode)
      ++ (validate_dedup_fields path dedup
          ++ validate_regex_from (under path (text "normalize")) 0
              (normalization_patterns dedup.normalize))

  unfoldable pub validate_context : Place → RuleContextConfig → List Issue
  validate_context path c =
      issue_if (is_negative c.before) (under path (text "before")) negative
      ++ (issue_if (is_negative c.after) (under path (text "after")) negative
          ++ (issue_if (is_negative c.after_wait) (under path (text "after_wait")) negative
              ++ (issue_if (not (is_nonpositive c.after) && is_nonpositive c.after_wait)
                    (under path (text "after_wait")) not_positive
                  ++ issue_if (is_nonpositive c.max_bytes) (under path (text "max_bytes"))
                      not_positive)))

  -- A round of the loop of `validateRules`, but for the rule's ID: the issues of each part
  unfoldable pub rule_parts : Place → RuleConfig → List (List Issue)
  unfolding validate_names validate_levels validate_pattern validate_excludes validate_field_equals
      validate_dedup validate_context
  rule_parts path rule =
      issue_if (not (has_text allowed_severities (to_lower (trim_space rule.severity))))
        (under path (text "severity")) (unsupported rule.severity)
      ∷ validate_names strings (under path (text "containers")) rule.containers false
      ∷ validate_levels strings (under path (text "match.levels")) rule.match_config.levels true
      ∷ validate_pattern (under path (text "match.pattern")) rule.match_config.pattern
      ∷ validate_excludes (under path (text "match.excludes")) 0 rule.match_config.excludes
      ∷ validate_field_equals strings (under path (text "match.field_equals"))
          (elim rule.match_config.field_equals [ none ↦ [] | some m ↦ m ])
      ∷ issue_if (is_nonpositive rule.threshold) (under path (text "threshold")) not_positive
      ∷ issue_if (is_nonpositive rule.window) (under path (text "window")) not_positive
      ∷ issue_if (is_negative rule.cooldown) (under path (text "cooldown")) negative
      ∷ validate_dedup (under path (text "dedup")) rule.dedup
      ∷ validate_context (under path (text "context")) rule.context
      ∷ []

  unfoldable pub validate_rule : Place → RuleConfig → List Issue
  unfolding rule_parts
  validate_rule path rule = concat (rule_parts path rule)

  -- The loop of `validateRules` from an index on, with the IDs met so far
  unfoldable pub validate_rules_from : ℕ → List Text → List RuleConfig → List Issue
  unfolding validate_rule
  validate_rules_from index ids [] = []
  validate_rules_from index ids (rule ∷ rules) =
      let path = item (at_field (text "rules")) index in
      let fault = name_fault ids (trim_space rule.id) in
      issue_of (under path (text "id")) fault
      ++ (validate_rule path rule
          ++ validate_rules_from (suc index) (with_name ids (trim_space rule.id)) rules)

  unfoldable pub validate_rules : List RuleConfig → List Issue
  unfolding validate_rules_from
  validate_rules rules =
      if is_nil rules
      then (at_field (text "rules"), missing) ∷ []
      else validate_rules_from 0 [] rules
