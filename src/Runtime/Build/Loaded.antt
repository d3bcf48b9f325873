-- ===== src/Runtime/Build/Loaded.antt =====
-- What is loaded can be built.
use congraph_log_watcher.Common.{
  ◌≡◌, refl, true, Bool-cases, inl, inr, List, [], ◌∷◌, All, arith, Option, Text, is_nil, Strings,
  Regexp, Result, Result-cases, ok,
}
use congraph_log_watcher.Config.{Config as Settings}
use congraph_log_watcher.Config.Defaults.{default_config, apply_rule_defaults}
use congraph_log_watcher.Config.Validate.{validate}
use congraph_log_watcher.Config.Load.{
  Placeholder, Extra, end_of_text, another_document, extra_failed, expand_environment, checked,
  load,
}
use congraph_log_watcher.Processor.Failing.{IsSound}
use congraph_log_watcher.Aggregate.Invariant.{IsValid}
use congraph_log_watcher.Runtime.Build.{Parts, build_pipeline_parts}
use congraph_log_watcher.Runtime.Build.Valid.{validated_builds}

module _ {E : Type 0} (find_placeholders : Text → List Placeholder)
    (environment : Text → Option Text) (strings : Strings) (regexp : Regexp)
    (read_file : Text → Result E Text)
    (decode : Settings → Text → Result E (Settings × Extra E)) where
  nil_of : {A : Type 0} (xs : List A) → is_nil xs ≡ true → xs ≡ []
  nil_of [] h = refl
  nil_of (x ∷ xs) h = cc

  checked-validate :
      (d : Settings × Extra E) (c : Settings)
      → checked find_placeholders environment strings regexp read_file decode d ≡ ok c
      → validate strings regexp c ≡ []
  unfolding checked
  checked-validate (d, another_document) c h = cc
  checked-validate (d, extra_failed e) c h = cc
  checked-validate (d, end_of_text) c h =
      elim (Bool-cases (is_nil (validate strings regexp (apply_rule_defaults d)))) [
        | inl e ↦ ground (arith, h, e, nil_of (validate strings regexp (apply_rule_defaults d)) e)
        | inr e ↦ absurd (ground (arith, h, e))
      ]

  load-validate :
      (path : Text) (c : Settings)
      → load find_placeholders environment strings regexp read_file decode path ≡ ok c
      → validate strings regexp c ≡ []
  unfolding load
  load-validate path c h = elim (Result-cases (read_file path)) [
    | inr (e, r) ↦ absurd (ground (arith, h, r))
    | inl (content, r) ↦
        elim (Result-cases (expand_environment {E = E} find_placeholders environment content)) [
          | inr (e, x) ↦ absurd (ground (arith, h, r, x))
          | inl (expanded, x) ↦ elim (Result-cases (decode default_config expanded)) [
            | inr (e, y) ↦ absurd (ground (arith, h, r, x, y))
            | inl (d, y) ↦ checked-validate d c (ground (arith, h, r, x, y))
          ]
        ]
  ]

  -- A configuration that `Load` returns is built: no part of the pipeline refuses it, the aggregator is
  -- valid, and it takes events of each of the compiled rules.
  pub loaded_builds :
      (path : Text) (c : Settings)
      → load find_placeholders environment strings regexp read_file decode path ≡ ok c
      → (parts : Parts strings regexp) × (build_pipeline_parts strings regexp c ≡ ok parts)
        × All IsSound parts.rules
        × IsValid parts.aggregator
  loaded_builds path c h = validated_builds strings regexp c (load-validate path c h)
