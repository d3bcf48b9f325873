-- ===== src/Config/Load.antt =====
-- internal/config/load.go and duration.go: a configuration is read, expanded, decoded and checked.
--
-- The file, the environment, the search for placeholders, the YAML decoder and the parser of durations
-- are parameters.
use congraph_log_watcher.Common.{
  ℕ, ◌-◌, ◌==◌, Bool, false, ◌&&◌, ◌||◌, List, [], ◌∷◌, ◌++◌, take, drop, Option, none, some, Text,
  is_nil, Strings, Regexp, Result, ok, err, ◌>>=◌, Duration, if◌then◌else◌,
}
use congraph_log_watcher.Config.{Config}
use congraph_log_watcher.Config.Defaults.{default_config, apply_rule_defaults}
use congraph_log_watcher.Config.Validate.{Issue, validate}

-- The indices of a match of the placeholder pattern, and of its group
pub record Placeholder : Type 0 where
  pub start : ℕ
  pub end : ℕ
  pub name_start : ℕ
  pub name_end : ℕ

-- What follows the first document of a YAML text
pub data Extra (E : Type 0) : Type 0 where
  end_of_text another_document : Extra E
  extra_failed : E → Extra E

pub data LoadError (E : Type 0) : Type 0 where
  not_read not_decoded : E → LoadError E
  not_set : Text → LoadError E
  invalid_placeholder several_documents : LoadError E
  invalid : List Issue → LoadError E

-- `s[i:j]`
abbrev slice : Text → ℕ → ℕ → Text
slice s i j = take (j - i) (drop i s)

-- `strings.Contains(s, "${")`
unfoldable pub has_opening : Text → Bool
has_opening [] = false
has_opening (c ∷ s) = (c == b'$' && starts_brace s) || has_opening s
  where
    starts_brace : Text → Bool
    starts_brace [] = false
    starts_brace (d ∷ t) = d == b'{'

abbrev as_error {ℓ κ μ} : {E : Type ℓ} {F : Type κ} {A : Type μ} → (E → F) → Result E A → Result F A
as_error f (ok a) = ok a
as_error f (err e) = err (f e)

module _ {E : Type 0} (find_placeholders : Text → List Placeholder)
    (environment : Text → Option Text) where
  -- The loop of `expandEnvironment` from an index of the input on
  unfoldable pub expand_from : Text → ℕ → List Placeholder → Result (LoadError E) Text
  expand_from input last [] = ok (drop last input)
  expand_from input last (m ∷ matches) =
      let name = slice input m.name_start m.name_end in
      let rest = expand_from input m.end matches in
      elim (environment name) [
        | none ↦ err (not_set name)
        | some value ↦ rest >>= λ after. ok (slice input last m.start ++ value ++ after)
      ]

  unfoldable pub expand_environment : Text → Result (LoadError E) Text
  unfolding expand_from has_opening
  expand_environment input = expand_from input 0 (find_placeholders input) >>= λ expanded.
      if has_opening expanded then err invalid_placeholder else ok expanded

  module _ (strings : Strings) (regexp : Regexp) (read_file : Text → Result E Text)
      (decode : Config → Text → Result E (Config × Extra E)) where
    -- What is left to do with a decoded configuration
    unfoldable pub checked : Config × Extra E → Result (LoadError E) Config
    unfolding apply_rule_defaults validate
    checked (c, another_document) = err several_documents
    checked (c, extra_failed e) = err (not_decoded e)
    checked (c, end_of_text) =
        let issues = validate strings regexp (apply_rule_defaults c) in
        if is_nil issues then ok (apply_rule_defaults c) else err (invalid issues)

    unfoldable pub load : Text → Result (LoadError E) Config
    unfolding expand_environment checked
    load path = as_error not_read (read_file path) >>= λ content.
        expand_environment content >>= λ expanded.
        as_error not_decoded (decode default_config expanded) >>= checked

-- `(*Duration).UnmarshalYAML`: `none` is its error.
unfoldable pub unmarshal_duration : (Text → Option Duration) → Bool → Text → Option Duration
unmarshal_duration parse_duration is_string value = if is_string then parse_duration value else none
