-- ===== src/Rule/Compile.antt =====
-- internal/rule/rule.go and normalize.go: a configured rule is compiled.
use congraph_log_watcher.Common.{
  ℕ, suc, Bool, true, false, List, [], ◌∷◌, Option, none, some, Text, text, text_eq, is_empty,
  Result, ok, err, ◌>>=◌, Strings, Regexp, add_text, if◌then◌else◌,
}
use congraph_log_watcher.Entry.Level.{LogLevel, LevelError, parse_log_level, set_add}
use congraph_log_watcher.Config.{RuleConfig, NormalizationRuleConfig}
use congraph_log_watcher.Config.Defaults.{is_enabled}
use congraph_log_watcher.Rule.{Rule, Replacement, DedupMode, exact, normalized, fields, rule_only}

pub data CompileError : Type 0 where
  empty_id : CompileError
  bad_level : LevelError → CompileError
  no_levels : CompileError
  bad_pattern : CompileError
  bad_exclude : ℕ → CompileError
  unsupported_mode : Text → CompileError
  empty_fields : CompileError
  empty_normalization : ℕ → CompileError
  bad_normalization : ℕ → CompileError

abbrev pub Compiled {ℓ} : Type ℓ → Type ℓ
Compiled A = Result CompileError A

abbrev pub map_error {ℓ κ} :
    {E : Type ℓ} {A : Type κ} → (E → CompileError) → Result E A → Compiled A
map_error f (ok a) = ok a
map_error f (err e) = err (f e)

abbrev pub or_error {ℓ} : {A : Type ℓ} → Option A → CompileError → Compiled A
or_error none e = err e
or_error (some a) e = ok a

abbrev pub guard : Bool → CompileError → Compiled (Unit {0})
guard true e = ok tt
guard false e = err e

infixl 5 ◌>>◌
abbrev ◌>>◌ {ℓ} : {B : Type ℓ} → Compiled (Unit {0}) → Compiled B → Compiled B
m >> k = m >>= λ _. k

unfoldable pub string_set_from : List Text → List Text → List Text
string_set_from set [] = set
string_set_from set (v ∷ vs) = string_set_from (add_text set v) vs

-- `stringSet`: an empty set stands for the nil map too, which is read the same way.
unfoldable pub string_set : List Text → List Text
unfolding string_set_from
string_set values = string_set_from [] values

module _ (strings : Strings) where
  open strings use {trim_space, to_lower}

  unfoldable pub compile_levels_from : List LogLevel → List Text → Result LevelError (List LogLevel)
  compile_levels_from set [] = ok set
  compile_levels_from set (v ∷ vs) =
      parse_log_level strings v >>= λ level. compile_levels_from (set_add set level) vs

  unfoldable pub compile_levels : List Text → Result LevelError (List LogLevel)
  unfolding compile_levels_from
  compile_levels values = compile_levels_from [] values

  unfoldable pub parse_dedup_mode : Text → Compiled DedupMode
  parse_dedup_mode value =
      let v = to_lower (trim_space value) in
      if text_eq v (text "exact")
      then ok exact
      else if text_eq v (text "normalized")
      then ok normalized
      else if text_eq v (text "fields")
      then ok fields
      else if text_eq v (text "rule")
      then ok rule_only
      else err (unsupported_mode value)

-- Only the mode `fields` needs fields.
abbrev pub fields_given : DedupMode → List Text → Bool
fields_given fields [] = false
fields_given _ names = true

module _ (regexp : Regexp) where
  open regexp use {Pattern, compile}

  unfoldable pub compile_optional_pattern : Text → Option (Option Pattern)
  compile_optional_pattern value =
      if is_empty value
      then some none
      else elim (compile value) [ none ↦ none | some p ↦ some (some p) ]

  unfoldable pub compile_excludes : ℕ → List Text → Compiled (List Pattern)
  unfolding compile_optional_pattern
  compile_excludes index [] = ok []
  compile_excludes index (v ∷ vs) =
      or_error (compile_optional_pattern v) (bad_exclude index) >>= λ exclude.
      compile_excludes (suc index) vs >>= λ rest.
      ok (elim exclude [ none ↦ rest | some p ↦ p ∷ rest ])

  -- The loop of `NewNormalizer`
  unfoldable pub new_normalizer :
      ℕ → List NormalizationRuleConfig → Compiled (List (Replacement Pattern))
  new_normalizer index [] = ok []
  new_normalizer index (r ∷ rs) =
      guard (elim r.pattern [ [] ↦ false | c ∷ cs ↦ true ]) (empty_normalization index)
      >> or_error (compile r.pattern) (bad_normalization index)
      >>= λ p. new_normalizer (suc index) rs >>= λ rest.
          ok (record { pattern = p; replace = r.replace } ∷ rest)

module _ (strings : Strings) (regexp : Regexp) where
  open strings use {trim_space, to_lower}
  open regexp use {Pattern}

  -- The rule that `Compile` returns
  unfoldable pub compiled_rule :
      RuleConfig
      → List LogLevel
      → Option Pattern
      → List Pattern
      → DedupMode
      → List (Replacement Pattern)
      → Rule Pattern
  unfolding string_set is_enabled
  compiled_rule input levels pattern excludes mode normalizer = record {
    id = input.id;
    enabled = is_enabled input;
    severity = to_lower input.severity;
    threshold = input.threshold;
    window = input.window;
    cooldown = input.cooldown;
    stop_on_match = input.stop_on_match;
    dedup = record { mode = mode; fields = input.dedup.fields; normalizer = normalizer };
    context = record {
      before = input.context.before;
      after = input.context.after;
      after_wait = input.context.after_wait;
      max_bytes = input.context.max_bytes;
    };
    containers = string_set input.containers;
    levels = levels;
    components = string_set input.match_config.components;
    field_equals = elim input.match_config.field_equals [ none ↦ [] | some m ↦ m ];
    pattern = pattern;
    excludes = excludes;
  }

  unfoldable pub compile_rule : RuleConfig → Compiled (Rule Pattern)
  unfolding compile_levels compile_optional_pattern compile_excludes parse_dedup_mode new_normalizer
      compiled_rule
  compile_rule input = do
    guard (elim (trim_space input.id) [ [] ↦ false | c ∷ cs ↦ true ]) empty_id
    levels ← map_error bad_level (compile_levels strings input.match_config.levels)
    guard (elim levels [ [] ↦ false | l ∷ ls ↦ true ]) no_levels
    pattern ← or_error (compile_optional_pattern regexp input.match_config.pattern) bad_pattern
    excludes ← compile_excludes regexp 0 input.match_config.excludes
    mode ← parse_dedup_mode strings input.dedup.mode
    guard (fields_given mode input.dedup.fields) empty_fields
    normalizer ← new_normalizer regexp 0 input.dedup.normalize
    ok (compiled_rule input levels pattern excludes mode normalizer)
