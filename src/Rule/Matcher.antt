-- ===== src/Rule/Matcher.antt =====
-- internal/rule/matcher.go: which rules an entry matches.
pub mod Engine
use congraph_log_watcher.Common.{
  Bool, true, false, not, ◌&&◌, ◌||◌, List, [], ◌∷◌, Option, none, some, Text, text, text_eq,
  has_text, is_nil, Regexp, all, any, if◌then◌else◌,
}
use congraph_log_watcher.Entry.{LogEntry, field_value}
use congraph_log_watcher.Entry.Level.{contains}
use congraph_log_watcher.Rule.{Rule}

module _ (regexp : Regexp) where
  open regexp use {Pattern, match_string}

  -- Every field that the rule names has the value that it wants. (Go visits a map in any order; the
  -- answer does not depend on it.)
  unfoldable pub fields_equal : List (Text × Text) → LogEntry → Bool
  fields_equal [] entry = true
  fields_equal ((key, want) ∷ rest) entry =
      text_eq (field_value entry key) want && fields_equal rest entry

  unfoldable pub pattern_matches : Option Pattern → Text → Bool
  pattern_matches none message = true
  pattern_matches (some p) message = match_string p message

  -- The early returns of `Matches`, in their order
  unfoldable pub matches : Rule Pattern → LogEntry → Bool
  unfolding fields_equal pattern_matches
  matches r entry =
      if not r.enabled
      then false
      else if not (is_nil r.containers) && not (has_text r.containers entry.container_name)
      then false
      else if not (contains r.levels entry.level)
      then false
      else if not (is_nil r.components)
          && not (has_text r.components (field_value entry (text "component")))
      then false
      else if not (fields_equal r.field_equals entry)
      then false
      else if not (pattern_matches r.pattern entry.message)
      then false
      else if any (λ p. match_string p entry.message) r.excludes
      then false
      else true

  -- The loop of `(Engine).Match` over the engine's rules
  unfoldable pub match_rules : List (Rule Pattern) → LogEntry → List (Rule Pattern)
  match_rules [] entry = []
  match_rules (r ∷ rs) entry =
      let rest = match_rules rs entry in
      if not (matches r entry) then rest else if r.stop_on_match then r ∷ [] else r ∷ rest
