-- ===== src/Router.antt =====
-- internal/router/router.go: the level gate before rule matching.
pub mod Gate
mod Tests
use congraph_log_watcher.Common.{
  Bool, true, false, List, [], ◌∷◌, Text, Result, ok, err, ◌>>=◌, Strings, any, if◌then◌else◌, ◌||◌,
}
use congraph_log_watcher.Entry.{LogEntry}
use congraph_log_watcher.Entry.Level.{
  LogLevel, info, warn, error, critical, LevelError, parse_log_level, level_eq, contains, set_add,
}

pub data Route : Type 0 where
  discard context_only alert_candidate : Route

-- The two maps are sets of levels.
pub record Router : Type 0 where
  pub context_levels : List LogLevel
  pub alert_candidates : List LogLevel

to_set_from : List LogLevel → List LogLevel → List LogLevel
to_set_from set [] = set
to_set_from set (l ∷ ls) = to_set_from (set_add set l) ls

pub to_set : List LogLevel → List LogLevel
unfolding to_set_from
to_set ls = to_set_from [] ls

pub new : List LogLevel → List LogLevel → Router
new context candidates = record {
  context_levels = to_set context;
  alert_candidates = to_set candidates;
}

pub data RouterError : Type 0 where
  context_error : LevelError → RouterError
  candidate_error : LevelError → RouterError

unfoldable pub default : Router
unfolding new to_set level_eq
default = new (info ∷ warn ∷ error ∷ critical ∷ []) (warn ∷ error ∷ critical ∷ [])

unfoldable pub route : Router → LogEntry → Route
route r e =
    if contains r.alert_candidates e.level
    then alert_candidate
    else if contains r.context_levels e.level
    then context_only
    else discard

unfoldable pub keeps_context : Route → Bool
keeps_context context_only = true
keeps_context alert_candidate = true
keeps_context discard = false

unfoldable pub enters_rule_engine : Route → Bool
enters_rule_engine alert_candidate = true
enters_rule_engine context_only = false
enters_rule_engine discard = false

abbrev map_error {ℓ κ μ} :
    {E : Type ℓ} {F : Type κ} {A : Type μ} → (E → F) → Result E A → Result F A
map_error f (ok a) = ok a
map_error f (err e) = err (f e)

module _ (strings : Strings) where
  unfoldable pub parse_levels : List Text → Result LevelError (List LogLevel)
  parse_levels [] = ok []
  parse_levels (value ∷ values) = parse_log_level strings value >>= λ level.
      parse_levels values >>= λ levels. ok (level ∷ levels)

  unfoldable pub new_from_names : List Text → List Text → Result RouterError Router
  unfolding parse_levels
  new_from_names context_levels alert_candidates = do
    context ← map_error context_error (parse_levels context_levels)
    candidates ← map_error candidate_error (parse_levels alert_candidates)
    ok (new context candidates)
