-- ===== src/Router/Gate.antt =====
-- What a router built from level names does with an entry, in terms of those names.
use congraph_log_watcher.Common.{
  ◌≡◌, refl, ◌∙◌, ◌⊎◌, inl, inr, Bool, true, false, ◌||◌, List, [], ◌∷◌, Text, ok, err,
  Result-cases, Strings, any, if◌then◌else◌, arith,
}
use congraph_log_watcher.Entry.{LogEntry}
use congraph_log_watcher.Entry.Level.{
  LogLevel, LevelError, parse_log_level, level_eq, contains, set_add,
}
use congraph_log_watcher.Entry.Level.RoundTrip.{level_eq_iff}
use congraph_log_watcher.Router.{
  Router, discard, context_only, alert_candidate, RouterError, context_error, candidate_error,
  to_set_from, to_set, new, new_from_names, parse_levels, route,
}

contains-set_add :
    (set : List LogLevel) (l m : LogLevel)
    → contains (set_add set l) m ≡ (level_eq l m || contains set m)
contains-set_add set l m = ground (arith, level_eq_iff l m)

contains-to_set_from :
    (set ls : List LogLevel) (m : LogLevel)
    → contains (to_set_from set ls) m ≡ (contains ls m || contains set m)
unfolding to_set_from
contains-to_set_from set [] m = refl
contains-to_set_from set (l ∷ ls) m =
    contains-to_set_from (set_add set l) ls m ∙ ground (arith, contains-set_add set l m)

contains-to_set : (ls : List LogLevel) (m : LogLevel) → contains (to_set ls) m ≡ contains ls m
unfolding to_set
contains-to_set ls m = ground (arith, contains-to_set_from [] ls m)

module _ (strings : Strings) where
  -- The text is a name of the level.
  abbrev pub names : LogLevel → Text → Bool
  names l value = elim (parse_log_level strings value) [ ok m ↦ level_eq m l | err e ↦ false ]

  -- The text is a name of no level.
  abbrev pub is_unknown : Text → Bool
  is_unknown value = elim (parse_log_level strings value) [ ok m ↦ false | err e ↦ true ]

  abbrev Parses : List Text → Type 0
  Parses values =
      ((any is_unknown values ≡ true) × (e : LevelError) × (parse_levels strings values ≡ err e))
      ⊎ ((any is_unknown values ≡ false)
          × (levels : List LogLevel) × (parse_levels strings values ≡ ok levels)
          × ((l : LogLevel) → contains levels l ≡ any (names l) values))

  Parses-cons :
      (v : Text) (vs : List Text) (m : LogLevel)
      → parse_log_level strings v ≡ ok m
      → Parses vs
      → Parses (v ∷ vs)
  unfolding parse_levels
  Parses-cons v vs m h (inl (u, e, p)) = inl (ground arith, e, ground arith)
  Parses-cons v vs m h (inr (u, levels, p, q)) =
      inr (ground arith, m ∷ levels, ground arith, λ l. ground (arith, q l))

  parse_levels-Parses : (values : List Text) → Parses values
  unfolding parse_levels
  parse_levels-Parses [] = inr (refl, [], refl, λ l. refl)
  parse_levels-Parses (v ∷ vs) = elim (Result-cases (parse_log_level strings v)) [
    | inl (m, h) ↦ Parses-cons v vs m h (parse_levels-Parses vs)
    | inr (e, h) ↦ inl (ground arith, e, ground arith)
  ]

  -- A router is built exactly when every name is that of a level, and it then treats an entry as an
  -- alert candidate if its level is named among the candidates, else keeps it as context if its
  -- level is named among the context levels, and discards it otherwise.
  pub route-new_from_names :
      (context candidates : List Text)
      → let r = new_from_names strings context candidates in
        let bad = any is_unknown context || any is_unknown candidates in
        ((bad ≡ true) × (e : RouterError) × (r ≡ err e))
        ⊎ ((bad ≡ false)
            × (gate : Router) × (r ≡ ok gate)
            × ((e : LogEntry)
                → route gate e ≡ (
                    if any (names e.level) candidates
                    then alert_candidate
                    else if any (names e.level) context
                    then context_only
                    else discard)))
  unfolding new_from_names route new
  route-new_from_names context candidates = elim (parse_levels-Parses context) [
    | inl (u, e, p) ↦ inl (rw u refl, context_error e, rw p refl)
    | inr (u, levels, p, q) ↦ elim (parse_levels-Parses candidates) [
      | inl (v, e, p') ↦ inl (rw (u, v) refl, candidate_error e, rw (p, p') refl)
      | inr (v, levels', p', q') ↦ inr (
        rw (u, v) refl,
        new levels levels',
        rw (p, p') refl,
        λ e.
            rw
              (
                contains-to_set levels e.level,
                contains-to_set levels' e.level,
                q e.level,
                q' e.level,
              )
              refl,
      )
    ]
  ]
