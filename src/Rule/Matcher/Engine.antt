-- ===== src/Rule/Matcher/Engine.antt =====
-- Which rules the engine returns for an entry.
use congraph_log_watcher.Common.{
  ◌≡◌, refl, ap, subst, ◌⊎◌, inl, inr, Bool, true, false, ◌&&◌, List, [], ◌∷◌, ◌++◌, Regexp, keep,
  All, arith, Bool-cases, if◌then◌else◌,
}
use congraph_log_watcher.Entry.{LogEntry}
use congraph_log_watcher.Rule.{Rule}
use congraph_log_watcher.Rule.Matcher.{matches, match_rules}

module _ (regexp : Regexp) (entry : LogEntry) where
  open regexp use {Pattern}

  -- The rule matches and ends the search.
  abbrev pub stops : Rule Pattern → Bool
  stops r = matches regexp r entry && r.stop_on_match

  abbrev pub Matched : List (Rule Pattern) → List (Rule Pattern) → Type 0
  Matched rules found =
      (All (λ r. stops r ≡ false) rules × (found ≡ keep (λ r. matches regexp r entry) rules))
      ⊎ ((before : List (Rule Pattern)) × (last : Rule Pattern) × (after : List (Rule Pattern))
          × (rules ≡ before ++ last ∷ after)
          × All (λ r. stops r ≡ false) before
          × (stops last ≡ true)
          × (found ≡ keep (λ r. matches regexp r entry) before ++ last ∷ []))

  Matched-cons :
      (r : Rule Pattern) (rs found : List (Rule Pattern))
      → stops r ≡ false
      → Matched rs found
      → Matched (r ∷ rs) (if matches regexp r entry then r ∷ found else found)
  Matched-cons r rs found s (inl (a, e)) = inl ((s, a), ground arith)
  Matched-cons r rs found s (inr (before, last, after, e, a, l, f)) =
      inr (r ∷ before, last, after, ap (λ t. r ∷ t) e, (s, a), l, ground arith)

  -- The engine returns the matching rules in their order: all of them, if none of those stops the
  -- search, and otherwise those up to the first that does, which is the last returned.
  pub match_rules_lem :
      (rules : List (Rule Pattern)) → Matched rules (match_rules regexp rules entry)
  unfolding match_rules
  match_rules_lem [] = inl (tt, refl)
  match_rules_lem (r ∷ rs) = elim (Bool-cases (stops r)) [
    | inl s ↦ inr ([], r, rs, refl, tt, s, ground arith)
    | inr s ↦
        subst (Matched (r ∷ rs)) (ground arith)
          (Matched-cons r rs (match_rules regexp rs entry) s (match_rules_lem rs))
  ]
