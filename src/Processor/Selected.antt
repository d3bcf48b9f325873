-- ===== src/Processor/Selected.antt =====
-- Which rules an entry is recorded under, and what it does to the alerts that wait, in terms of the
-- configured levels, the rules and the collectors.
use congraph_log_watcher.Common.{
  ◌≡◌, refl, sym, subst, ap₂, ◌⊎◌, inl, inr, Bool, true, false, not, ◌&&◌, ◌||◌, List, [], ◌∷◌,
  ◌++◌, map, length, Text, text_eq, is_nil, pos, lebℤ, Regexp, Bool-cases, arith, if◌then◌else◌,
}
use congraph_log_watcher.Entry.{RawLog, LogEntry, container_key}
use congraph_log_watcher.Entry.Level
use congraph_log_watcher.Entry.Level.{level_eq, contains}
use congraph_log_watcher.Router.{Router, route, keeps_context, enters_rule_engine}
use congraph_log_watcher.ContextBuf.Collector
use congraph_log_watcher.ContextBuf.Collector.{AfterCollector, add_now}
use congraph_log_watcher.Rule.{Rule}
use congraph_log_watcher.Rule.Matcher.Engine.{Matched, match_rules_lem}
use congraph_log_watcher.Processor.{Processor, PendingAlert, add_after_context, matched_rules}

-- The entry's level is one of those of the alert candidates, or it has none.
abbrev pub is_candidate : Router → LogEntry → Bool
is_candidate router entry =
    contains router.alert_candidates entry.level || level_eq entry.level Level.LogLevel.unknown

-- A collector that takes one entry more is finished once it has as many as it wants.
abbrev pub given : LogEntry → AfterCollector → AfterCollector
given entry c =
    let taken = c.capture.after ++ entry ∷ [] in
    let full = lebℤ c.after (pos (length taken)) in
    record c {
      capture = record (c.capture) {
        after = taken;
        timed_out = if full then false else c.capture.timed_out;
      };
      finished = full;
    }

-- An alert that waits takes an entry of its own container that is kept, unless it has finished.
abbrev pub fed_by : Bool → LogEntry → Text × PendingAlert → Text × PendingAlert
fed_by keeps entry (container, p) =
    if keeps && text_eq container (container_key entry) && not p.collector.finished
    then (container, record p { collector = given entry p.collector })
    else (container, p)

add_after_context-map :
    (entry : LogEntry) (pending : List (Text × PendingAlert))
    → add_after_context pending entry ≡ map (fed_by true entry) pending
unfolding add_after_context add_now Collector.add Collector.finish
add_after_context-map entry [] = refl
add_after_context-map entry (x ∷ xs) =
    ap₂ (λ y ys. y ∷ ys) (ground arith) (add_after_context-map entry xs)

fed_by_none :
    (entry : LogEntry) (pending : List (Text × PendingAlert))
    → map (fed_by false entry) pending ≡ pending
fed_by_none entry [] = refl
fed_by_none entry (x ∷ xs) = ap₂ (λ y ys. y ∷ ys) refl (fed_by_none entry xs)

pub fed_by_lem :
    (keeps : Bool) (entry : LogEntry) (pending : List (Text × PendingAlert))
    → (if keeps then add_after_context pending entry else pending)
      ≡ map (fed_by keeps entry) pending
fed_by_lem true entry pending = add_after_context-map entry pending
fed_by_lem false entry pending = sym (fed_by_none entry pending)

module _ (regexp : Regexp) (digest : Text → Text) (parse : RawLog → LogEntry) where
  open regexp use {Pattern}

  -- The entry's level, or a rule that it was selected for, keeps it as context.
  abbrev pub is_kept : Router → LogEntry → List (Rule Pattern) → Bool
  is_kept router entry rules =
      contains router.alert_candidates entry.level
      || contains router.context_levels entry.level
      || not (is_nil rules)

  -- The rules that the engine finds for an entry whose level lets it be tried, and none for others
  abbrev pub IsSelected : Processor regexp digest parse → LogEntry → List (Rule Pattern) → Type 0
  IsSelected p entry rules =
      ((is_candidate p.router entry ≡ true) × Matched regexp entry p.rules rules)
      ⊎ ((is_candidate p.router entry ≡ false) × (rules ≡ []))

  pub matched_rules-IsSelected :
      (p : Processor regexp digest parse) (entry : LogEntry)
      → IsSelected p entry (matched_rules regexp digest parse p entry)
  unfolding matched_rules route enters_rule_engine
  matched_rules-IsSelected p entry = elim (Bool-cases (is_candidate p.router entry)) [
    | inl h ↦ inl (
      h,
      subst (Matched regexp entry p.rules) (ground (arith, h))
          (match_rules_lem regexp entry p.rules),
    )
    | inr h ↦ inr (h, ground (arith, h))
  ]

  pub is_kept_lem :
      (router : Router) (entry : LogEntry) (rules : List (Rule Pattern))
      → (keeps_context (route router entry) || not (is_nil rules)) ≡ is_kept router entry rules
  unfolding route keeps_context
  is_kept_lem router entry rules = ground arith
