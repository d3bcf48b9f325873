-- ===== src/Processor/Failing.antt =====
-- When processing a record can fail.
use congraph_log_watcher.Common.{
  ℕ, ◌+◌, ◌≡◌, refl, inl, inr, false, List, [], ◌∷◌, none, Text, is_empty, is_negative,
  is_nonpositive, All, arith, Time, Regexp, ok, Result-cases,
}
use congraph_log_watcher.Entry.{RawLog, LogEntry}
use congraph_log_watcher.Rule.{Rule}
use congraph_log_watcher.Rule.Matcher.{match_rules}
use congraph_log_watcher.Rule.Fingerprint.{fingerprint, fingerprint_parts, write_parts}
use congraph_log_watcher.Aggregate.{Aggregator, record_event}
use congraph_log_watcher.Aggregate.Incident.{Event, Outcome}
use congraph_log_watcher.Redact.{redact}
use congraph_log_watcher.Processor.{
  Processor, queue_alert, record_matches, matched_rules, process_entry, process, add_after_context,
}

-- The aggregator takes events of the rule.
pub record IsSound {Pattern : Type 0} (r : Rule Pattern) : Type 0 where
  pub threshold : is_nonpositive r.threshold ≡ false
  pub window : is_nonpositive r.window ≡ false
  pub cooldown : is_negative r.cooldown ≡ false

record_event_taken :
    {Pattern : Type 0} (a : Aggregator) (e : Event Pattern) (now : Time)
    → is_empty e.fingerprint ≡ false
    → IsSound e.rule
    → (b : Aggregator) × (o : Outcome) × (record_event a e now ≡ ok (b, o))
unfolding record_event
record_event_taken a e now f s = elim (Result-cases (record_event a e now)) [
  | inl ((b, o), h) ↦ (b, o, h)
  | inr (x, h) ↦ absurd (ground (arith, h, f, s.threshold, s.window, s.cooldown))
]

module _ (regexp : Regexp) (digest : Text → Text) (parse : RawLog → LogEntry) where
  open regexp use {Pattern}

  abbrev Proc : Type 0
  Proc = Processor regexp digest parse

  match_rules-All :
      (P : Rule Pattern → Type 0) (rules : List (Rule Pattern)) (entry : LogEntry)
      → All P rules
      → All P (match_rules regexp rules entry)
  unfolding match_rules
  match_rules-All P [] entry h = tt
  match_rules-All P (r ∷ rs) entry h = ground (arith, match_rules-All P rs entry h.1, h)

  matched_rules-All :
      (P : Rule Pattern → Type 0) (p : Proc) (entry : LogEntry)
      → All P p.rules
      → All P (matched_rules regexp digest parse p entry)
  unfolding matched_rules
  matched_rules-All P p entry h = ground (arith, match_rules-All P p.rules entry h)

  queue_alert-rules :
      (p : Proc) (r : Rule Pattern) (entry : LogEntry) (print : Text) (o : Outcome)
      → ((queue_alert regexp digest parse p r entry print o).0.rules ≡ p.rules)
        × ((queue_alert regexp digest parse p r entry print o).0.closed ≡ p.closed)
        × ((queue_alert regexp digest parse p r entry print o).0.redactor ≡ p.redactor)
        × ((queue_alert regexp digest parse p r entry print o).0.router ≡ p.router)
  unfolding queue_alert
  queue_alert-rules p r entry print o = ground arith

  -- What processing leaves alone
  abbrev pub Same : Proc → Proc → Type 0
  Same p q =
      (q.rules ≡ p.rules)
      × (q.closed ≡ p.closed)
      × (q.redactor ≡ p.redactor)
      × (q.router ≡ p.router)

  record_matches-none :
      (clock : ℕ → Time) (index : ℕ) (p : Proc) (entry : LogEntry) (rules : List (Rule Pattern))
      → ((t : Text) → is_empty (digest t) ≡ false)
      → All IsSound rules
      → ((record_matches regexp digest parse clock index p entry rules).2 ≡ none)
        × Same p (record_matches regexp digest parse clock index p entry rules).0
  unfolding record_matches fingerprint
  record_matches-none clock index p entry [] d s = (refl, (refl, refl, refl, refl))
  record_matches-none clock index p entry (r ∷ rs) d s =
      let print = digest (write_parts (fingerprint_parts regexp r entry)) in
      let event : Event Pattern = record { rule = r; fingerprint = print; entry = entry } in
      let (b, o, h) = record_event_taken p.aggregator event (clock index) (d _) s.0 in
      let recorded : Proc = record p { aggregator = b } in
      let queued = queue_alert regexp digest parse recorded r entry print o in
      ground (
        arith,
        h,
        queue_alert-rules recorded r entry print o,
        record_matches-none clock (index + 1) queued.0 entry rs d s.1,
        record_matches-none clock (index + 1) recorded entry rs d s.1,
      )

  -- An open processor whose rules are all taken by the aggregator, with a digest that is never empty,
  -- never fails on a record, and goes on with the same rules, redactor and router, still open.
  pub process-none :
      (clock : ℕ → Time) (p : Proc) (raw : RawLog)
      → ((t : Text) → is_empty (digest t) ≡ false)
      → All IsSound p.rules
      → p.closed ≡ false
      → ((process regexp digest parse clock p raw).2 ≡ none)
        × Same p (process regexp digest parse clock p raw).0
  unfolding process process_entry
  process-none clock p raw d s c =
      let entry = redact regexp p.redactor (parse raw) in
      let rules = matched_rules regexp digest parse p entry in
      let sound = matched_rules-All IsSound p entry s in
      let fed : Proc = record p { pending = add_after_context p.pending entry } in
      ground (
        arith,
        c,
        record_matches-none clock 0 p entry rules d sound,
        record_matches-none clock 0 fed entry rules d sound,
      )
