-- ===== src/Processor/Recorded.antt =====
-- Which alerts the recording of an entry under its rules raises, and what becomes of them.
use congraph_log_watcher.Common.{
  ℕ, ◌+◌, ◌≡◌, refl, sym, ap, subst, is_nonpositive, ◌∙◌, ◌⊎◌, inl, inr, true, false, List, [], ◌∷◌,
  ◌++◌, Text, Time, Regexp, Result-cases, Bool-cases, ok, err, arith, if◌then◌else◌, append_assoc,
  append-nil,
}
use congraph_log_watcher.Entry.{RawLog, LogEntry, container_key}
use congraph_log_watcher.ContextBuf.Store
use congraph_log_watcher.ContextBuf.Collector
use congraph_log_watcher.ContextBuf.Capture.{Capture, lines}
use congraph_log_watcher.Rule.{Rule}
use congraph_log_watcher.Rule.Fingerprint.{fingerprint}
use congraph_log_watcher.Aggregate.{Aggregator, AggregateError, record_event}
use congraph_log_watcher.Aggregate.Incident.{Event, Outcome}
use congraph_log_watcher.Alert.{Alert}
use congraph_log_watcher.Processor.{Processor, PendingAlert, alert_of, queue_alert, record_matches}

module _ (regexp : Regexp) (digest : Text → Text) (parse : RawLog → LogEntry) where
  open regexp use {Pattern}

  abbrev Proc : Type 0
  Proc = Processor regexp digest parse

  -- What the aggregator alone does with the matched rules of an entry: its new state and, in order,
  -- the alerts that its outcomes call for, each with its rule.
  unfoldable pub raised :
      (ℕ → Time)
      → ℕ
      → Aggregator
      → LogEntry
      → List (Rule Pattern)
      → Aggregator × List (Rule Pattern × Alert)
  raised clock index a entry [] = (a, [])
  raised clock index a entry (matched ∷ rest) =
      let print = fingerprint regexp digest matched entry in
      let event : Event Pattern = record { rule = matched; fingerprint = print; entry = entry } in
      elim (record_event a event (clock index)) [
        | err e ↦ raised clock (index + 1) a entry rest
        | ok (a', result) ↦
            let (b, alerts) = raised clock (index + 1) a' entry rest in
            (
              b,
              if result.alert
                  then (matched, alert_of regexp digest parse matched entry print result) ∷ alerts
                  else alerts,
            )
      ]

  -- What is captured of an entry that raises an alert of a rule: the latest entries of its container
  -- that are kept, as many as the rule wants, and none after it yet
  abbrev captured : Store.Store → LogEntry → Rule Pattern → Capture
  captured kept entry rule = record {
    before = Store.last kept (container_key entry) rule.context.before;
    trigger = entry;
    after = [];
    timed_out = false;
  }

  -- The alert with the lines of what is captured
  abbrev pub at_once : Store.Store → LogEntry → Rule Pattern → Alert → Alert
  at_once kept entry rule a = record a {
    context = lines (captured kept entry rule) rule.context.max_bytes;
  }

  -- The alert, under its container, with a collector of as many entries as the rule wants
  abbrev pub left_waiting : Store.Store → LogEntry → Rule Pattern → Alert → Text × PendingAlert
  left_waiting kept entry rule a = (
    container_key entry,
    record {
      collector = record {
        capture = captured kept entry rule;
        after = rule.context.after;
        finished = false;
      };
      alert = a;
      max_bytes = rule.context.max_bytes;
    },
  )

  -- Of the alerts raised, each with its rule, those whose rule wants no entries after it are handed to
  -- the sink at once, and the others wait, in order.
  abbrev pub Dealt :
      Store.Store
      → LogEntry
      → List Alert
      → List (Text × PendingAlert)
      → List (Rule Pattern × Alert)
      → Type 0
  Dealt kept entry xs ys [] = (xs ≡ []) × (ys ≡ [])
  Dealt kept entry xs ys ((rule, a) ∷ zs) =
      ((is_nonpositive rule.context.after ≡ true)
        × (xs' : List Alert) × (xs ≡ at_once kept entry rule a ∷ xs')
        × Dealt kept entry xs' ys zs)
      ⊎ ((is_nonpositive rule.context.after ≡ false)
          × (ys' : List (Text × PendingAlert)) × (ys ≡ left_waiting kept entry rule a ∷ ys')
          × Dealt kept entry xs ys' zs)

  -- From a processor `p`, what was handed to the sink and what was left waiting are what was raised.
  abbrev pub Recorded :
      Proc → LogEntry → Proc × List Alert → Aggregator × List (Rule Pattern × Alert) → Type 0
  Recorded p entry run all =
      (run.0.aggregator ≡ all.0)
      × (run.0.context ≡ p.context)
      × (new : List (Text × PendingAlert)) × (run.0.pending ≡ p.pending ++ new)
      × Dealt p.context entry run.1 new all.1

  module _ (clock : ℕ → Time) (entry : LogEntry) where
    matches_from : ℕ → Proc → List (Rule Pattern) → Proc × List Alert
    matches_from index p rules =
        let run = record_matches regexp digest parse clock index p entry rules in (run.0, run.1)

    module _ (index : ℕ) (p : Proc) (matched : Rule Pattern) (rest : List (Rule Pattern)) where
      event : Event Pattern
      event = record {
        rule = matched;
        fingerprint = fingerprint regexp digest matched entry;
        entry = entry;
      }

      with_aggregator : Aggregator → Proc
      with_aggregator a = record p { aggregator = a }

      print : Text
      print = fingerprint regexp digest matched entry

      fails :
          (e : AggregateError)
          → record_event p.aggregator event (clock index) ≡ err e
          → (matches_from index p (matched ∷ rest) ≡ matches_from (index + 1) p rest)
            × (raised clock index p.aggregator entry (matched ∷ rest)
                ≡ raised clock (index + 1) p.aggregator entry rest)
      unfolding record_matches raised matches_from event
      fails e h = ground arith

      quiet :
          (a : Aggregator) (result : Outcome)
          → record_event p.aggregator event (clock index) ≡ ok (a, result)
          → result.alert ≡ false
          → (matches_from index p (matched ∷ rest)
              ≡ matches_from (index + 1) (with_aggregator a) rest)
            × (raised clock index p.aggregator entry (matched ∷ rest)
                ≡ raised clock (index + 1) a entry rest)
      unfolding record_matches raised matches_from event with_aggregator
      quiet a result h b = ground arith

      loud :
          (a : Aggregator) (result : Outcome)
          → record_event p.aggregator event (clock index) ≡ ok (a, result)
          → result.alert ≡ true
          → let q =
              queue_alert regexp digest parse (with_aggregator a) matched entry print result in
            let run = matches_from (index + 1) q.0 rest in
            let all = raised clock (index + 1) a entry rest in
            (matches_from index p (matched ∷ rest) ≡ (run.0, q.1 ++ run.1))
            × (raised clock index p.aggregator entry (matched ∷ rest) ≡ (
              all.0,
              (matched, alert_of regexp digest parse matched entry print result) ∷ all.1,
            ))
      unfolding record_matches raised matches_from event with_aggregator print
      loud a result h b = ground arith

  -- What queueing an alert does
  abbrev Queued : Proc → LogEntry → Rule Pattern → Alert → Proc × List Alert → Type 0
  Queued p entry rule a q =
      (q.0.aggregator ≡ p.aggregator)
      × (q.0.context ≡ p.context)
      × (((is_nonpositive rule.context.after ≡ true)
            × (q.1 ≡ at_once p.context entry rule a ∷ [])
            × (q.0.pending ≡ p.pending))
          ⊎ ((is_nonpositive rule.context.after ≡ false)
              × (q.1 ≡ [])
              × (q.0.pending ≡ p.pending ++ left_waiting p.context entry rule a ∷ [])))

  queue_alert-Queued :
      (p : Proc) (matched : Rule Pattern) (entry : LogEntry) (name : Text) (result : Outcome)
      → Queued p entry matched
          (alert_of regexp digest parse matched entry name result)
          (queue_alert regexp digest parse p matched entry name result)
  unfolding queue_alert alert_of Collector.finish
  queue_alert-Queued p matched entry name result =
      elim (Bool-cases (is_nonpositive matched.context.after)) [
        | inl h ↦ rw h (refl, refl, inl (refl, refl, refl))
        | inr h ↦ rw h (refl, refl, inr (refl, refl, refl))
      ]

  Recorded-Queued :
      (p : Proc) (entry : LogEntry) (rule : Rule Pattern) (a : Alert) (q : Proc × List Alert)
      (run : Proc × List Alert) (all : Aggregator × List (Rule Pattern × Alert))
      → Queued p entry rule a q
      → Recorded q.0 entry run all
      → Recorded p entry (run.0, q.1 ++ run.1) (all.0, (rule, a) ∷ all.1)
  Recorded-Queued p entry rule a q run all (same_agg, c, inl (now, e, same))
        (agg, ctx, new, pend, dealt) =
      (
        agg,
        ctx ∙ c,
        new,
        pend ∙ ap (λ l. l ++ new) same,
        inl (
          now,
          run.1,
          ap (λ l. l ++ run.1) e,
          subst (λ k. Dealt k entry run.1 new all.1) c dealt,
        ),
      )
  Recorded-Queued p entry rule a q run all (same_agg, c, inr (later, e, same))
        (agg, ctx, new, pend, dealt) =
      let x = left_waiting p.context entry rule a in
      (
        agg,
        ctx ∙ c,
        x ∷ new,
        pend ∙ ap (λ l. l ++ new) same ∙ append_assoc p.pending (x ∷ []) new,
        inr (
          later,
          new,
          refl,
          subst (λ l. Dealt p.context entry (l ++ run.1) new all.1) (sym e)
              (subst (λ k. Dealt k entry run.1 new all.1) c dealt),
        ),
      )

  Recorded-cong :
      (p : Proc) (entry : LogEntry) {r r' : Proc × List Alert}
      {a a' : Aggregator × List (Rule Pattern × Alert)}
      → r ≡ r'
      → a ≡ a'
      → Recorded p entry r' a'
      → Recorded p entry r a
  Recorded-cong p entry {r} {r'} {a} {a'} e f h =
      subst (λ x. Recorded p entry x a) (sym e) (subst (Recorded p entry r') (sym f) h)

  matches_from-Recorded :
      (clock : ℕ → Time) (entry : LogEntry) (index : ℕ) (p : Proc) (rules : List (Rule Pattern))
      → Recorded p entry
          (matches_from clock entry index p rules)
          (raised clock index p.aggregator entry rules)
  unfolding matches_from record_matches raised with_aggregator print
  matches_from-Recorded clock entry index p [] =
      (refl, refl, [], sym (append-nil p.pending), (refl, refl))
  matches_from-Recorded clock entry index p (matched ∷ rest) =
      elim (Result-cases
        (record_event p.aggregator (event clock entry index p matched rest) (clock index))) [
          | inr (e, h) ↦
              let (r, s) = fails clock entry index p matched rest e h in
              Recorded-cong p entry r s (matches_from-Recorded clock entry (index + 1) p rest)
          | inl ((a, result), h) ↦
              let p' = with_aggregator clock entry index p matched rest a in
              let name = print clock entry index p matched rest in
              let q = queue_alert regexp digest parse p' matched entry name result in
              elim (Bool-cases result.alert) [
                | inr b ↦
                    let (r, s) = quiet clock entry index p matched rest a result h b in
                    Recorded-cong p entry r s
                      (matches_from-Recorded clock entry (index + 1) p' rest)
                | inl b ↦
                    let (r, s) = loud clock entry index p matched rest a result h b in
                    let queued = queue_alert-Queued p' matched entry name result in
                    Recorded-cong p entry r s (
                      Recorded-Queued p' entry matched
                        (alert_of regexp digest parse matched entry name result) q
                        (matches_from clock entry (index + 1) q.0 rest)
                        (raised clock (index + 1) a entry rest) queued
                        (subst
                          (λ x.
                            Recorded q.0 entry (matches_from clock entry (index + 1) q.0 rest)
                              (raised clock (index + 1) x entry rest))
                          queued.0 (matches_from-Recorded clock entry (index + 1) q.0 rest)))
              ]
        ]

  pub record_matches-Recorded :
      (clock : ℕ → Time) (entry : LogEntry) (p : Proc) (rules : List (Rule Pattern))
      → let run = record_matches regexp digest parse clock 0 p entry rules in
        Recorded p entry (run.0, run.1) (raised clock 0 p.aggregator entry rules)
  unfolding matches_from
  record_matches-Recorded clock entry p rules = matches_from-Recorded clock entry 0 p rules
