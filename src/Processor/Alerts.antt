-- ===== src/Processor/Alerts.antt =====
-- Which alerts a record raises, and what becomes of them.
use congraph_log_watcher.Common.{
  ℕ, ◌≡◌, sym, ap, subst, ◌∙◌, ◌⊎◌, inl, inr, Bool, true, false, not, ◌||◌, List, [], ◌++◌, map,
  some, Text, is_nil, Time, Regexp, Bool-cases, arith, if◌then◌else◌,
}
use congraph_log_watcher.Entry.{RawLog, LogEntry}
use congraph_log_watcher.Router.{route, keeps_context}
use congraph_log_watcher.ContextBuf.Store
use congraph_log_watcher.Rule.{Rule}
use congraph_log_watcher.Alert.{Alert}
use congraph_log_watcher.Redact.{redact}
use congraph_log_watcher.Processor.Recorded.{raised, Dealt, record_matches-Recorded}
use congraph_log_watcher.Processor.Selected.{
  IsSelected, fed_by, is_kept, matched_rules-IsSelected, is_kept_lem, fed_by_lem,
}
use congraph_log_watcher.Processor.{
  Processor, PendingAlert, processor_closed, add_after_context, matched_rules, process_entry,
  process,
}

module _ (regexp : Regexp) (digest : Text → Text) (parse : RawLog → LogEntry) where
  open regexp use {Pattern}

  abbrev Proc : Type 0
  Proc = Processor regexp digest parse

  abbrev keeps : Proc → LogEntry → Bool
  keeps p entry =
      keeps_context (route p.router entry)
      || not (is_nil (matched_rules regexp digest parse p entry))

  -- What processing an entry does, in the words of the code
  abbrev Handled : (ℕ → Time) → Proc → LogEntry → Proc × List Alert → Type 0
  Handled clock p entry run =
      let all =
        raised regexp digest parse clock 0 p.aggregator entry
          (matched_rules regexp digest parse p entry) in
      (run.0.aggregator ≡ all.0)
      × (run.0.context ≡ (if keeps p entry then Store.append p.context entry else p.context))
      × (new : List (Text × PendingAlert)) × (run.0.pending
          ≡ (if keeps p entry then add_after_context p.pending entry else p.pending) ++ new)
      × Dealt regexp digest parse p.context entry run.1 new all.1

  -- What processing an entry does
  abbrev pub Processed : (ℕ → Time) → Proc → LogEntry → Proc × List Alert → Type 0
  Processed clock p entry run =
      (rules : List (Rule Pattern)) × IsSelected regexp digest parse p entry rules
      × let all = raised regexp digest parse clock 0 p.aggregator entry rules in
        let kept = is_kept regexp digest parse p.router entry rules in
        (run.0.aggregator ≡ all.0)
        × (run.0.context ≡ (if kept then Store.append p.context entry else p.context))
        × (new : List (Text × PendingAlert)) × (run.0.pending
            ≡ map (fed_by kept entry) p.pending ++ new)
        × Dealt regexp digest parse p.context entry run.1 new all.1

  process_entry-Handled :
      (clock : ℕ → Time) (p : Proc) (entry : LogEntry)
      → let run = process_entry regexp digest parse clock p entry in
        Handled clock p entry (run.0, run.1)
  unfolding process_entry
  process_entry-Handled clock p entry = elim (Bool-cases (keeps p entry)) [
    | inl k ↦
        let fed : Proc = record p { pending = add_after_context p.pending entry } in
        let (agg, ctx, new, pend, il) =
          record_matches-Recorded regexp digest parse clock entry fed
            (matched_rules regexp digest parse p entry) in
        rw k (agg, ap (λ c. Store.append c entry) ctx, new, pend, il)
    | inr k ↦ rw k (
        record_matches-Recorded regexp digest parse clock entry p
          (matched_rules regexp digest parse p entry))
  ]

  process_entry-Processed :
      (clock : ℕ → Time) (p : Proc) (entry : LogEntry)
      → let run = process_entry regexp digest parse clock p entry in
        Processed clock p entry (run.0, run.1)
  process_entry-Processed clock p entry =
      let rules = matched_rules regexp digest parse p entry in
      let same = is_kept_lem regexp digest parse p.router entry rules in
      let (agg, ctx, new, pend, il) = process_entry-Handled clock p entry in
      (
        rules,
        matched_rules-IsSelected regexp digest parse p entry,
        (
          agg,
          ctx ∙ ap (λ b. if b then Store.append p.context entry else p.context) same,
          new,
          pend
              ∙ ap (λ l. l ++ new)
                  (fed_by_lem (keeps p entry) entry p.pending
                    ∙ ap (λ b. map (fed_by b entry) p.pending) same),
          il,
        ),
      )

  process_open :
      (clock : ℕ → Time) (p : Proc) (raw : RawLog)
      → p.closed ≡ false
      → process regexp digest parse clock p raw
        ≡ process_entry regexp digest parse clock p (redact regexp p.redactor (parse raw))
  unfolding process
  process_open clock p raw c = ground arith

  -- An open processor gives the aggregator the rules that the engine finds for the parsed and redacted
  -- entry, in their order (all that match, up to the first that stops the search), if its level is one
  -- of the alert candidates or unknown, and otherwise none. Of the alerts that the aggregator calls
  -- for, in order, those whose rule wants no entries after them are handed to the sink at once, with
  -- the lines of what was kept of the container before the entry, and the others are left waiting, each
  -- with a new collector; none is lost, doubled or otherwise changed. The entry is kept as context, and
  -- added to what each alert of its container that already waits and has not finished has, exactly if its
  -- level is an alert candidate's or a context level, or there is such a rule. A closed processor does
  -- nothing.
  pub process_lem :
      (clock : ℕ → Time) (p : Proc) (raw : RawLog)
      → let run = process regexp digest parse clock p raw in
        ((p.closed ≡ true) × (run ≡ (p, [], some processor_closed)))
        ⊎ ((p.closed ≡ false)
            × Processed clock p (redact regexp p.redactor (parse raw)) (run.0, run.1))
  unfolding process
  process_lem clock p raw = elim (Bool-cases p.closed) [
    | inl c ↦ inl (c, ground arith)
    | inr c ↦ inr (
      c,
      subst (λ run. Processed clock p (redact regexp p.redactor (parse raw)) (run.0, run.1))
          (sym (process_open clock p raw c))
          (process_entry-Processed clock p (redact regexp p.redactor (parse raw))),
    )
  ]
