-- ===== src/Processor.antt =====
-- internal/processor/processor.go: the detection pipeline.
--
-- `p.mu` orders the calls, so each is one step, as is a turn of `awaitContext` and the timer of a
-- collector. `pending` is the map of sets, flattened: each alert that waits, under its container's
-- key. What is handed to the sink is a result of each step. The timer and `Add` of one collector
-- take turns. Observers and the debug log change nothing.
pub mod Alerts
pub mod Selected
pub mod Recorded
pub mod Waiting
pub mod Failing
pub mod Closing
mod Tests
use congraph_log_watcher.Common.{
  ℕ, suc, ◌+◌, Bool, true, false, not, ◌&&◌, ◌||◌, List, [], ◌∷◌, ◌++◌, map, keep, Option, none,
  some, Text, text, text_eq, is_nil, ℤ, is_nonpositive, Time, Regexp, Result, ok, err,
  if◌then◌else◌,
}
use congraph_log_watcher.Entry.{RawLog, LogEntry, container_key, field_value}
use congraph_log_watcher.Entry.Level
use congraph_log_watcher.Entry.Level.{level_eq}
use congraph_log_watcher.Router.{Router, route, keeps_context, enters_rule_engine}
use congraph_log_watcher.ContextBuf.Store
use congraph_log_watcher.ContextBuf.Capture.{Capture, lines}
use congraph_log_watcher.ContextBuf.Collector
use congraph_log_watcher.ContextBuf.Collector.{AfterCollector, new_collector, add_now}
use congraph_log_watcher.Rule.{Rule}
use congraph_log_watcher.Rule.Matcher.{match_rules}
use congraph_log_watcher.Rule.Fingerprint.{fingerprint}
use congraph_log_watcher.Aggregate.{Aggregator, AggregateError, record_event}
use congraph_log_watcher.Aggregate.Incident.{Event, Outcome}
use congraph_log_watcher.Alert.{Alert}
use congraph_log_watcher.Redact.{Redactor, redact}

pub record PendingAlert : Type 0 where
  pub collector : AfterCollector
  pub alert : Alert
  pub max_bytes : ℤ

pub data ProcessError : Type 0 where
  processor_closed : ProcessError
  not_recorded : AggregateError → ProcessError

abbrev pub with_context : PendingAlert → Capture → Alert
with_context p capture = record (p.alert) { context = lines capture p.max_bytes }

-- `addAfterContext`
unfoldable pub add_after_context :
    List (Text × PendingAlert) → LogEntry → List (Text × PendingAlert)
unfolding add_now
add_after_context pending entry =
    map
      (λ p.
        if text_eq p.0 (container_key entry)
        then (p.0, record (p.1) { collector = (add_now p.1.collector entry).0 })
        else p)
      pending

-- `(collector).finish(true)`, by the timer or `Cancel`
abbrev pub cancel : Text × PendingAlert → Text × PendingAlert
cancel p = (p.0, record (p.1) { collector = (Collector.finish p.1.collector true).0 })

module _ (regexp : Regexp) (digest : Text → Text) (parse : RawLog → LogEntry) where
  open regexp use {Pattern}

  pub record Processor : Type 0 where
    pub redactor : Option (Redactor regexp)
    pub context : Store.Store
    pub router : Router
    pub rules : List (Rule Pattern)
    pub aggregator : Aggregator
    pub pending : List (Text × PendingAlert)
    pub closed : Bool

  -- The alert of `queueAlert`, without its context
  unfoldable pub alert_of : Rule Pattern → LogEntry → Text → Outcome → Alert
  alert_of matched entry print result = record {
    rule_id = matched.id;
    severity = matched.severity;
    container_name = entry.container_name;
    container_id = entry.container_id;
    level = entry.level;
    component = field_value entry (text "component");
    subgraph_id = field_value entry (text "subgraph_id");
    fingerprint = print;
    first_seen = result.state.first_seen;
    last_seen = result.state.last_seen;
    window = matched.window;
    window_count = result.state.window_count;
    total_count = result.state.total_count;
    suppressed_count = result.suppressed_count;
    samples = result.state.samples;
    context = [];
  }

  -- `queueAlert`, with the alerts handed to the sink
  unfoldable pub queue_alert :
      Processor → Rule Pattern → LogEntry → Text → Outcome → Processor × List Alert
  unfolding alert_of
  queue_alert p matched entry print result =
      let before = Store.last p.context (container_key entry) matched.context.before in
      let collector = new_collector before entry matched.context.after in
      let waiting : PendingAlert = record {
        collector = collector;
        alert = alert_of matched entry print result;
        max_bytes = matched.context.max_bytes;
      } in
      if is_nonpositive matched.context.after
      then (p, with_context waiting (Collector.finish collector false).0.capture ∷ [])
      else (record p { pending = p.pending ++ (container_key entry, waiting) ∷ [] }, [])

  -- The loop of `Process` over the matched rules, from an index on: the clock's readings by that
  -- index, the alerts handed to the sink, and the last error
  unfoldable pub record_matches :
      (ℕ → Time)
      → ℕ
      → Processor
      → LogEntry
      → List (Rule Pattern)
      → Processor × List Alert × Option ProcessError
  record_matches clock index p entry [] = (p, [], none)
  record_matches clock index p entry (matched ∷ rest) =
      let print = fingerprint regexp digest matched entry in
      let event : Event Pattern = record { rule = matched; fingerprint = print; entry = entry } in
      elim (record_event p.aggregator event (clock index)) [
        | err e ↦
            let (p', alerts, failure) = record_matches clock (index + 1) p entry rest in
            (p', alerts, elim failure [ none ↦ some (not_recorded e) | some f ↦ some f ])
        | ok (aggregator, result) ↦
            let recorded = record p { aggregator = aggregator } in
            let queued =
              if result.alert
              then queue_alert recorded matched entry print result
              else (recorded, []) in
            let (p', alerts, failure) = record_matches clock (index + 1) queued.0 entry rest in
            (p', queued.1 ++ alerts, failure)
      ]

  -- The rules that an entry is tried against and matches
  unfoldable pub matched_rules : Processor → LogEntry → List (Rule Pattern)
  matched_rules p entry =
      if enters_rule_engine (route p.router entry) || level_eq entry.level Level.LogLevel.unknown
      then match_rules regexp p.rules entry
      else []

  -- `Process` on the parsed and redacted entry
  unfoldable pub process_entry :
      (ℕ → Time) → Processor → LogEntry → Processor × List Alert × Option ProcessError
  unfolding matched_rules record_matches
  process_entry clock p entry =
      let matches = matched_rules p entry in
      let keeps = keeps_context (route p.router entry) || not (is_nil matches) in
      let fed = if keeps then record p { pending = add_after_context p.pending entry } else p in
      let (p', alerts, failure) = record_matches clock 0 fed entry matches in
      (if keeps then record p' { context = Store.append p'.context entry } else p', alerts, failure)

  -- `Process`; its acknowledgement is the record itself, whatever happens.
  unfoldable pub process :
      (ℕ → Time) → Processor → RawLog → Processor × List Alert × Option ProcessError
  unfolding process_entry
  process clock p raw =
      if p.closed
      then (p, [], some processor_closed)
      else process_entry clock p (redact regexp p.redactor (parse raw))

  -- `awaitContext` of an alert that waits between `xs` and `ys`, once its collector has finished
  unfoldable pub await_context :
      Processor
      → List (Text × PendingAlert)
      → Text × PendingAlert
      → List (Text × PendingAlert)
      → Processor × List Alert
  await_context p xs x ys =
      (record p { pending = xs ++ ys }, with_context x.1 x.1.collector.capture ∷ [])

  -- `Close`, until it waits
  unfoldable pub close : Processor → Processor
  close p = if p.closed then p else record p { closed = true; pending = map cancel p.pending }

  -- `RemoveContainer`; the alerts that wait under its name are discarded.
  unfoldable pub remove_container : Processor → Text → Processor
  remove_container p container = record p {
    pending = keep (λ x. not (text_eq x.0 container)) p.pending;
    context = Store.remove p.context container;
  }
