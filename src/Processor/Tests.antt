-- ===== src/Processor/Tests.antt =====
-- The pipeline at a concrete record.
use congraph_log_watcher.Common.{
  ◌+◌, ◌≤◌, ◌++◌, refl, leb, length, map, take, arith, List, Text, text, ◌≡◌, ◌⊎◌, true, false, [],
  ◌∷◌, none, some, pos,
}
use congraph_log_watcher.Entry.{RawLog, LogEntry}
use congraph_log_watcher.Entry.Level.{error}
use congraph_log_watcher.Samples.{
  at_time, sample_raw, sample_entry, sample_rule, sample_alert, plain_regexp,
}
use congraph_log_watcher.Redact.{redact}
use congraph_log_watcher.Alert.{Alert}
use congraph_log_watcher.ContextBuf.Collector.{AfterCollector}
use congraph_log_watcher.Processor.Waiting.{feed, waiting, entries_of, feed-take}
use congraph_log_watcher.Processor.Closing.{Reach, HandOver, due, ended, close_lem}
use congraph_log_watcher.Processor.{Processor, PendingAlert, close, process, processor_closed}
use congraph_log_watcher.Processor.Alerts.{Processed, process_lem}

abbrev parse : RawLog → LogEntry
parse raw = record (sample_entry 1) { timestamp = raw.timestamp; raw = raw.raw }

abbrev processor : Processor plain_regexp (λ t. t) parse
processor = record {
  redactor = none;
  context = record { capacity = pos 5; buffers = [] };
  router = record { context_levels = []; alert_candidates = error ∷ [] };
  rules = record sample_rule { threshold = pos 1 } ∷ [];
  aggregator = record { max_groups = 4; group_ttl = pos 100; max_samples = 2; groups = [] };
  pending = [];
  closed = false;
}

process_example :
    ((processor.closed ≡ true)
      × (process plain_regexp (λ t. t) parse at_time processor (sample_raw 3)
          ≡ (processor, [], some processor_closed)))
    ⊎ ((processor.closed ≡ false)
        × Processed plain_regexp
            (λ t. t)
            parse
            at_time
            processor
            (redact plain_regexp processor.redactor (parse (sample_raw 3)))
            (
              (process plain_regexp (λ t. t) parse at_time processor (sample_raw 3)).0,
              (process plain_regexp (λ t. t) parse at_time processor (sample_raw 3)).1,
            ))
process_example = process_lem plain_regexp (λ t. t) parse at_time processor (sample_raw 3)

abbrev waiting_one : Text × PendingAlert
waiting_one = (text "node", waiting [] (sample_entry 1) 2 sample_alert (pos 100))

abbrev kept : List LogEntry
kept =
    sample_entry 4 ∷ record (sample_entry 5) { container_name = text "other" } ∷ sample_entry 6 ∷ []

feed-take_example :
    (c : AfterCollector) × (feed ([] ++ waiting_one ∷ waiting_one ∷ []) kept
      ≡ feed [] kept
        ++ (text "node", record { collector = c; alert = sample_alert; max_bytes = pos 100 })
          ∷ feed (waiting_one ∷ []) kept)
    × (c.capture.after ≡ take 2 (entries_of (text "node") kept))
    × (c.finished ≡ leb 2 (length (entries_of (text "node") kept)))
feed-take_example =
    feed-take [] (waiting_one ∷ []) (text "node") [] (sample_entry 1) 2 sample_alert (pos 100) kept
      (omega arith)

abbrev busy : Processor plain_regexp (λ t. t) parse
busy = record processor { pending = waiting_one ∷ [] }

close_example :
    ((close plain_regexp (λ t. t) parse busy).pending
      ≡ map (ended plain_regexp (λ t. t) parse) busy.pending)
    × HandOver plain_regexp
        (λ t. t)
        parse
        (close plain_regexp (λ t. t) parse busy)
        (due plain_regexp (λ t. t) parse (map (ended plain_regexp (λ t. t) parse) busy.pending))
        (record (close plain_regexp (λ t. t) parse busy) { pending = [] })
    × ((q : Processor plain_regexp (λ t. t) parse) (alerts : List Alert)
        → Reach plain_regexp (λ t. t) parse (close plain_regexp (λ t. t) parse busy) alerts q
        → length alerts + length q.pending ≤ length busy.pending)
close_example = close_lem plain_regexp (λ t. t) parse busy refl
