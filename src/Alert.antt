-- ===== src/Alert.antt =====
-- internal/processor/processor.go: the incident payload.
use congraph_log_watcher.Common.{ℕ, List, Text, Time, Duration}
use congraph_log_watcher.Entry.Level.{LogLevel}

pub record Alert : Type 0 where
  pub rule_id : Text
  pub severity : Text
  pub container_name : Text
  pub container_id : Text
  pub level : LogLevel
  pub component : Text
  pub subgraph_id : Text
  pub fingerprint : Text
  pub first_seen : Time
  pub last_seen : Time
  pub window : Duration
  pub window_count : ℕ
  pub total_count : ℕ
  pub suppressed_count : ℕ
  pub samples : List Text
  pub context : List Text
