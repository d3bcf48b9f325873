-- ===== src/Checkpoint/Record.antt =====
-- internal/checkpoint/store.go: a replay boundary.
use congraph_log_watcher.Common.{Text, Time}

pub record ContainerCheckpoint : Type 0 where
  pub container_name : Text
  pub container_id : Text
  pub last_timestamp : Time
  pub last_event_hash : Text
