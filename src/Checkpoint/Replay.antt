-- ===== src/Checkpoint/Replay.antt =====
-- internal/checkpoint/replay.go: records that were already processed are skipped after a restart.
-- `EventHash`, a SHA-256 of the record, is the parameter `event_hash`.
pub mod Delivery
use congraph_log_watcher.Common.{
  ℕ, ◌==◌, Bool, true, false, not, ◌&&◌, List, [], ◌∷◌, ◌++◌, Text, text_eq, is_empty, Time,
  Duration, is_zero, before, sub, zero_time, if◌then◌else◌,
}
use congraph_log_watcher.Entry.{RawLog}
use congraph_log_watcher.Checkpoint.Record.{ContainerCheckpoint}

unfoldable pub replay_start : ContainerCheckpoint → Duration → Time
replay_start c overlap =
    if is_zero c.last_timestamp then zero_time else sub c.last_timestamp overlap

pub record ReplayGate : Type 0 where
  pub checkpoint : ContainerCheckpoint
  pub looking : Bool
  pub buffered : List RawLog

unfoldable pub new_replay_gate : ContainerCheckpoint → ReplayGate
new_replay_gate c = record {
  checkpoint = c;
  looking =
      not (is_empty c.container_id)
      && not (is_zero c.last_timestamp)
      && not (is_empty c.last_event_hash);
  buffered = [];
}

module _ (event_hash : RawLog → Text) where
  -- The record is the one that the checkpoint was taken at.
  abbrev pub is_marker : ContainerCheckpoint → RawLog → Bool
  is_marker c raw =
      (raw.timestamp == c.last_timestamp) && text_eq (event_hash raw) c.last_event_hash

  -- The new gate, and the records to process
  unfoldable pub accept : ReplayGate → RawLog → ReplayGate × List RawLog
  accept g raw =
      let open_gate = record g { looking = false; buffered = [] } in
      if not g.looking
      then (g, raw ∷ [])
      else if not (text_eq raw.container_id g.checkpoint.container_id)
      then (open_gate, raw ∷ [])
      else if is_marker g.checkpoint raw
      then (open_gate, [])
      else if before g.checkpoint.last_timestamp raw.timestamp
      then (open_gate, g.buffered ++ raw ∷ [])
      else (record g { buffered = g.buffered ++ raw ∷ [] }, [])

unfoldable pub finish : ReplayGate → ReplayGate × List RawLog
finish g =
    if not g.looking then (g, []) else (record g { looking = false; buffered = [] }, g.buffered)
