-- ===== src/Runtime/Records/Replayed.antt =====
-- A container is attached, and its log is replayed.
use congraph_log_watcher.Common.{
  ◌≡◌, Result, Bool, List, [], ◌∷◌, ◌++◌, All, ◌≤◌, Option, none, Text, Regexp,
}
use congraph_log_watcher.Entry.{RawLog, LogEntry}
use congraph_log_watcher.Processor.{ProcessError}
use congraph_log_watcher.Checkpoint.Record.{ContainerCheckpoint}
use congraph_log_watcher.Checkpoint.Replay.{ReplayGate, accept}
use congraph_log_watcher.Checkpoint.Store.{Database, StoreError, load}
use congraph_log_watcher.Alert.{Alert}
use congraph_log_watcher.Runtime.Records.{Watcher}
use congraph_log_watcher.Runtime.Records.Kept.{IsRunning, latest}

module _ (event_hash : RawLog → Text) where
  -- What a gate lets through of some records, and the gate after them
  abbrev pub let_through : ReplayGate → List RawLog → List RawLog
  let_through g [] = []
  let_through g (raw ∷ raws) =
      (accept event_hash g raw).1 ++ let_through (accept event_hash g raw).0 raws

  abbrev pub gate_after : ReplayGate → List RawLog → ReplayGate
  gate_after g [] = g
  gate_after g (raw ∷ raws) = gate_after (accept event_hash g raw).0 raws

  -- No record that a gate holds is later than its checkpoint.
  abbrev Holds : ContainerCheckpoint → ReplayGate → Type 0
  Holds c g = (g.checkpoint ≡ c) × All (λ r. r.timestamp ≤ c.last_timestamp) g.buffered

module _ (regexp : Regexp) (digest : Text → Text) (parse : RawLog → LogEntry)
    (event_hash : RawLog → Text) (database : Database) where
  abbrev Watch : Type 0
  Watch = Watcher regexp digest parse event_hash database

  abbrev Read : Type 0
  Read = Result (StoreError database) (ContainerCheckpoint × Bool)

  -- What the processing of some records comes to
  abbrev pub Recorded : Watch → List RawLog → Watch × List Alert × Option ProcessError → Type 0
  Recorded w items after =
      (after.2 ≡ none)
      × IsRunning regexp digest parse event_hash database after.0
      × ((k : Text)
          → load database after.0.store k
            ≡ latest regexp digest parse event_hash database k items (load database w.store k))
