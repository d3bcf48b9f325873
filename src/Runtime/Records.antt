-- ===== src/Runtime/Records.antt =====
-- internal/runtime/runtime.go: what becomes of each record, and the observer's part in a replay.
--
-- The observer's pointers to the processor, the store and the health are fields of one state. Its
-- processor is set before any call. The clock's readings are arguments: for each record, those of
-- `Process`. Metrics and logs are not modelled.
pub mod Kept
pub mod Replayed
use congraph_log_watcher.Common.{
  ℕ, ◌+◌, suc, Bool, true, false, not, ◌&&◌, List, [], ◌∷◌, ◌++◌, Option, none, some, Text, text_eq,
  is_empty, Time, Duration, sub, zero_time, lookup, insert, remove, Regexp, ok, err, if◌then◌else◌,
}
use congraph_log_watcher.Entry.{RawLog, LogEntry}
use congraph_log_watcher.Alert.{Alert}
use congraph_log_watcher.Processor
use congraph_log_watcher.Processor.{Processor, ProcessError, process, remove_container}
use congraph_log_watcher.Checkpoint.Record.{ContainerCheckpoint}
use congraph_log_watcher.Checkpoint.Replay.{ReplayGate, accept, new_replay_gate}
use congraph_log_watcher.Checkpoint.Replay
use congraph_log_watcher.Checkpoint.Store
use congraph_log_watcher.Checkpoint.Store.{Database, StoreError, load, save}
use congraph_log_watcher.Health.{Health, set_attached, checkpoint_ok}

module _ (event_hash : RawLog → Text) where
  -- The checkpoint that `processRaw` saves for a record
  unfoldable pub checkpoint_of : RawLog → ContainerCheckpoint
  checkpoint_of raw = record {
    container_name = raw.container_name;
    container_id = raw.container_id;
    last_timestamp = raw.timestamp;
    last_event_hash = event_hash raw;
  }

  -- `filter`
  unfoldable pub filter : List (Text × ReplayGate) → RawLog → List (Text × ReplayGate) × List RawLog
  filter gates raw = elim (lookup raw.container_name gates) [
    | none ↦ (gates, raw ∷ [])
    | some g ↦
        let (g', items) = accept event_hash g raw in (insert raw.container_name g' gates, items)
  ]

-- `err == nil`
abbrev pub is_nothing {ℓ} : {A : Type ℓ} → Option A → Bool
is_nothing none = true
is_nothing (some a) = false

module _ (regexp : Regexp) (digest : Text → Text) (parse : RawLog → LogEntry)
    (event_hash : RawLog → Text) (database : Database) where
  -- `runtimeObserver`, and what it points to
  pub record Watcher : Type 0 where
    pub processor : Processor regexp digest parse
    pub store : Store.Store database
    pub health : Health
    pub overlap : Duration
    pub initial_replay_window : Duration
    pub gates : List (Text × ReplayGate)
    pub ids : List (Text × Text)
    pub initial_starts : List (Text × Time)

  -- The checkpoint of `processRaw`, and what the health is told
  unfoldable pub checkpointed : Watcher → RawLog → Watcher
  unfolding checkpoint_of
  checkpointed w item =
      let (store, failure) = save database w.store (checkpoint_of event_hash item) in
      record w {
        store = store;
        health = checkpoint_ok w.health (is_nothing failure && is_nothing store.last_err);
      }

  -- The loop of `processRaw` over the records that the filter lets through, from an index on: what was
  -- handed to the sink, and the error that it returns
  unfoldable pub process_items :
      (ℕ → ℕ → Time) → ℕ → Watcher → List RawLog → Watcher × List Alert × Option ProcessError
  unfolding checkpointed
  process_items clock index w [] = (w, [], none)
  process_items clock index w (item ∷ rest) =
      let (processor, alerts, failure) =
        process regexp digest parse (clock index) w.processor item in
      let next = checkpointed (record w { processor = processor }) item in
      let (w', more, failure') = process_items clock (suc index) next rest in
      elim failure [
        | some e ↦ (record w { processor = processor }, alerts, some e)
        | none ↦ (w', alerts ++ more, failure')
      ]

  unfoldable pub process_raw :
      (ℕ → ℕ → Time) → Watcher → RawLog → Watcher × List Alert × Option ProcessError
  unfolding filter process_items
  process_raw clock w raw =
      let (gates, items) = filter event_hash w.gates raw in
      process_items clock 0 (record w { gates = gates }) items

  -- The records that `Run` takes from the source, until one fails
  unfoldable pub process_raws :
      (ℕ → ℕ → ℕ → Time) → ℕ → Watcher → List RawLog → Watcher × List Alert × Option ProcessError
  unfolding process_raw
  process_raws clock index w [] = (w, [], none)
  process_raws clock index w (raw ∷ raws) =
      let (w', alerts, failure) = process_raw (clock index) w raw in
      let (w'', more, failure') = process_raws clock (suc index) w' raws in
      elim failure [ some e ↦ (w', alerts, some e) | none ↦ (w'', alerts ++ more, failure') ]

  abbrev id_of : Option Text → Text
  id_of none = []
  id_of (some id) = id

  -- The container was recreated under another id.
  abbrev pub is_recreated : Watcher → Text → Text → Bool
  is_recreated w name id =
      let previous = id_of (lookup name w.ids) in
      not (is_empty previous) && not (text_eq previous id)

  -- The gate that a container gets
  unfoldable pub with_gate : Watcher → Text → Watcher
  with_gate w name = elim (load database w.store name) [
    | err e ↦ record w { health = checkpoint_ok w.health false }
    | ok (c, found) ↦
        if found
        then record w { gates = insert name (new_replay_gate c) w.gates }
        else record w { gates = remove name w.gates }
  ]

  -- `ContainerAttached`
  unfoldable pub container_attached : Watcher → Text → Text → Bool → Time → Watcher
  unfolding with_gate
  container_attached w name id attached now =
      let seen = record w { health = set_attached w.health name attached now } in
      let kept = record seen {
        ids = insert name id w.ids;
        processor =
            if is_recreated w name id
            then remove_container regexp digest parse w.processor name
            else w.processor;
      } in
      if not attached then seen else with_gate kept name

  -- `replayStart`
  unfoldable pub replay_start : Watcher → Text → Time → Watcher × Time
  replay_start w name now = elim (load database w.store name) [
    | err e ↦ (record w { health = checkpoint_ok w.health false }, zero_time)
    | ok (c, found) ↦
        let first = sub now w.initial_replay_window in
        let started = record w { initial_starts = insert name first w.initial_starts } in
        let known = record w { initial_starts = remove name w.initial_starts } in
        if found
        then (known, Replay.replay_start c w.overlap)
        else elim (lookup name w.initial_starts) [
          | some start ↦ (w, start)
          | none ↦ (started, first)
        ]
  ]
