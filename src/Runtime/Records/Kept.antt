-- ===== src/Runtime/Records/Kept.antt =====
-- What is checkpointed of the records that pass.
use congraph_log_watcher.Common.{
  ℕ, suc, ◌≡◌, refl, sym, ap, subst, ◌∙◌, inl, inr, Bool, true, false, ◌&&◌, List, [], ◌∷◌, All,
  Option-cases, none, Text, text_eq, is_empty, Time, Regexp, Result, ok, if◌then◌else◌,
}
use congraph_log_watcher.Entry.{RawLog, LogEntry}
use congraph_log_watcher.Processor.{process}
use congraph_log_watcher.Processor.Failing.{IsSound, process-none}
use congraph_log_watcher.Checkpoint.Record.{ContainerCheckpoint}
use congraph_log_watcher.Checkpoint.Store
use congraph_log_watcher.Checkpoint.Store.{Database, StoreError, load, save, validate}
use congraph_log_watcher.Checkpoint.Store.Reads.{IsOpen, load-save, save_refused}
use congraph_log_watcher.Runtime.Records.{
  checkpoint_of, filter, Watcher, checkpointed, is_nothing, process_items, process_raw,
}

module _ (database : Database) where
  -- What is read of a container after a save
  abbrev pub after_save :
      ContainerCheckpoint
      → Text
      → Result (StoreError database) (ContainerCheckpoint × Bool)
      → Result (StoreError database) (ContainerCheckpoint × Bool)
  after_save c k r =
      if is_nothing (validate database c) && text_eq c.container_name k then ok (c, true) else r

  load-save_any :
      (s : Store.Store database) (c : ContainerCheckpoint)
      → IsOpen database s
      → ((k : Text) → load database (save database s c).0 k ≡ after_save c k (load database s k))
        × IsOpen database (save database s c).0
  load-save_any s c o = elim (Option-cases (validate database c)) [
    | inl v ↦ let (l, o', e) = load-save database s c o v in (λ k. rw v (l k), o')
    | inr (e, v) ↦
        let (same, failed) = save_refused database s c (inl (e, v)) in
        (λ k. rw (v, same) refl, rw same o)
  ]

module _ (regexp : Regexp) (digest : Text → Text) (parse : RawLog → LogEntry)
    (event_hash : RawLog → Text) (database : Database) where
  open regexp use {Pattern}

  -- What is read of a container after some records: the last of them that is its own and can be saved,
  -- and otherwise what was read before
  abbrev pub latest :
      Text
      → List RawLog
      → Result (StoreError database) (ContainerCheckpoint × Bool)
      → Result (StoreError database) (ContainerCheckpoint × Bool)
  latest k [] r = r
  latest k (item ∷ rest) r = latest k rest (after_save database (checkpoint_of event_hash item) k r)

  -- The processor is open and its rules are ones that the aggregator takes; the store is open.
  pub record IsRunning (w : Watcher regexp digest parse event_hash database) : Type 0 where
    pub open_processor : w.processor.closed ≡ false
    pub sound : All IsSound w.processor.rules
    pub open_store : IsOpen database w.store

  process_items_lem :
      (clock : ℕ → ℕ → Time) (index : ℕ) (w : Watcher regexp digest parse event_hash database)
      (items : List RawLog)
      → ((t : Text) → is_empty (digest t) ≡ false)
      → IsRunning w
      → let after = process_items regexp digest parse event_hash database clock index w items in
        (after.2 ≡ none)
        × IsRunning after.0
        × ((k : Text) → load database after.0.store k ≡ latest k items (load database w.store k))
  unfolding process_items checkpointed
  process_items_lem clock index w [] d r = (refl, r, λ k. refl)
  process_items_lem clock index w (item ∷ items) d r =
      let step = process regexp digest parse (clock index) w.processor item in
      let (n, (rules, closed, redactor, router)) =
        process-none regexp digest parse (clock index) w.processor item d r.sound
          r.open_processor in
      let (l, o) = load-save_any database w.store (checkpoint_of event_hash item) r.open_store in
      let next : Watcher regexp digest parse event_hash database =
        checkpointed regexp digest parse event_hash database (record w { processor = step.0 })
          item in
      let running : IsRunning next = record {
        open_processor = closed ∙ r.open_processor;
        sound = subst (All IsSound) (sym rules) r.sound;
        open_store = o;
      } in
      let (f, r', k) = process_items_lem clock (suc index) next items d running in
      rw (process_items, n) (f, r', λ c. k c ∙ ap (latest c items) (l c))

  -- A running watcher fails on no record and stays running. Of the records that the gate lets through,
  -- the last one of a container that can be checkpointed is what is then read of it; a container with
  -- none reads as before.
  pub process_raw_lem :
      (clock : ℕ → ℕ → Time) (w : Watcher regexp digest parse event_hash database) (raw : RawLog)
      → ((t : Text) → is_empty (digest t) ≡ false)
      → IsRunning w
      → let after = process_raw regexp digest parse event_hash database clock w raw in
        (after.2 ≡ none)
        × IsRunning after.0
        × ((k : Text)
            → load database after.0.store k
              ≡ latest k (filter event_hash w.gates raw).1 (load database w.store k))
  unfolding process_raw
  process_raw_lem clock w raw d r =
      let gates = (filter event_hash w.gates raw).0 in
      process_items_lem clock 0 (record w { gates = gates }) (filter event_hash w.gates raw).1 d
        (record { open_processor = r.open_processor; sound = r.sound; open_store = r.open_store })
