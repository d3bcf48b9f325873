-- ===== src/Checkpoint/Store.antt =====
-- internal/checkpoint/store.go: checkpoints are batched in memory and flushed to the database.
--
-- bbolt and the JSON codec are parameters: a database with a transaction that writes all entries or
-- none, and a read. The ticker of `flushLoop` is one more caller of `flush`. An error is a value of
-- `StoreError`; where the source wraps it, the cause is kept.
pub mod Reads
use congraph_log_watcher.Common.{
  ℕ, suc, ◌+◌, not, zero_time, Bool, true, false, ◌||◌, List, [], ◌∷◌, Option, none, some, Text,
  is_empty, is_nil, is_zero, ℤ, pos, lebℤ, lookup, insert, Result, ok, err, ◌>>=◌, inc64,
  if◌then◌else◌, ◌≡◌,
}
use congraph_log_watcher.Checkpoint.Record.{ContainerCheckpoint}

abbrev pub Pending : Type 0
Pending = List (Text × ContainerCheckpoint)

-- `db.Update` with a put for each entry, `db.View` with a get, and `db.Close`; an encoded checkpoint
-- is read back, and a failed transaction writes nothing.
pub record Database : Type 1 where
  pub Db : Type 0
  pub DbError : Type 0
  pub put_all : Db → Pending → Result DbError Db
  pub get : Db → Text → Result DbError (Option ContainerCheckpoint)
  pub close : Db → Option DbError
  pub get-put_all :
      (db new : Db) (entries : Pending) (name : Text)
      → put_all db entries ≡ ok new
      → get new name ≡ elim (lookup name entries) [ none ↦ get db name | some c ↦ ok (some c) ]

unfoldable pub zero_checkpoint : ContainerCheckpoint
zero_checkpoint = record {
  container_name = [];
  container_id = [];
  last_timestamp = zero_time;
  last_event_hash = [];
}

module _ (database : Database) where
  open database use {Db, DbError, put_all, get, close}

  pub data StoreError : Type 0 where
    empty_container_name empty_container_id zero_timestamp empty_event_hash store_closed :
        StoreError
    load_failed flush_failed close_failed : DbError → StoreError

  -- `dirty` is an int; it would take 2^63 saves with no flush to make it wrap.
  pub record Store : Type 0 where
    pub db : Db
    pub limit : ℤ
    pub pending : Pending
    pub dirty : ℕ
    pub last_err : Option DbError
    pub closing : Bool
    pub closed : Bool

  unfoldable pub validate : ContainerCheckpoint → Option StoreError
  validate c =
      if is_empty c.container_name
      then some empty_container_name
      else if is_empty c.container_id
      then some empty_container_id
      else if is_zero c.last_timestamp
      then some zero_timestamp
      else if is_empty c.last_event_hash
      then some empty_event_hash
      else none

  -- What `View` decodes into the zero checkpoint
  unfoldable pub decoded :
      Result DbError (Option ContainerCheckpoint) → Result StoreError (ContainerCheckpoint × Bool)
  unfolding zero_checkpoint
  decoded (err e) = err (load_failed e)
  decoded (ok none) = ok (zero_checkpoint, false)
  decoded (ok (some c)) = ok (c, not (is_empty c.container_name))

  -- The checkpoint of a container, and whether there is one
  unfoldable pub load : Store → Text → Result StoreError (ContainerCheckpoint × Bool)
  load s container = if s.closed then err store_closed else elim (lookup container s.pending) [
    | some c ↦ ok (c, true)
    | none ↦ decoded (get s.db container)
  ]

  -- Each of the following returns the new store and its error, `none` for nil.
  unfoldable pub flush_locked : Store → Store × Option StoreError
  flush_locked s = if is_nil s.pending then (s, none) else elim (put_all s.db s.pending) [
    | err e ↦ (record s { last_err = some e }, some (flush_failed e))
    | ok new ↦ (record s { db = new; pending = []; dirty = 0; last_err = none }, none)
  ]

  unfoldable pub save : Store → ContainerCheckpoint → Store × Option StoreError
  save s c =
      let saved = record s { pending = insert c.container_name c s.pending; dirty = s.dirty + 1 } in
      elim (validate c) [
        | some e ↦ (s, some e)
        | none ↦
            if s.closing || s.closed
            then (s, some store_closed)
            else if lebℤ s.limit (pos saved.dirty)
            then flush_locked saved
            else (saved, none)
      ]

  unfoldable pub flush : Store → Store × Option StoreError
  flush s = if s.closed then (s, some store_closed) else flush_locked s

  -- `Close` until it waits for the flush loop: whether it goes on. Other calls may come before it
  -- does.
  unfoldable pub begin_close : Store → Store × Bool
  begin_close s = if s.closed || s.closing then (s, false) else (record s { closing = true }, true)

  unfoldable pub end_close : Store → Store × Option StoreError
  end_close s =
      let (flushed, flush_err) = flush_locked s in
      let after = record flushed { closed = true } in
      elim flush_err [
        | some e ↦ (after, some e)
        | none ↦ elim (close flushed.db) [
          | some e ↦ (after, some (close_failed e))
          | none ↦ (after, none)
        ]
      ]

  -- A tick of the flush loop, and the status that it reports: its error or the last failure.
  unfoldable pub tick : Store → Store × Option StoreError
  tick s =
      let (flushed, flush_err) = flush s in
      elim flush_err [
        | some e ↦ (flushed, some e)
        | none ↦ elim flushed.last_err [
          | none ↦ (flushed, none)
          | some e ↦ (flushed, some (flush_failed e))
        ]
      ]
