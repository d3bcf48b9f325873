-- ===== src/Checkpoint/Store/Reads.antt =====
-- What a store answers after saves, flushes and closing.
use congraph_log_watcher.Common.{
  ◌+◌, ◌≤◌, ◌≡◌, ◌≢◌, ◌∙◌, ◌⊎◌, inl, inr, true, false, ◌||◌, [], ◌∷◌, length, none, some, Text,
  text_eq, is_empty, pos, lebℤ, lookup, insert, lookup-insert, length-insert_le, ok, err,
  Result-cases, Bool-cases, Option-cases, if◌then◌else◌, arith,
}
use congraph_log_watcher.Checkpoint.Record.{ContainerCheckpoint}
use congraph_log_watcher.Checkpoint.Store.{
  Database, Store, StoreError, store_closed, validate, load, save, flush, flush_locked, decoded,
  begin_close, end_close, Pending,
}

module _ (database : Database) where
  open database use {Db, DbError, put_all, get, get-put_all}

  -- Every pending checkpoint stands under its container's name, which is not empty.
  abbrev pub IsNamed : Pending → Type 0
  IsNamed [] = Unit
  IsNamed ((k, c) ∷ m) = (is_empty c.container_name ≡ false) × IsNamed m

  IsNamed-lookup :
      (k : Text) (c : ContainerCheckpoint) (m : Pending)
      → IsNamed m
      → lookup k m ≡ some c
      → is_empty c.container_name ≡ false
  unfolding lookup
  IsNamed-lookup k c [] n h = cc
  IsNamed-lookup k c ((j, d) ∷ m) n h = ground (arith, IsNamed-lookup k c m n.1)

  -- A flush, failed or not, changes nothing that is read.
  load-flush_locked :
      (s : Store database) (k : Text)
      → IsNamed s.pending
      → load database (flush_locked database s).0 k ≡ load database s k
  unfolding flush_locked load decoded lookup
  load-flush_locked s k n = elim (Result-cases (put_all s.db s.pending)) [
    | inr (e, p) ↦ ground arith
    | inl (new, p) ↦ elim (Option-cases (lookup k s.pending)) [
      | inl q ↦ ground (arith, get-put_all s.db new s.pending k p)
      | inr (c, q) ↦
          ground (arith, get-put_all s.db new s.pending k p, IsNamed-lookup k c s.pending n q)
    ]
  ]

  IsNamed-insert :
      (c : ContainerCheckpoint) (m : Pending)
      → is_empty c.container_name ≡ false
      → IsNamed m
      → IsNamed (insert c.container_name c m)
  unfolding insert
  IsNamed-insert c [] h n = (h, tt)
  IsNamed-insert c ((j, d) ∷ m) h n = ground (arith, IsNamed-insert c m h n.1)

  -- A store that was opened with a positive limit and keeps to it: each pending checkpoint counts as
  -- dirty.
  pub record IsOpen (s : Store database) : Type 0 where
    pub named : IsNamed s.pending
    pub counted : length s.pending ≤ s.dirty
    pub not_closing : s.closing ≡ false
    pub not_closed : s.closed ≡ false

  abbrev with_saved : Store database → ContainerCheckpoint → Store database
  with_saved s c = record s { pending = insert c.container_name c s.pending; dirty = s.dirty + 1 }

  validate_named :
      (c : ContainerCheckpoint) → validate database c ≡ none → is_empty c.container_name ≡ false
  unfolding validate
  validate_named c h = ground arith

  load-with_saved :
      (s : Store database) (c : ContainerCheckpoint) (k : Text)
      → IsOpen s
      → load database (with_saved s c) k
        ≡ (if text_eq c.container_name k then ok (c, true) else load database s k)
  unfolding load
  load-with_saved s c k o = ground (arith, lookup-insert c.container_name k c s.pending)

  with_saved-IsOpen :
      (s : Store database) (c : ContainerCheckpoint)
      → IsOpen s
      → is_empty c.container_name ≡ false
      → IsOpen (with_saved s c)
  with_saved-IsOpen s c o n = record {
    named = IsNamed-insert c s.pending n o.named;
    counted = omega (arith, length-insert_le c.container_name c s.pending, o.counted);
    not_closing = o.not_closing;
    not_closed = o.not_closed;
  }

  flush_locked-IsOpen : (s : Store database) → IsOpen s → IsOpen (flush_locked database s).0
  unfolding flush_locked
  flush_locked-IsOpen s o = ground arith

  flush_locked_empties :
      (s : Store database)
      → (flush_locked database s).1 ≡ none
      → (flush_locked database s).0.pending ≡ []
  unfolding flush_locked
  flush_locked_empties s h = ground arith

  -- What `Save` does to an open store with a valid checkpoint
  save_open :
      (s : Store database) (c : ContainerCheckpoint)
      → IsOpen s
      → validate database c ≡ none
      → save database s c ≡ (
          if lebℤ s.limit (pos (s.dirty + 1))
          then flush_locked database (with_saved s c)
          else (with_saved s c, none))
  unfolding save
  save_open s c o v = ground arith

  -- A valid checkpoint that is saved is what is read of its container from then on, whether the
  -- save flushes or not, and also where the flush fails; what is read of the others is unchanged.
  -- Where the save returns no error, fewer checkpoints than the limit, if positive, are left unflushed.
  pub load-save :
      (s : Store database) (c : ContainerCheckpoint)
      → IsOpen s
      → validate database c ≡ none
      → let (s', e) = save database s c in
        ((k : Text)
          → load database s' k
            ≡ (if text_eq c.container_name k then ok (c, true) else load database s k))
        × IsOpen s'
        × (e ≡ none → lebℤ s.limit (pos 0) ≡ false → lebℤ s.limit (pos (length s'.pending)) ≡ false)
  load-save s c o v =
      let n = validate_named c v in
      let o' = with_saved-IsOpen s c o n in
      elim (Bool-cases (lebℤ s.limit (pos (s.dirty + 1)))) [
        | inl full ↦
            rw (save_open s c o v, full)
              (
                λ k. load-flush_locked (with_saved s c) k o'.named ∙ load-with_saved s c k o,
                flush_locked-IsOpen (with_saved s c) o',
                λ e l. rw (flush_locked_empties (with_saved s c) e) l,
              )
        | inr room ↦
            rw (save_open s c o v, room)
              (λ k. load-with_saved s c k o, o', λ e l. ground (arith, o'.counted))
      ]

  -- A checkpoint that is not valid, and any checkpoint once closing has begun, is refused, and the
  -- store is as it was.
  pub save_refused :
      (s : Store database) (c : ContainerCheckpoint)
      → ((e : StoreError database) × (validate database c ≡ some e))
        ⊎ (s.closing || s.closed ≡ true)
      → ((save database s c).0 ≡ s) × ((save database s c).1 ≢ none)
  unfolding save
  save_refused s c (inl (e, p)) = ground arith
  save_refused s c (inr p) = ground arith

  closed-flush_locked : (s : Store database) → (flush_locked database s).0.closed ≡ s.closed
  unfolding flush_locked
  closed-flush_locked s = ground arith

  -- After a flush with no error the database holds what is read.
  flushed_durable :
      (s : Store database) (k : Text)
      → IsNamed s.pending
      → s.closed ≡ false
      → (flush_locked database s).1 ≡ none
      → decoded database (get (flush_locked database s).0.db k) ≡ load database s k
  unfolding load lookup
  flushed_durable s k n o h =
      ground (arith, load-flush_locked s k n, closed-flush_locked s, flush_locked_empties s h)

  -- For a store that is not closed and holds each pending checkpoint under a name: after `Close` has
  -- gone through with no error, what was read of each container before is in the database, later
  -- loads and flushes are refused, and a later `Close` does nothing.
  pub end_close_lem :
      (s : Store database)
      → IsNamed s.pending
      → s.closed ≡ false
      → (end_close database s).1 ≡ none
      → let s' = (end_close database s).0 in
        ((k : Text) → decoded database (get s'.db k) ≡ load database s k)
        × ((k : Text) → load database s' k ≡ err store_closed)
        × ((flush database s').1 ≡ some store_closed)
        × ((begin_close database s').1 ≡ false)
  unfolding end_close load flush begin_close
  end_close_lem s n o h = elim (Option-cases (flush_locked database s).1) [
    | inl p ↦ (
      λ k. ground (arith, flushed_durable s k n o p),
      λ k. ground arith,
      ground arith,
      ground arith,
    )
    | inr (e, p) ↦ ground arith
  ]
