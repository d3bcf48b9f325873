-- ===== src/Checkpoint/Replay/Delivery.antt =====
-- What a replayed stream delivers through the gate.
use congraph_log_watcher.Common.{
  ◌≤◌, ◌<◌, ◌≡◌, ◌≢◌, zero_time, refl, sym, ap, subst, ◌∙◌, ◌⊎◌, inl, inr, Bool, true, false, not,
  ◌&&◌, List, [], ◌∷◌, ◌++◌, All, append_assoc, append-nil, arith, Text, text_eq, before,
  Bool-cases, if◌then◌else◌,
}
use congraph_log_watcher.Entry.{RawLog}
use congraph_log_watcher.Checkpoint.Record.{ContainerCheckpoint}
use congraph_log_watcher.Checkpoint.Replay.{ReplayGate, new_replay_gate, is_marker, accept, finish}

module _ (event_hash : RawLog → Text) where
  -- All that a stream delivers, with what is released at its end
  unfoldable pub deliver : ReplayGate → List RawLog → List RawLog
  deliver g [] = (finish g).1
  deliver g (raw ∷ rest) = let (g', out) = accept event_hash g raw in out ++ deliver g' rest

  -- The same container's, not the marker, and not later than it
  abbrev pub is_overlap : ContainerCheckpoint → RawLog → Bool
  is_overlap c raw =
      text_eq raw.container_id c.container_id
      && not (is_marker event_hash c raw)
      && not (before c.last_timestamp raw.timestamp)

  deliver-open : (g : ReplayGate) (raws : List RawLog) → g.looking ≡ false → deliver g raws ≡ raws
  unfolding deliver accept finish
  deliver-open g [] h = ground arith
  deliver-open g (raw ∷ rest) h = ground (arith, deliver-open g rest h)

  -- The overlap at the head of the stream, and what follows it
  abbrev pub overlap : ContainerCheckpoint → List RawLog → List RawLog
  overlap c [] = []
  overlap c (raw ∷ rest) = if is_overlap c raw then raw ∷ overlap c rest else []

  abbrev pub after_overlap : ContainerCheckpoint → List RawLog → List RawLog
  after_overlap c [] = []
  after_overlap c (raw ∷ rest) = if is_overlap c raw then after_overlap c rest else raw ∷ rest

  -- What is delivered, given the overlap and what follows it
  abbrev pub delivered : ContainerCheckpoint → List RawLog → List RawLog → List RawLog
  delivered c held [] = held
  delivered c held (raw ∷ rest) =
      if not (text_eq raw.container_id c.container_id)
      then raw ∷ rest
      else if is_marker event_hash c raw
      then rest
      else held ++ raw ∷ rest

  deliver-looking :
      (g : ReplayGate) (raws : List RawLog)
      → g.looking ≡ true
      → deliver g raws
        ≡ delivered g.checkpoint
            (g.buffered ++ overlap g.checkpoint raws)
            (after_overlap g.checkpoint raws)
  unfolding deliver accept finish
  deliver-looking g [] h = ground (arith, append-nil g.buffered)
  deliver-looking g (raw ∷ rest) h = ground (
    arith,
    deliver-looking (record g { buffered = g.buffered ++ raw ∷ [] }) rest,
    deliver-open (record g { looking = false; buffered = [] }) rest,
    append_assoc g.buffered (raw ∷ []) rest,
    append_assoc g.buffered (raw ∷ []) (overlap g.checkpoint rest),
    append-nil g.buffered,
  )

  overlap-append :
      (c : ContainerCheckpoint) (raws : List RawLog) → overlap c raws ++ after_overlap c raws ≡ raws
  overlap-append c [] = refl
  overlap-append c (raw ∷ rest) = ground (arith, overlap-append c rest)

  -- Neither the marker nor later than it
  abbrev pub Held : ContainerCheckpoint → List RawLog → Type 0
  Held c seen =
      All (λ r. (is_marker event_hash c r ≡ false) × (r.timestamp ≤ c.last_timestamp)) seen

  All-overlap : (c : ContainerCheckpoint) (raws : List RawLog) → Held c (overlap c raws)
  All-overlap c [] = tt
  All-overlap c (raw ∷ rest) = ground (arith, All-overlap c rest)

  -- The record that ends the overlap
  after_overlap_head :
      (c : ContainerCheckpoint) (raws rest : List RawLog) (raw : RawLog)
      → after_overlap c raws ≡ raw ∷ rest
      → is_overlap c raw ≡ false
  after_overlap_head c [] rest raw h = cc
  after_overlap_head c (r ∷ rs) rest raw h = elim (Bool-cases (is_overlap c r)) [
    | inl e ↦ after_overlap_head c rs rest raw (rw e at h)
    | inr e ↦ ground arith
  ]

  -- A marker can be looked for.
  abbrev pub IsComplete : ContainerCheckpoint → Type 0
  IsComplete c = (c.container_id ≢ []) × (c.last_timestamp ≢ zero_time) × (c.last_event_hash ≢ [])

  abbrev pub IsIncomplete : ContainerCheckpoint → Type 0
  IsIncomplete c = (c.container_id ≡ []) ⊎ (c.last_timestamp ≡ zero_time) ⊎ (c.last_event_hash ≡ [])

  -- The marker is met, with no later record before it, and `rest` follows it.
  abbrev pub Met : ContainerCheckpoint → List RawLog → List RawLog → Type 0
  Met c raws rest =
      (seen : List RawLog) × (marker : RawLog) × (raws ≡ seen ++ marker ∷ rest)
      × Held c seen
      × (is_marker event_hash c marker ≡ true)

  -- A later record, or the end of the stream, comes before any marker.
  abbrev pub Missed : ContainerCheckpoint → List RawLog → Type 0
  Missed c raws =
      (seen : List RawLog) × (rest : List RawLog) × (raws ≡ seen ++ rest)
      × Held c seen
      × ((rest ≡ [])
          ⊎ ((later : RawLog) × (more : List RawLog) × (rest ≡ later ∷ more)
              × (is_marker event_hash c later ≡ false)
              × (c.last_timestamp < later.timestamp)))

  -- What became of the records of a stream
  abbrev pub Sifted : ContainerCheckpoint → List RawLog → List RawLog → Type 0
  Sifted c raws out = Met c raws out ⊎ (Missed c raws × (out ≡ raws))

  abbrev pub Delivered : ContainerCheckpoint → List RawLog → List RawLog → Type 0
  Delivered c raws out = (IsIncomplete c × (out ≡ raws)) ⊎ (IsComplete c × Sifted c raws out)

  looking_cases :
      (c : ContainerCheckpoint)
      → (IsIncomplete c × ((new_replay_gate c).looking ≡ false))
        ⊎ (IsComplete c × ((new_replay_gate c).looking ≡ true))
  unfolding new_replay_gate
  looking_cases c = ground arith

  abbrev pub OneContainer : ContainerCheckpoint → List RawLog → Type 0
  OneContainer c raws = All (λ r. text_eq r.container_id c.container_id ≡ true) raws

  delivered-Sifted :
      (c : ContainerCheckpoint) (raws after : List RawLog)
      → after_overlap c raws ≡ after
      → OneContainer c after
      → Sifted c raws (delivered c (overlap c raws) after)
  delivered-Sifted c raws [] e h =
      let whole = ap (λ l. overlap c raws ++ l) (sym e) ∙ overlap-append c raws in
      inr (
        (overlap c raws, [], sym whole, All-overlap c raws, inl refl),
        sym (append-nil (overlap c raws)) ∙ whole,
      )
  delivered-Sifted c raws (raw ∷ rest) e h =
      let whole = ap (λ l. overlap c raws ++ l) (sym e) ∙ overlap-append c raws in
      let ends = after_overlap_head c raws rest raw e in
      elim (Bool-cases (is_marker event_hash c raw)) [
        | inl m ↦ inl (
            subst (Met c raws) (ground arith)
              (overlap c raws, raw, sym whole, All-overlap c raws, m))
        | inr m ↦ inr (
          (
            overlap c raws,
            raw ∷ rest,
            sym whole,
            All-overlap c raws,
            inr (raw, rest, refl, m, ground (arith, ends, h.0)),
          ),
          ground (arith, whole),
        )
      ]

  All-after_overlap :
      (c : ContainerCheckpoint) (raws : List RawLog)
      → OneContainer c raws
      → OneContainer c (after_overlap c raws)
  All-after_overlap c [] h = tt
  All-after_overlap c (raw ∷ rest) h = ground (arith, All-after_overlap c rest h.1)

  -- Of a replayed stream of the checkpoint's own container, with a checkpoint that has an id, a time
  -- and a hash: if the marker comes before any record later than it, exactly the records after the
  -- marker are delivered, in order; and otherwise all are. With a checkpoint that lacks one of the three
  -- all are. So no record later than the checkpoint is lost.
  pub deliver-new_replay_gate :
      (c : ContainerCheckpoint) (raws : List RawLog)
      → All (λ r. text_eq r.container_id c.container_id ≡ true) raws
      → Delivered c raws (deliver (new_replay_gate c) raws)
  unfolding new_replay_gate
  deliver-new_replay_gate c raws h = elim (looking_cases c) [
    | inr (full, e) ↦ inr (
      full,
      subst (Sifted c raws) (sym (deliver-looking (new_replay_gate c) raws e))
          (delivered-Sifted c raws (after_overlap c raws) refl (All-after_overlap c raws h)),
    )
    | inl (lacks, e) ↦ inl (lacks, deliver-open (new_replay_gate c) raws e)
  ]

  after_overlap-append :
      (c : ContainerCheckpoint) (held rest : List RawLog) (raw : RawLog)
      → All (λ r. is_overlap c r ≡ true) held
      → is_overlap c raw ≡ false
      → after_overlap c (held ++ raw ∷ rest) ≡ raw ∷ rest
  after_overlap-append c [] rest raw h n = rw n
  after_overlap-append c (r ∷ held) rest raw h n =
      rw h.0 (after_overlap-append c held rest raw h.1 n)

  -- Where a record of another container comes while the gate still looks for the marker, the records
  -- that the gate holds are dropped, not delivered: only that record and what follows it are.
  pub deliver-other_container :
      (c : ContainerCheckpoint) (held rest : List RawLog) (raw : RawLog)
      → (new_replay_gate c).looking ≡ true
      → All (λ r. is_overlap c r ≡ true) held
      → text_eq raw.container_id c.container_id ≡ false
      → deliver (new_replay_gate c) (held ++ raw ∷ rest) ≡ raw ∷ rest
  unfolding new_replay_gate
  deliver-other_container c held rest raw l h n =
      let raws = held ++ raw ∷ rest in
      deliver-looking (new_replay_gate c) raws l
      ∙ ap (delivered c (overlap c raws)) (after_overlap-append c held rest raw h (ground arith))
      ∙ ground arith
