-- ===== src/Processor/Closing.antt =====
-- How the waiting ends: the steps of a processor and of what waits in it, and its closing.
use congraph_log_watcher.Common.{
  ℕ, ◌≡◌, refl, sym, ap, subst, Bool, true, false, not, List, [], ◌∷◌, ◌++◌, map, keep, length,
  length-append, ◌+◌, ◌≤◌, Text, text_eq, Time, Regexp, All, All-keep, All-append, arith,
  append-nil, append_assoc, if◌then◌else◌,
}
use congraph_log_watcher.Entry.{RawLog, LogEntry}
use congraph_log_watcher.ContextBuf.Collector
use congraph_log_watcher.Alert.{Alert}
use congraph_log_watcher.Processor.{
  Processor, PendingAlert, with_context, cancel, process, await_context, close, remove_container,
}

module _ (regexp : Regexp) (digest : Text → Text) (parse : RawLog → LogEntry) where
  abbrev Proc : Type 0
  Proc = Processor regexp digest parse

  -- A step, with the alerts that it hands to the sink
  pub data Step : Proc → List Alert → Proc → Type 0 where
    processes :
        (p : Proc) (clock : ℕ → Time) (raw : RawLog)
        → Step p
            (process regexp digest parse clock p raw).1
            (process regexp digest parse clock p raw).0
    awaits :
        (p : Proc) (xs : List (Text × PendingAlert)) (x : Text × PendingAlert)
        (ys : List (Text × PendingAlert))
        → p.pending ≡ xs ++ x ∷ ys
        → x.1.collector.finished ≡ true
        → Step p
            (await_context regexp digest parse p xs x ys).1
            (await_context regexp digest parse p xs x ys).0
    expires :
        (p : Proc) (xs : List (Text × PendingAlert)) (x : Text × PendingAlert)
        (ys : List (Text × PendingAlert))
        → p.pending ≡ xs ++ x ∷ ys
        → Step p [] (record p { pending = xs ++ cancel x ∷ ys })
    closes : (p : Proc) → Step p [] (close regexp digest parse p)
    removes :
        (p : Proc) (container : Text) → Step p [] (remove_container regexp digest parse p container)

  pub data Reach (p : Proc) : List Alert → Proc → Type 0 where
    here : Reach p [] p
    next :
        {q r : Proc} {alerts more : List Alert}
        → Reach p alerts q
        → Step q more r
        → Reach p (alerts ++ more) r

  -- Hand-overs alone, each of an alert whose collector has finished
  pub data HandOver (p : Proc) : List Alert → Proc → Type 0 where
    handed_none : HandOver p [] p
    handed :
        {q : Proc} {alerts : List Alert} (xs : List (Text × PendingAlert)) (x : Text × PendingAlert)
        (ys : List (Text × PendingAlert))
        → HandOver p alerts q
        → q.pending ≡ xs ++ x ∷ ys
        → x.1.collector.finished ≡ true
        → HandOver p
            (alerts ++ (await_context regexp digest parse q xs x ys).1)
            (await_context regexp digest parse q xs x ys).0

  -- Closed, with no alert that waits for more context
  abbrev pub IsClosing : Proc → Type 0
  IsClosing p = (p.closed ≡ true) × All (λ x. x.1.collector.finished ≡ true) p.pending

  cancel_finished : (x : Text × PendingAlert) → (cancel x).1.collector.finished ≡ true
  unfolding Collector.finish
  cancel_finished x = ground arith

  cancel-All :
      (xs : List (Text × PendingAlert)) → All (λ x. x.1.collector.finished ≡ true) (map cancel xs)
  cancel-All [] = tt
  cancel-All (x ∷ xs) = (cancel_finished x, cancel-All xs)

  close-IsClosing : (p : Proc) → p.closed ≡ false → IsClosing (close regexp digest parse p)
  unfolding close
  close-IsClosing p c = rw c (refl, cancel-All p.pending)

  All-split :
      (xs : List (Text × PendingAlert)) (x : Text × PendingAlert) (ys : List (Text × PendingAlert))
      → All (λ y. y.1.collector.finished ≡ true) (xs ++ x ∷ ys)
      → All (λ y. y.1.collector.finished ≡ true) xs × All (λ y. y.1.collector.finished ≡ true) ys
  All-split [] x ys h = (tt, h.1)
  All-split (z ∷ xs) x ys h = let rest = All-split xs x ys h.1 in ((h.0, rest.0), rest.1)

  length-keep_le :
      (q : Text × PendingAlert → Bool) (xs : List (Text × PendingAlert))
      → length (keep q xs) ≤ length xs
  length-keep_le q [] = omega arith
  length-keep_le q (x ∷ xs) = ground (arith, length-keep_le q xs)

  process_closed :
      (p : Proc) (clock : ℕ → Time) (raw : RawLog)
      → p.closed ≡ true
      → ((process regexp digest parse clock p raw).1 ≡ [])
        × ((process regexp digest parse clock p raw).0 ≡ p)
  unfolding process
  process_closed p clock raw c = ground arith

  Step-IsClosing :
      {p q : Proc} {alerts : List Alert}
      → Step p alerts q
      → IsClosing p
      → IsClosing q × (length alerts + length q.pending ≤ length p.pending)
  unfolding await_context close remove_container
  Step-IsClosing (processes p clock raw) v =
      let (none_out, same) = process_closed p clock raw v.0 in
      (
        subst IsClosing (sym same) v,
        omega (arith, ap length none_out, ap (λ q. length q.pending) same),
      )
  Step-IsClosing (awaits p xs x ys e f) v =
      let (left, right) =
        All-split xs x ys (subst (All (λ y. y.1.collector.finished ≡ true)) e v.1) in
      (
        (v.0, All-append (λ y. y.1.collector.finished ≡ true) xs ys left right),
        omega (arith, ap length e, length-append xs (x ∷ ys), length-append xs ys),
      )
  Step-IsClosing (expires p xs x ys e) v =
      let (left, right) =
        All-split xs x ys (subst (All (λ y. y.1.collector.finished ≡ true)) e v.1) in
      (
        (
          v.0,
          All-append (λ y. y.1.collector.finished ≡ true) xs (cancel x ∷ ys) left
              (cancel_finished x, right),
        ),
        omega (arith, ap length e, length-append xs (x ∷ ys), length-append xs (cancel x ∷ ys)),
      )
  Step-IsClosing (closes p) v = ground (arith, v)
  Step-IsClosing (removes p container) v = (
    (
      v.0,
      All-keep (λ y. y.1.collector.finished ≡ true) (λ y. not (text_eq y.0 container)) p.pending
          v.1,
    ),
    omega (arith, length-keep_le (λ y. not (text_eq y.0 container)) p.pending),
  )

  -- What is left to hand over, in order
  abbrev pub due : List (Text × PendingAlert) → List Alert
  due pending = map (λ x. with_context x.1 x.1.collector.capture) pending

  Reach-IsClosing :
      {p q : Proc} {alerts : List Alert}
      → Reach p alerts q
      → IsClosing p
      → IsClosing q × (length alerts + length q.pending ≤ length p.pending)
  Reach-IsClosing here v = (v, omega arith)
  Reach-IsClosing (next {alerts = alerts} {more = more} r st) v =
      let (v', bound) = Reach-IsClosing r v in
      let (v'', bound') = Step-IsClosing st v' in
      (v'', omega (arith, bound, bound', length-append alerts more))

  drain :
      (p : Proc) (gone todo : List (Text × PendingAlert))
      → All (λ x. x.1.collector.finished ≡ true) todo
      → HandOver p (due gone) (record p { pending = todo })
      → HandOver p (due (gone ++ todo)) (record p { pending = [] })
  unfolding await_context
  drain p gone [] f r =
      subst (λ l. HandOver p (due l) (record p { pending = [] })) (sym (append-nil gone)) r
  drain p gone (x ∷ todo) f r =
      subst (λ l. HandOver p (due l) (record p { pending = [] })) (append_assoc gone (x ∷ []) todo)
        (drain p (gone ++ x ∷ []) todo f.1 (
          subst (λ l. HandOver p l (record p { pending = todo })) (due-append gone x)
            (handed [] x todo r refl f.0)))
    where
      due-append :
          (ys : List (Text × PendingAlert)) (x : Text × PendingAlert)
          → due ys ++ due (x ∷ []) ≡ due (ys ++ x ∷ [])
      due-append [] x = refl
      due-append (y ∷ ys) x = ap (λ l. with_context y.1 y.1.collector.capture ∷ l) (due-append ys x)

  -- The alert with its collector finished: one that had not finished is marked as timed out.
  abbrev pub ended : Text × PendingAlert → Text × PendingAlert
  ended (container, p) = (
    container,
    if p.collector.finished then p else record p {
      collector = record (p.collector) {
        capture = record (p.collector.capture) { timed_out = true };
        finished = true;
      };
    },
  )

  cancel-ended : (xs : List (Text × PendingAlert)) → map cancel xs ≡ map ended xs
  unfolding Collector.finish
  cancel-ended [] = refl
  cancel-ended (x ∷ xs) = ground (arith, cancel-ended xs)

  closed_pending :
      (p : Proc) → p.closed ≡ false → (close regexp digest parse p).pending ≡ map ended p.pending
  unfolding close
  closed_pending p c = ground (arith, cancel-ended p.pending)

  length-ended : (xs : List (Text × PendingAlert)) → length (map ended xs) ≡ length xs
  length-ended [] = refl
  length-ended (x ∷ xs) = omega (arith, length-ended xs)

  -- Closing an open processor ends every wait: the collector of each alert that waited has finished, with
  -- what it had by then, so that hand-overs alone, with no timer and no further entry, hand over all
  -- these alerts, in turn, each with the lines of what it had, after which none wait; and whatever
  -- steps are taken after `Close`, the alerts handed over and those that still wait are never more
  -- than those that waited.
  pub close_lem :
      (p : Proc)
      → p.closed ≡ false
      → let p' = close regexp digest parse p in
        (p'.pending ≡ map ended p.pending)
        × HandOver p' (due (map ended p.pending)) (record p' { pending = [] })
        × ((q : Proc) (alerts : List Alert)
            → Reach p' alerts q
            → length alerts + length q.pending ≤ length p.pending)
  close_lem p c =
      let p' = close regexp digest parse p in
      let v = close-IsClosing p c in
      let waiting = closed_pending p c in
      (
        waiting,
        subst (λ l. HandOver p' (due l) (record p' { pending = [] })) waiting
            (drain p' [] p'.pending v.1 handed_none),
        λ q alerts r.
            omega (arith, (Reach-IsClosing r v).1, ap length waiting, length-ended p.pending),
      )
