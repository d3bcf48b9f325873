-- ===== src/Processor/Waiting.antt =====
-- What an alert that waits is given as its context.
use congraph_log_watcher.Common.{
  ℕ, ◌<◌, ◌≡◌, refl, sym, ap₂, ◌∙◌, List, [], ◌∷◌, ◌++◌, map, keep, length, take, leb, map-append,
  Text, text_eq, ℤ, pos, arith, if◌then◌else◌,
}
use congraph_log_watcher.Entry.{LogEntry, container_key}
use congraph_log_watcher.ContextBuf.Collector.{AfterCollector, new_collector, add_now}
use congraph_log_watcher.ContextBuf.Collector.Taken.{add_all, add_all-take}
use congraph_log_watcher.Alert.{Alert}
use congraph_log_watcher.Processor.{PendingAlert, add_after_context}

-- The waiting alerts after some entries were fed to them, the earliest first
unfoldable pub feed : List (Text × PendingAlert) → List LogEntry → List (Text × PendingAlert)
unfolding add_after_context
feed pending [] = pending
feed pending (e ∷ es) = feed (add_after_context pending e) es

-- The entries of a container
abbrev pub entries_of : Text → List LogEntry → List LogEntry
entries_of key es = keep (λ e. text_eq key (container_key e)) es

abbrev pub fed : Text × PendingAlert → List LogEntry → Text × PendingAlert
fed x es = (x.0, record (x.1) { collector = add_all x.1.collector (entries_of x.0 es) })

fed_nil : (x : Text × PendingAlert) → fed x [] ≡ x
unfolding add_all
fed_nil x = refl

fed_cons :
    (x : Text × PendingAlert) (e : LogEntry) (es : List LogEntry)
    → fed
        (if text_eq x.0 (container_key e)
          then (x.0, record (x.1) { collector = (add_now x.1.collector e).0 })
          else x)
        es
      ≡ fed x (e ∷ es)
unfolding add_all
fed_cons x e es = ground arith

feed-map :
    (pending : List (Text × PendingAlert)) (es : List LogEntry)
    → feed pending es ≡ map (λ x. fed x es) pending
unfolding feed
feed-map [] [] = refl
feed-map (x ∷ xs) [] = ap₂ (λ y ys. y ∷ ys) (sym (fed_nil x)) (feed-map xs [])
feed-map pending (e ∷ es) = feed-map (add_after_context pending e) es ∙ fed_each pending e es
  where
    fed_each :
        (xs : List (Text × PendingAlert)) (e : LogEntry) (es : List LogEntry)
        → map (λ x. fed x es) (add_after_context xs e) ≡ map (λ x. fed x (e ∷ es)) xs
    fed_each [] e es = refl
    fed_each (x ∷ xs) e es = ap₂ (λ y ys. y ∷ ys) (fed_cons x e es) (fed_each xs e es)

abbrev pub waiting : List LogEntry → LogEntry → ℕ → Alert → ℤ → PendingAlert
waiting before trigger n alert max_bytes = record {
  collector = new_collector before trigger (pos n);
  alert = alert;
  max_bytes = max_bytes;
}

-- An alert that waits for `n` entries, one at least, among any others is given the first `n` entries of
-- its own container that are kept, and is finished exactly when it has them.
pub feed-take :
    (xs ys : List (Text × PendingAlert)) (key : Text) (before : List LogEntry) (trigger : LogEntry)
    (n : ℕ) (alert : Alert) (max_bytes : ℤ) (es : List LogEntry)
    → 0 < n
    → (c : AfterCollector) × (feed (xs ++ (key, waiting before trigger n alert max_bytes) ∷ ys) es
        ≡ feed xs es
          ++ (key, record { collector = c; alert = alert; max_bytes = max_bytes }) ∷ feed ys es)
      × (c.capture.after ≡ take n (entries_of key es))
      × (c.finished ≡ leb n (length (entries_of key es)))
feed-take xs ys key before trigger n alert max_bytes es h =
    let x : Text × PendingAlert = (key, waiting before trigger n alert max_bytes) in
    let (after, done) = add_all-take before trigger n (entries_of key es) h in
    (
      add_all (new_collector before trigger (pos n)) (entries_of key es),
      feed-map (xs ++ x ∷ ys) es
          ∙ map-append (λ y. fed y es) xs (x ∷ ys)
          ∙ ap₂ (λ a b. a ++ fed x es ∷ b) (sym (feed-map xs es)) (sym (feed-map ys es)),
      after,
      done,
    )
