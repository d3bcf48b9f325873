-- ===== src/ContextBuf/Collector/Taken.antt =====
-- What a collector takes when its calls do not overlap, as under the processor's lock.
use congraph_log_watcher.Common.{
  ℕ, zero, suc, ◌+◌, ◌<◌, ◌≡◌, refl, sym, ap, ◌∙◌, true, false, List, [], ◌∷◌, ◌++◌, pos, leb,
  le→leb, length, take, arith, length-append, append_assoc, append-nil,
}
use congraph_log_watcher.Entry.{LogEntry}
use congraph_log_watcher.ContextBuf.Collector.{AfterCollector, add_now, new_collector}

-- Calls of `Add` one after the other
unfoldable pub add_all : AfterCollector → List LogEntry → AfterCollector
add_all c [] = c
add_all c (e ∷ es) = add_all (add_now c e).0 es

add_all_finished : (c : AfterCollector) (es : List LogEntry) → c.finished ≡ true → add_all c es ≡ c
unfolding add_all add_now
add_all_finished c [] h = refl
add_all_finished c (e ∷ es) h =
    let same : (add_now c e).0 ≡ c = ground arith in
    ap (λ d. add_all d es) same ∙ add_all_finished c es h

add_now_last :
    (c : AfterCollector) (e : LogEntry)
    → c.finished ≡ false
    → c.after ≡ pos (length c.capture.after + 1)
    → ((add_now c e).0.capture.after ≡ c.capture.after ++ e ∷ [])
      × ((add_now c e).0.finished ≡ true)
unfolding add_now
add_now_last c e f a = ground (arith, length-append c.capture.after (e ∷ []))

add_now_more :
    (c : AfterCollector) (e : LogEntry) (room : ℕ)
    → c.finished ≡ false
    → c.after ≡ pos (length c.capture.after + suc (suc room))
    → ((add_now c e).0.capture.after ≡ c.capture.after ++ e ∷ [])
      × ((add_now c e).0.finished ≡ false)
      × ((add_now c e).0.after ≡ c.after)
unfolding add_now
add_now_more c e room f a = ground (arith, length-append c.capture.after (e ∷ []))

-- With `room` entries still wanted.
add_all_open :
    (c : AfterCollector) (es : List LogEntry) (room : ℕ)
    → c.finished ≡ false
    → c.after ≡ pos (length c.capture.after + suc room)
    → ((add_all c es).capture.after ≡ c.capture.after ++ take (suc room) es)
      × ((add_all c es).finished ≡ leb (suc room) (length es))
unfolding add_all
add_all_open c [] room f a = (sym (append-nil c.capture.after), ground arith)
add_all_open c (e ∷ es) zero f a =
    let (taken, done) = add_now_last c e f a in
    rw (add_all_finished (add_now c e).0 es done)
      (taken, done ∙ sym (le→leb 1 (suc (length es)) (omega arith)))
add_all_open c (e ∷ es) (suc room) f a =
    let (taken, open', same) = add_now_more c e room f a in
    let total : length (add_now c e).0.capture.after ≡ length c.capture.after + 1 =
      ap length taken ∙ length-append c.capture.after (e ∷ []) in
    let rest =
      add_all_open (add_now c e).0 es room open' (same ∙ a ∙ ap pos (omega (arith, total))) in
    (
      rest.0
          ∙ ap (λ l. l ++ take (suc room) es) taken
          ∙ append_assoc c.capture.after (e ∷ []) (take (suc room) es),
      rest.1 ∙ ground arith,
    )

-- A collector that waits for `n` entries, one at least, takes the first `n` that it is given and is
-- finished exactly when it has them.
pub add_all-take :
    (before : List LogEntry) (trigger : LogEntry) (n : ℕ) (es : List LogEntry)
    → 0 < n
    → ((add_all (new_collector before trigger (pos n)) es).capture.after ≡ take n es)
      × ((add_all (new_collector before trigger (pos n)) es).finished ≡ leb n (length es))
add_all-take before trigger zero es h = elim h [ ]
add_all-take before trigger (suc n) es h =
    add_all_open (new_collector before trigger (pos (suc n))) es n refl (ap pos (omega arith))
