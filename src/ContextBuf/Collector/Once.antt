-- ===== src/ContextBuf/Collector/Once.antt =====
-- However the calls interleave, a collector delivers one result at most, and it never changes.
use congraph_log_watcher.Common.{
  ◌+◌, ◌≡◌, refl, sym, ap, ◌∙◌, ◌⊎◌, inl, inr, Bool, true, false, List, [], ◌∷◌, ◌++◌, ℤ, length,
  arith, All, if◌then◌else◌,
}
use congraph_log_watcher.Entry.{LogEntry}
use congraph_log_watcher.ContextBuf.Capture.{Capture}
use congraph_log_watcher.ContextBuf.Collector.{
  System, Step, Reach, here, next, adds, expires, finishes, delivers, add, finish, new, send_if,
}

-- Either nothing is finished and nothing is on its way, or exactly one result, that of the
-- collector, is on its way or delivered.
abbrev pub IsSingle : System → Type 0
IsSingle s =
    ((s.collector.finished ≡ false) × (s.sends ≡ []) × (s.done ≡ []))
    ⊎ ((s.collector.finished ≡ true)
        × (((s.sends ≡ s.collector.capture ∷ []) × (s.done ≡ []))
            ⊎ ((s.sends ≡ []) × (s.done ≡ s.collector.capture ∷ []))))

finish-IsSingle :
    (s : System) (calls : List Bool) (b : Bool)
    → IsSingle s
    → IsSingle (record s {
      collector = (finish s.collector b).0;
      calls = calls;
      sends = send_if (finish s.collector b).1 s.sends;
    })
unfolding finish
finish-IsSingle s calls b v = ground arith

singleton_split :
    (xs ys : List Capture) (a b : Capture) → a ∷ [] ≡ xs ++ b ∷ ys → (xs ≡ []) × (ys ≡ []) × (a ≡ b)
singleton_split [] ys a b e = ground arith
singleton_split (x ∷ []) ys a b e = cc
singleton_split (x ∷ y ∷ xs) ys a b e = cc

nil_split : (xs ys : List Capture) (b : Capture) → [] ≡ xs ++ b ∷ ys → ⊥
nil_split [] ys b e = cc
nil_split (x ∷ xs) ys b e = cc

Step-IsSingle : {s t : System} → Step s t → IsSingle s → IsSingle t
unfolding add
Step-IsSingle (adds s entry) v = ground arith
Step-IsSingle (expires s) v = v
Step-IsSingle (finishes s xs ys b e) v = finish-IsSingle s (xs ++ ys) b v
Step-IsSingle (delivers s xs ys r e) (inl v) = absurd (nil_split xs ys r (sym v.1 ∙ e))
Step-IsSingle (delivers s xs ys r e) (inr (f, inl v)) =
    let split = singleton_split xs ys s.collector.capture r (sym v.0 ∙ e) in
    inr (f, inr (ground arith, ground arith))
Step-IsSingle (delivers s xs ys r e) (inr (f, inr v)) = absurd (nil_split xs ys r (sym v.0 ∙ e))

Reach-IsSingle : {s t : System} → Reach s t → IsSingle s → IsSingle t
Reach-IsSingle here v = v
Reach-IsSingle (next r st) v = Step-IsSingle st (Reach-IsSingle r v)

IsSingle-done :
    (t : System)
    → IsSingle t
    → (length t.sends + length t.done ≡ (if t.collector.finished then 1 else 0))
      × All (λ result. result ≡ t.collector.capture) (t.sends ++ t.done)
IsSingle-done t (inl (f, s, d)) = rw (f, s, d) (omega arith, tt)
IsSingle-done t (inr (f, inl (s, d))) = rw (f, s, d) (omega arith, (refl, tt))
IsSingle-done t (inr (f, inr (s, d))) = rw (f, s, d) (omega arith, (refl, tt))

-- In any interleaving of `Add`, `Cancel`, the timer and the sends, the channel is given nothing until
-- the collector is finished, and from then on one result at most: so the send, into a channel of
-- capacity one, never waits, and the channel is closed once.
pub done-Reach :
    (before : List LogEntry) (trigger : LogEntry) (after : ℤ) {t : System}
    → Reach (new before trigger after) t
    → (length t.sends + length t.done ≡ (if t.collector.finished then 1 else 0))
      × All (λ result. result ≡ t.collector.capture) (t.sends ++ t.done)
unfolding new
done-Reach before trigger after {t} r = IsSingle-done t (Reach-IsSingle r (inl (refl, refl, refl)))

-- Once the collector is finished no step changes its capture.
pub Step-frozen :
    {s t : System} → Step s t → s.collector.finished ≡ true → t.collector ≡ s.collector
unfolding add finish
Step-frozen (adds s entry) h = ground arith
Step-frozen (expires s) h = refl
Step-frozen (finishes s xs ys b e) h = ground arith
Step-frozen (delivers s xs ys r e) h = refl

-- So a result that was delivered, or is on its way, stays what it is.
pub Reach-frozen :
    {s t : System} → Reach s t → s.collector.finished ≡ true → t.collector ≡ s.collector
Reach-frozen here h = refl
Reach-frozen (next r st) h =
    let same = Reach-frozen r h in Step-frozen st (ap (λ c. c.finished) same ∙ h) ∙ same
