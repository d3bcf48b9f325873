-- ===== src/ContextBuf/Store/Histories.antt =====
-- What a store holds of each container, after any calls.
use congraph_log_watcher.Common.{
  ◌≡◌, refl, sym, ap, ◌∙◌, ◌⊎◌, inl, inr, List, [], ◌∷◌, ◌++◌, take_last, take_last_all, min, none,
  some, Text, text_eq, ℤ, pos_part, lookup, lookup-insert, insert, lookup-remove, text_eq_iff,
  arith, if◌then◌else◌,
}
use congraph_log_watcher.Entry.{LogEntry, container_key}
use congraph_log_watcher.ContextBuf.Buffer
use congraph_log_watcher.ContextBuf.Buffer.{new_buffer}
use congraph_log_watcher.ContextBuf.Buffer.Ring.Latest.{
  append_all, last-append_all, append_all_snoc,
}
use congraph_log_watcher.ContextBuf.Store.{Store, new_store, append, last, remove}

-- A call that changes the store
pub data Call : Type 0 where
  appends : LogEntry → Call
  removes : Text → Call

unfoldable pub apply : Store → Call → Store
unfolding append remove
apply s (appends entry) = append s entry
apply s (removes container) = remove s container

-- The calls, the latest first
unfoldable pub apply_all : Store → List Call → Store
unfolding apply
apply_all s [] = s
apply_all s (c ∷ cs) = apply (apply_all s cs) c

-- The container's entries since it was last removed, the oldest first
unfoldable pub history : Text → List Call → List LogEntry
history k [] = []
history k (appends entry ∷ cs) =
    let earlier = history k cs in
    if text_eq (container_key entry) k then earlier ++ entry ∷ [] else earlier
history k (removes container ∷ cs) =
    let earlier = history k cs in if text_eq container k then [] else earlier

-- The store has either no buffer for the container, or one that took its history.
abbrev Holds : Buffer.Buffer → Store → Text → List LogEntry → Type 0
Holds fresh s k es =
    ((lookup k s.buffers ≡ none) × (es ≡ [])) ⊎ (lookup k s.buffers ≡ some (append_all fresh es))

module _ (fresh : Buffer.Buffer) (s : Store) (entry : LogEntry) where
  append_new :
      lookup (container_key entry) s.buffers ≡ none
      → new_buffer s.capacity ≡ some fresh
      → append s entry
        ≡ record s { buffers = insert (container_key entry) (Buffer.append fresh entry) s.buffers }
  unfolding append
  append_new m n = ground arith

  append_old :
      (b : Buffer.Buffer)
      → lookup (container_key entry) s.buffers ≡ some b
      → append s entry
        ≡ record s { buffers = insert (container_key entry) (Buffer.append b entry) s.buffers }
  unfolding append
  append_old b m = ground arith

  Holds-insert :
      (es : List LogEntry) (k : Text) (cs : List Call)
      → history (container_key entry) cs ≡ es
      → Holds fresh s k (history k cs)
      → Holds fresh
          (record s {
            buffers =
                insert (container_key entry) (Buffer.append (append_all fresh es) entry) s.buffers;
          })
          k
          (history k (appends entry ∷ cs))
  unfolding history
  Holds-insert es k cs e h = ground (
    arith,
    lookup-insert (container_key entry) k (Buffer.append (append_all fresh es) entry) s.buffers,
    text_eq_iff (container_key entry) k,
    append_all_snoc fresh es entry,
  )

apply-Holds :
    (fresh : Buffer.Buffer) (s : Store) (c : Call) (cs : List Call)
    → new_buffer s.capacity ≡ some fresh
    → ((j : Text) → Holds fresh s j (history j cs))
    → ((k : Text) → Holds fresh (apply s c) k (history k (c ∷ cs)))
      × ((apply s c).capacity ≡ s.capacity)
unfolding apply remove history append_all
apply-Holds fresh s (appends entry) cs n h = elim (h (container_key entry)) [
  | inl (m, e) ↦
      rw (append_new fresh s entry m n) (λ k. Holds-insert fresh s entry [] k cs e (h k), refl)
  | inr m ↦
      rw (append_old fresh s entry (append_all fresh (history (container_key entry) cs)) m)
        (λ k. Holds-insert fresh s entry (history (container_key entry) cs) k cs refl (h k), refl)
]
apply-Holds fresh s (removes container) cs n h = (λ k. Holds-remove k (h k), ground arith)
  where
    Holds-remove :
        (k : Text)
        → Holds fresh s k (history k cs)
        → Holds fresh (remove s container) k (history k (removes container ∷ cs))
    Holds-remove k h = ground (arith, lookup-remove container k s.buffers)

apply_all-Holds :
    (fresh : Buffer.Buffer) (s : Store) (cs : List Call)
    → new_buffer s.capacity ≡ some fresh
    → s.buffers ≡ []
    → ((k : Text) → Holds fresh (apply_all s cs) k (history k cs))
      × ((apply_all s cs).capacity ≡ s.capacity)
unfolding apply_all history lookup
apply_all-Holds fresh s [] n e = (λ k. inl (ground arith, refl), refl)
apply_all-Holds fresh s (c ∷ cs) n e =
    let (held, same) = apply_all-Holds fresh s cs n e in
    let (held', same') = apply-Holds fresh (apply_all s cs) c cs (ap new_buffer same ∙ n) held in
    (held', same' ∙ same)

-- After any calls of `Append` and `Remove` on a new store, `Last` gives for each container the latest
-- of the entries that came under its name since it was last removed, in order: as many as the
-- limit and the capacity allow, and whatever was kept of the other containers.
pub last-apply_all :
    (capacity : ℤ) {s : Store} (cs : List Call) (k : Text) (limit : ℤ)
    → new_store capacity ≡ some s
    → last (apply_all s cs) k limit
      ≡ take_last (min (pos_part limit) (pos_part capacity)) (history k cs)
unfolding new_store last Buffer.last
last-apply_all capacity {s} cs k limit h = elim (last-append_all capacity (history k cs) limit) [
  | inl (z, n) ↦ ground arith
  | inr (b, n, eq, _) ↦ elim ((apply_all-Holds b s cs (ground arith) (ground arith)).0 k) [
    | inl (m, e) ↦
        ap (λ o. Buffer.last o limit) m
        ∙ sym (
            ap (take_last (min (pos_part limit) (pos_part capacity))) e
            ∙ take_last_all (min (pos_part limit) (pos_part capacity)) [] (omega arith))
    | inr m ↦ ap (λ o. Buffer.last o limit) m ∙ eq
  ]
]
