-- ===== src/ContextBuf/Buffer/Ring.antt =====
-- The ring buffer is a bounded history: what it holds and gives back are the latest entries.
pub mod Latest
use native.Mathlib.Nat.{mod-add-mod, mod-eq_of_lt, mod-eq-sub-mod, mod-lt, add-mod_right}
use congraph_log_watcher.Common.{
  ℕ, zero, suc, ◌+◌, ◌-◌, ◌%◌, ◌≤◌, ◌<◌, min, ◌==◌, ◌≡◌, ◌≢◌, refl, sym, ap, ap₂, ◌∙◌, List, [],
  ◌∷◌, ◌++◌, length, get_or, set, drop, replicate, Option, none, some, ℤ, pos, arith, take_last,
  length-set, length-replicate, length-append, length-take_last, take_last-min, length-drop,
  drop-append_le, drop-append_length, take_last-append_take_last, take_last-take_last,
  take_last_all, take_last_zero, get_or-set_self, get_or-set_ne, dec_lt, ℕ_discrete, append_assoc,
  ◌⊎◌, inl, inr, negsuc, pos_part, append-nil,
}
use congraph_log_watcher.Entry.{LogEntry}
use congraph_log_watcher.ContextBuf.Buffer.{Buffer, zero_entry, new_buffer, append, read, last, len}

-- The representation invariant.
pub record IsValid (b : Buffer) : Type 0 where
  pub positive : 0 < b.capacity
  pub storage : length b.entries ≡ b.capacity
  pub start_in : b.start < b.capacity
  pub length_in : b.length ≤ b.capacity

-- The entries held, oldest first.
pub contents : Buffer → List LogEntry
contents b = read b.entries b.capacity b.start b.length

-- Fewer than `c` steps round the ring do not come back to the start.
mod-add-ne : (c a k : ℕ) → 0 < k → k < c → (a + k) % c ≢ a % c
mod-add-ne c a k p q e = elim (dec_lt (a % c + k) c) [
  | yes h ↦ omega (arith, mod-add-mod a c k, mod-eq_of_lt h)
  | no h ↦ omega (
    arith,
    mod-add-mod a c k,
    mod-lt a {m = c},
    mod-eq-sub-mod {n = a % c + k} {m = c} (omega arith),
    mod-eq_of_lt {n = a % c + k - c} {m = c} (omega (arith, mod-lt a {m = c})),
  )
]

module _ (c : ℕ) where
  length-read : (es : List LogEntry) (h n : ℕ) → length (read es c h n) ≡ n
  unfolding read
  length-read es h zero = refl
  length-read es h (suc n) = ap suc (length-read es (h + 1) n)

  read_mod : (es : List LogEntry) (h k n : ℕ) → h % c ≡ k % c → read es c h n ≡ read es c k n
  unfolding read
  read_mod es h k zero e = refl
  read_mod es h k (suc n) e = rw e (
      ap (λ l. get_or es (k % c) zero_entry ∷ l)
        (read_mod es (h + 1) (k + 1) n
          (sym (mod-add-mod h c 1) ∙ ap (λ t. (t + 1) % c) e ∙ mod-add-mod k c 1)))

  read-add :
      (es : List LogEntry) (h m n : ℕ) → read es c h (m + n) ≡ read es c h m ++ read es c (h + m) n
  unfolding read
  read-add es h zero n = ap₂ (λ a b. read es c a b) {y = h + 0} {v = n} (omega arith) (omega arith)
  read-add es h (suc m) n =
      ap (λ k. read es c h k) {y = suc (m + n)} (omega arith)
      ∙ ap (λ l. get_or es (h % c) zero_entry ∷ l)
          (read-add es (h + 1) m n
            ∙ ap (λ k. read es c (h + 1) m ++ read es c k n) {y = h + suc m} (omega arith))

  read-set :
      (es : List LogEntry) (h n i : ℕ) (e : LogEntry)
      → (k : ℕ) → n + k < c
      → i ≡ (h + n + k) % c
      → read (set es i e) c h n ≡ read es c h n
  unfolding read
  read-set es h zero i e k p q = refl
  read-set es h (suc n) i e k p q =
      ap₂ ◌∷◌
        (get_or-set_ne es e zero_entry (λ u.
          mod-add-ne c h (suc n + k) (omega arith) (omega arith)
            (ap (λ t. t % c) (omega arith) ∙ sym q ∙ u)))
        (read-set es (h + 1) n i e k (omega arith) (q ∙ ap (λ t. t % c) (omega arith)))

  -- Writing just past what is read extends it by that entry.
  read-set_end :
      (es : List LogEntry) (h n i : ℕ) (e : LogEntry)
      → length es ≡ c
      → n < c
      → i ≡ (h + n) % c
      → read (set es i e) c h (n + 1) ≡ read es c h n ++ e ∷ []
  unfolding read
  read-set_end es h n i e l p q =
      read-add (set es i e) h n 1
      ∙ ap₂ ◌++◌ (read-set es h n i e 0 (omega arith) (q ∙ ap (λ t. t % c) (omega arith))) (
          ap (λ v. v ∷ [])
            (rw (← q) (get_or-set_self es i e zero_entry (omega (arith, mod-lt (h + n) {m = c})))))

pub length-contents : (b : Buffer) → length (contents b) ≡ b.length
unfolding contents
length-contents b = length-read b.capacity b.entries b.start b.length

contents_full :
    (c : ℕ) (es : List LogEntry) (start : ℕ) (e : LogEntry)
    → 0 < c
    → length es ≡ c
    → start < c
    → read (set es start e) c ((start + 1) % c) c ≡ take_last c (read es c start c ++ e ∷ [])
unfolding read
contents_full zero es start e p l h = elim p [ ]
contents_full (suc m) es start e p l h =
    read_mod (suc m) (set es start e) ((start + 1) % suc m) (start + 1) (suc m)
      (mod-eq_of_lt (mod-lt (start + 1) {m = suc m} p))
    ∙ ap (read (set es start e) (suc m) (start + 1)) {x = suc m} {y = m + 1} (omega arith)
    ∙ read-set_end (suc m) es (start + 1) m start e l (omega arith) (
        sym (
          ap (λ t. t % suc m) {y = start + suc m} (omega arith)
          ∙ add-mod_right start (suc m)
          ∙ mod-eq_of_lt h))
    ∙ sym (ap (λ k. drop k (read es (suc m) start (suc m) ++ e ∷ [])) {y = 1} excess)
  where
    excess : length (read es (suc m) start (suc m) ++ e ∷ []) - suc m ≡ 1
    excess = omega (
      arith,
      length-append (read es (suc m) start (suc m)) (e ∷ []),
      length-read (suc m) es start (suc m),
    )

-- What `append` writes is what a bounded history adds.
pub contents-append :
    (b : Buffer) (e : LogEntry)
    → IsValid b
    → contents (append b e) ≡ take_last b.capacity (contents b ++ e ∷ [])
unfolding contents append
contents-append b e v = elim (ℕ_discrete b.length b.capacity) [
  | yes full ↦ ground (arith, contents_full b.capacity b.entries b.start e)
  | no room ↦ ground (
    arith,
    read-set_end b.capacity b.entries b.start b.length ((b.start + b.length) % b.capacity) e,
    take_last_all b.capacity (read b.entries b.capacity b.start b.length ++ e ∷ []),
    length-append (read b.entries b.capacity b.start b.length) (e ∷ []),
    length-read b.capacity b.entries b.start b.length,
  )
]

pub append-IsValid : (b : Buffer) (e : LogEntry) → IsValid b → IsValid (append b e)
unfolding append
append-IsValid b e v = ground (
  arith,
  length-set b.entries b.start e,
  length-set b.entries ((b.start + b.length) % b.capacity) e,
  mod-lt (b.start + 1) {m = b.capacity},
)

pub capacity-append : (b : Buffer) (e : LogEntry) → (append b e).capacity ≡ b.capacity
unfolding append
capacity-append b e = ground arith

read_tail :
    (c : ℕ) (es : List LogEntry) (start n k : ℕ)
    → 0 < c
    → k ≤ n
    → read es c ((start + n - k) % c) k ≡ drop (n - k) (read es c start n)
read_tail c es start n k p h =
    read_mod c es ((start + n - k) % c) (start + (n - k)) k
      (mod-eq_of_lt (mod-lt (start + n - k) p) ∙ ap (λ t. t % c) (omega arith))
    ∙ sym (drop-append_length (read es c start (n - k)) (read es c (start + (n - k)) k) 0)
    ∙ ap₂ drop {y = n - k} (omega (arith, length-read c es start (n - k)))
        (sym (read-add c es start (n - k) k) ∙ ap (read es c start) {y = n} (omega arith))

-- `Last` reads the end of the contents.
pub last-contents :
    (b : Buffer) (n : ℕ) → IsValid b → last (some b) (pos n) ≡ take_last n (contents b)
unfolding last contents
last-contents b zero v = sym (take_last_zero (read b.entries b.capacity b.start b.length))
last-contents b (suc n) v = elim (dec_lt b.length (suc n)) [
  | yes h ↦ ground (
    arith,
    read_tail b.capacity b.entries b.start b.length b.length,
    take_last_all (suc n) (read b.entries b.capacity b.start b.length),
    length-read b.capacity b.entries b.start b.length,
  )
  | no h ↦ ground (
    arith,
    read_tail b.capacity b.entries b.start b.length (suc n),
    length-read b.capacity b.entries b.start b.length,
  )
]
