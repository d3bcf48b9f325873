-- ===== src/ContextBuf/Buffer/Ring/Latest.antt =====
-- A buffer gives back the latest of what it was given.
use congraph_log_watcher.Common.{
  ℕ, zero, suc, ◌<◌, min, ◌≡◌, refl, sym, ap, ap₂, ◌∙◌, List, [], ◌∷◌, ◌++◌, length, replicate,
  none, some, ℤ, pos, arith, take_last, length-replicate, length-take_last, take_last-min,
  take_last-append_take_last, take_last_all, take_last_zero, append_assoc, ◌⊎◌, inl, inr, negsuc,
  pos_part, append-nil,
}
use congraph_log_watcher.Entry.{LogEntry}
use congraph_log_watcher.ContextBuf.Buffer.{Buffer, zero_entry, new_buffer, append, read, last, len}
use congraph_log_watcher.ContextBuf.Buffer.Ring.{
  IsValid, contents, contents-append, append-IsValid, length-contents, capacity-append,
  last-contents,
}

-- A buffer after a sequence of `Append` calls
unfoldable pub append_all : Buffer → List LogEntry → Buffer
append_all b [] = b
append_all b (e ∷ es) = append_all (append b e) es

contents-append_all :
    (b : Buffer) (es : List LogEntry)
    → IsValid b
    → (contents (append_all b es) ≡ take_last b.capacity (contents b ++ es))
      × IsValid (append_all b es)
unfolding append_all
contents-append_all b [] v = (
  sym (
      ap (take_last b.capacity) (append-nil (contents b))
      ∙ take_last_all b.capacity (contents b) (omega (arith, length-contents b))),
  v,
)
contents-append_all b (e ∷ es) v =
    let rest = contents-append_all (append b e) es (append-IsValid b e v) in
    (
      rest.0
          ∙ ap₂ (λ c l. take_last c (l ++ es)) (capacity-append b e) (contents-append b e v)
          ∙ (take_last-append_take_last b.capacity (contents b ++ e ∷ []) es
              ∙ ap (take_last b.capacity) (append_assoc (contents b) (e ∷ []) es)),
      rest.1,
    )

pub append_all_snoc :
    (b : Buffer) (es : List LogEntry) (e : LogEntry)
    → append_all b (es ++ e ∷ []) ≡ append (append_all b es) e
unfolding append_all
append_all_snoc b [] e = refl
append_all_snoc b (d ∷ es) e = append_all_snoc (append b d) es e

capacity-append_all : (b : Buffer) (es : List LogEntry) → (append_all b es).capacity ≡ b.capacity
unfolding append_all
capacity-append_all b [] = refl
capacity-append_all b (e ∷ es) = capacity-append_all (append b e) es ∙ capacity-append b e

abbrev pub fresh : ℕ → Buffer
fresh c = record { entries = replicate c zero_entry; start = 0; length = 0; capacity = c }

fresh-IsValid : (c : ℕ) → 0 < c → IsValid (fresh c)
fresh-IsValid c p = omega (arith, length-replicate c zero_entry)

contents-fresh :
    (c : ℕ) (es : List LogEntry) → 0 < c → contents (append_all (fresh c) es) ≡ take_last c es
unfolding contents read
contents-fresh c es p = (contents-append_all (fresh c) es (fresh-IsValid c p)).0

last-fresh :
    (c : ℕ) (es : List LogEntry) (limit : ℤ)
    → 0 < c
    → last (some (append_all (fresh c) es)) limit ≡ take_last (min (pos_part limit) c) es
unfolding last
last-fresh c es (negsuc n) p =
    sym (take_last_zero es) ∙ ap (λ k. take_last k es) {y = min 0 c} (omega arith)
last-fresh c es (pos n) p =
    last-contents (append_all (fresh c) es) n
      (contents-append_all (fresh c) es (fresh-IsValid c p)).1
    ∙ ap (take_last n) (contents-fresh c es p)
    ∙ take_last-min n c es

-- A new buffer that has taken any entries gives back, for a limit, the latest of them in order: as
-- many as the limit, the capacity and the entries themselves allow, and none for a limit below one.
-- A capacity below one is refused.
pub last-append_all :
    (capacity : ℤ) (es : List LogEntry) (limit : ℤ)
    → ((pos_part capacity ≡ 0) × (new_buffer capacity ≡ none))
      ⊎ ((b : Buffer) × (new_buffer capacity ≡ some b)
          × (last (some (append_all b es)) limit
              ≡ take_last (min (pos_part limit) (pos_part capacity)) es)
          × (len (some (append_all b es)) ≡ min (pos_part capacity) (length es)))
unfolding new_buffer len
last-append_all (pos zero) es limit = inl (refl, refl)
last-append_all (pos (suc c)) es limit = inr (
  fresh (suc c),
  refl,
  last-fresh (suc c) es limit (omega arith),
  omega (
    arith,
    length-contents (append_all (fresh (suc c)) es),
    ap length (contents-fresh (suc c) es (omega arith)),
    length-take_last (suc c) es,
  ),
)
last-append_all (negsuc n) es limit = inl (refl, refl)
