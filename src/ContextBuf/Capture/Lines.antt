-- ===== src/ContextBuf/Capture/Lines.antt =====
-- The lines of a capture keep within the limit, keep the trigger, and are a stretch of the context.
use mathlib.Core.List.{reverse-cons, reverse-reverse, reverse-append}
use congraph_log_watcher.Common.{
  ℕ, zero, suc, ◌+◌, ◌-◌, ◌≤◌, ◌<◌, ◌≡◌, refl, sym, ap, ◌∙◌, ◌⊎◌, inl, inr, true, false, List, [],
  ◌∷◌, ◌++◌, map, reverse, length, take, Text, ℤ, pos, negsuc, is_nonpositive, pos_part, arith,
  length-take, take_all, dec_lt, dec_le, Bool-cases, ℕ_discrete, map-reverse,
}
use congraph_log_watcher.Entry.{LogEntry, raw_or_message}
use congraph_log_watcher.ContextBuf.Capture.{
  Capture, is_utf8_boundary, boundary_below, truncate_utf8, fit, lines,
}

-- The bytes of lines with a newline before each
abbrev pub line_bytes : List Text → ℕ
line_bytes [] = 0
line_bytes (l ∷ ls) = suc (length l) + line_bytes ls

line_bytes-append : (xs ys : List Text) → line_bytes (xs ++ ys) ≡ line_bytes xs + line_bytes ys
line_bytes-append [] ys = omega arith
line_bytes-append (x ∷ xs) ys = omega (arith, line_bytes-append xs ys)

line_bytes-reverse : (xs : List Text) → line_bytes (reverse xs) ≡ line_bytes xs
line_bytes-reverse [] = refl
line_bytes-reverse (x ∷ xs) = omega (
  arith,
  ap line_bytes (reverse-cons x xs),
  line_bytes-append (reverse xs) (x ∷ []),
  line_bytes-reverse xs,
)

-- What the loop takes and what it leaves make up what it was given.
fit_bytes : (r : ℕ) (es : List LogEntry) → line_bytes (fit r es).0 + (fit r es).1 ≡ r
unfolding fit
fit_bytes r [] = omega arith
fit_bytes r (e ∷ es) = ground (arith, fit_bytes (r - (length (raw_or_message e) + 1)) es)

-- It takes the lines of the first entries, and stops only at one that does not fit.
abbrev Fits : ℕ → List LogEntry → List Text → Type 0
Fits r es ls =
    (xs : List LogEntry) × (ys : List LogEntry) × (es ≡ xs ++ ys)
    × (ls ≡ map raw_or_message xs)
    × ((y : LogEntry) (zs : List LogEntry)
        → ys ≡ y ∷ zs
        → r < line_bytes ls + suc (length (raw_or_message y)))

fit-Fits : (r : ℕ) (es : List LogEntry) → Fits r es (fit r es).0
unfolding fit
fit-Fits r [] = ([], [], refl, refl, λ y zs e. cc)
fit-Fits r (e ∷ es) = elim (dec_lt r (length (raw_or_message e) + 1)) [
  | yes h ↦ ([], e ∷ es, refl, ground arith, λ y zs q. ground arith)
  | no h ↦
      let (xs, ys, p, q, most) = fit-Fits (r - (length (raw_or_message e) + 1)) es in
      (e ∷ xs, ys, ap (λ l. e ∷ l) p, ground arith, λ y zs u. ground (arith, most y zs u))
]

boundary_below_lem :
    (value : Text) (n : ℕ)
    → let k = boundary_below value n in
      (k ≤ n)
      × ((k ≡ 0) ⊎ (is_utf8_boundary value k ≡ true))
      × ((j : ℕ) → k < j → j ≤ n → is_utf8_boundary value j ≡ false)
unfolding boundary_below
boundary_below_lem value zero = (omega arith, inl refl, λ j p q. absurd (omega arith))
boundary_below_lem value (suc n) = elim (Bool-cases (is_utf8_boundary value (suc n))) [
  | inl h ↦ rw (h, boundary_below) (omega arith, inr h, λ j p q. absurd (omega arith))
  | inr h ↦
      let (low, at, above) = boundary_below_lem value n in
      rw (h, boundary_below)
        (
          omega arith,
          at,
          λ j p q. elim (ℕ_discrete j (suc n)) [ yes e ↦ rw e h | no e ↦ above j p (omega arith) ],
        )
]

boundary_end : (value : Text) (n : ℕ) → length value ≡ n → is_utf8_boundary value n ≡ true
unfolding is_utf8_boundary
boundary_end value n e = ground arith

lines_nonempty : (c : Capture) (n : ℕ) → 0 < line_bytes (lines c (pos (suc n)))
unfolding lines
lines_nonempty c n = ground (
  arith,
  line_bytes-append (reverse (fit room (reverse c.before)).0)
      (raw_or_message c.trigger ∷ (fit (fit room (reverse c.before)).1 c.after).0),
)
  where
    room : ℕ
    room = suc n - length (raw_or_message c.trigger)

lines_bytes_positive : (c : Capture) (n : ℕ) → line_bytes (lines c (pos (suc n))) ≤ suc (suc n)
unfolding lines truncate_utf8
lines_bytes_positive c n = ground (
  arith,
  boundary_below_lem (raw_or_message c.trigger) (suc n),
  length-take (boundary_below (raw_or_message c.trigger) (suc n)) (raw_or_message c.trigger),
  fit_bytes room (reverse c.before),
  fit_bytes (fit room (reverse c.before)).1 c.after,
  line_bytes-append (reverse (fit room (reverse c.before)).0)
      (raw_or_message c.trigger ∷ (fit (fit room (reverse c.before)).1 c.after).0),
  line_bytes-reverse (fit room (reverse c.before)).0,
)
  where
    room : ℕ
    room = suc n - length (raw_or_message c.trigger)

-- For a limit of one byte at least there is a line, and the bytes of the lines, joined by newlines,
-- are at most the limit (each line counts one byte for the newline before it, so the sum has one byte
-- more); for a limit below one there are no lines at all.
pub lines_bytes :
    (c : Capture) (max_bytes : ℤ)
    → ((is_nonpositive max_bytes ≡ false)
        × (0 < line_bytes (lines c max_bytes))
        × (line_bytes (lines c max_bytes) ≤ suc (pos_part max_bytes)))
      ⊎ ((is_nonpositive max_bytes ≡ true) × (lines c max_bytes ≡ []))
unfolding lines
lines_bytes c (pos zero) = inr (refl, refl)
lines_bytes c (negsuc n) = inr (refl, refl)
lines_bytes c (pos (suc n)) = inl (refl, lines_nonempty c n, lines_bytes_positive c n)

map-reverse-Fits :
    (es xs ys : List LogEntry) → reverse es ≡ xs ++ ys → es ≡ reverse ys ++ reverse xs
map-reverse-Fits es xs ys p = sym (reverse-reverse es) ∙ ap reverse p ∙ reverse-append xs ys

-- A trigger shorter than the limit is kept whole, between the latest of the entries before it and
-- the first of those after it, with none missing in between; the next entry on either side is left
-- out only if its line does not fit in what remains, the entries before being served first.
pub lines_window :
    (c : Capture) (n : ℕ)
    → length (raw_or_message c.trigger) < n
    → (far : List LogEntry) × (near : List LogEntry) × (next : List LogEntry) × (rest : List
        LogEntry)
      × (c.before ≡ far ++ near)
      × (c.after ≡ next ++ rest)
      × (lines c (pos n)
          ≡ map raw_or_message near ++ (raw_or_message c.trigger ∷ map raw_or_message next))
      × ((y : LogEntry) (zs : List LogEntry)
          → reverse far ≡ y ∷ zs
          → n
            < length (raw_or_message c.trigger)
              + line_bytes (map raw_or_message near)
              + suc (length (raw_or_message y)))
      × ((y : LogEntry) (zs : List LogEntry)
          → rest ≡ y ∷ zs
          → n
            < length (raw_or_message c.trigger)
              + line_bytes (map raw_or_message near)
              + line_bytes (map raw_or_message next)
              + suc (length (raw_or_message y)))
unfolding lines
lines_window c zero h = elim h [ ]
lines_window c (suc n) h =
    let room = suc n - length (raw_or_message c.trigger) in
    let (xs, ys, p, q, most) = fit-Fits room (reverse c.before) in
    let left = (fit room (reverse c.before)).1 in
    let (next, rest, p', q', most') = fit-Fits left c.after in
    let near = reverse xs in
    let bytes : line_bytes (map raw_or_message near) ≡ line_bytes (map raw_or_message xs) =
      ap line_bytes (map-reverse raw_or_message xs) ∙ line_bytes-reverse (map raw_or_message xs) in
    let total = fit_bytes room (reverse c.before) in
    (
      reverse ys,
      near,
      next,
      rest,
      map-reverse-Fits c.before xs ys p,
      p',
      ground (arith, q, q', map-reverse raw_or_message xs),
      λ y zs u. omega (arith, bytes, ap line_bytes q, most y zs (sym (reverse-reverse ys) ∙ u)),
      λ y zs u. omega (arith, bytes, ap line_bytes q, ap line_bytes q', total, most' y zs u),
    )

-- A trigger that reaches the limit is the only line, cut at the limit or at the latest place below
-- it where no UTF-8 sequence is cut in two.
pub lines_oversized :
    (c : Capture) (n : ℕ)
    → 0 < n
    → n ≤ length (raw_or_message c.trigger)
    → (k : ℕ) × (lines c (pos n) ≡ take k (raw_or_message c.trigger) ∷ [])
      × (k ≤ n)
      × ((k ≡ 0) ⊎ (is_utf8_boundary (raw_or_message c.trigger) k ≡ true))
      × ((j : ℕ) → k < j → j ≤ n → is_utf8_boundary (raw_or_message c.trigger) j ≡ false)
unfolding lines truncate_utf8
lines_oversized c zero p h = elim p [ ]
lines_oversized c (suc n) p h =
    let value = raw_or_message c.trigger in
    let (low, at, above) = boundary_below_lem value (suc n) in
    elim (dec_le (length value) (suc n)) [
      | yes whole ↦ (
        suc n,
        ground (arith, take_all value (suc n)),
        omega arith,
        inr (boundary_end value (suc n) (omega arith)),
        λ j u v. absurd (omega arith),
      )
      | no longer ↦ (boundary_below value (suc n), ground arith, low, at, above)
    ]
