-- ===== src/Common/Recent.antt =====
-- The last elements of a list, as a bounded history keeps them.
use Prim.Native.Nat.{ℕ, zero, suc, ◌+◌, ◌-◌, ◌≤◌, min}
use mathlib.Core.Path.{◌≡◌, refl, sym, ap, ◌∙◌}
use mathlib.Core.List.{List, [], ◌∷◌, ◌++◌, append_assoc}
use native.Mathlib.Omega.{arith}
use native.Mathlib.Decide.{dec_le}
use congraph_log_watcher.Common.Lists.{
  length, drop, take, length-append, length-drop, take-append-drop,
}

module _ {ℓ} {A : Type ℓ} where
  -- The last `n` elements, or all of them.
  abbrev pub take_last : ℕ → List A → List A
  take_last n xs = drop (length xs - n) xs

  pub drop-append_length : (xs ys : List A) (n : ℕ) → drop (length xs + n) (xs ++ ys) ≡ drop n ys
  drop-append_length [] ys n = ap (λ k. drop k ys) (omega arith)
  drop-append_length (x ∷ xs) ys n =
      ap (λ k. drop k (x ∷ xs ++ ys)) {x = suc (length xs) + n} {y = suc (length xs + n)}
        (omega arith)
      ∙ drop-append_length xs ys n

  pub drop-append_le :
      (n : ℕ) (xs ys : List A) → n ≤ length xs → drop n (xs ++ ys) ≡ drop n xs ++ ys
  drop-append_le zero xs ys h = refl
  drop-append_le (suc n) [] ys h = elim h [ ]
  drop-append_le (suc n) (x ∷ xs) ys h = drop-append_le n xs ys (omega arith)

  pub take_last_all : (n : ℕ) (xs : List A) → length xs ≤ n → take_last n xs ≡ xs
  take_last_all n xs h = ap (λ k. drop k xs) {y = 0} (omega arith)

  pub drop_length : (xs : List A) → drop (length xs) xs ≡ []
  drop_length [] = refl
  drop_length (x ∷ xs) = drop_length xs

  pub take_last_zero : (xs : List A) → take_last 0 xs ≡ []
  take_last_zero xs = ap (λ k. drop k xs) {y = length xs} (omega arith) ∙ drop_length xs

  pub length-take_last : (n : ℕ) (xs : List A) → length (take_last n xs) ≡ min n (length xs)
  length-take_last n xs = omega (arith, length-drop (length xs - n) xs)

  -- Only the last `n` elements matter.
  pub take_last-append :
      (n : ℕ) (xs ys : List A) → n ≤ length ys → take_last n (xs ++ ys) ≡ take_last n ys
  take_last-append n xs ys h =
      ap (λ k. drop k (xs ++ ys)) {y = length xs + (length ys - n)}
        (omega (arith, length-append xs ys))
      ∙ drop-append_length xs ys (length ys - n)

  pub take_last-append_take_last :
      (n : ℕ) (xs ys : List A) → take_last n (take_last n xs ++ ys) ≡ take_last n (xs ++ ys)
  take_last-append_take_last n xs ys = elim (dec_le (length xs) n) [
    | yes h ↦ ap (λ l. take_last n (l ++ ys)) (take_last_all n xs h)
    | no h ↦
        sym (
          take_last-append n (take (length xs - n) xs) (take_last n xs ++ ys)
            (omega (arith, length-append (take_last n xs) ys, length-take_last n xs)))
        ∙ ap (take_last n) (
            sym (append_assoc (take (length xs - n) xs) (take_last n xs) ys)
            ∙ ap (λ l. l ++ ys) (take-append-drop (length xs - n) xs))
  ]

  pub take_last-take_last :
      (m n : ℕ) (xs : List A) → m ≤ n → take_last m (take_last n xs) ≡ take_last m xs
  take_last-take_last m n xs h = elim (dec_le (length xs) n) [
    | yes k ↦ ap (take_last m) (take_last_all n xs k)
    | no k ↦
        sym (
          take_last-append m (take (length xs - n) xs) (take_last n xs)
            (omega (arith, length-take_last n xs)))
        ∙ ap (take_last m) (take-append-drop (length xs - n) xs)
  ]

  -- Two limits in a row are the smaller one.
  pub take_last-min :
      (m n : ℕ) (xs : List A) → take_last m (take_last n xs) ≡ take_last (min m n) xs
  take_last-min m n xs = elim (dec_le m n) [
    | yes h ↦ take_last-take_last m n xs h ∙ ap (λ k. take_last k xs) {y = min m n} (omega arith)
    | no h ↦
        take_last_all m (take_last n xs) (omega (arith, length-take_last n xs))
        ∙ ap (λ k. take_last k xs) {y = min m n} (omega arith)
  ]
