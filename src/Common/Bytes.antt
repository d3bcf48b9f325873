-- ===== src/Common/Bytes.antt =====
-- Go strings as lists of bytes.
use Prim.Native.Nat.{ℕ}
use Prim.Native.Char.{code}
use Prim.Native.String.{String}
use mathlib.Core.Path.{◌≡◌, refl}
use mathlib.Core.Logic.{◌↔◌}
use mathlib.Core.Bool.{Bool, true, false, ◌&&◌, ◌||◌}
use mathlib.Core.List.{List, [], ◌∷◌}
use native.Mathlib.Omega.{arith}
use congraph_log_watcher.Common.Tests.{ltb, ◌==◌, if◌then◌else◌}

-- A Go string: its bytes.
abbrev pub Text : Type 0
Text = List ℕ

-- A literal of the source, which is ASCII.
abbrev pub text : String → Text
text String.[] = []
text (String.◌∷◌ c s) = code c ∷ text s

-- `a == b` on strings
unfoldable pub text_eq : Text → Text → Bool
text_eq [] [] = true
text_eq [] (y ∷ ys) = false
text_eq (x ∷ xs) [] = false
text_eq (x ∷ xs) (y ∷ ys) = (x == y) && text_eq xs ys

-- `s == ""`
abbrev pub is_nil {ℓ} : {A : Type ℓ} → List A → Bool
is_nil [] = true
is_nil (x ∷ xs) = false

abbrev pub is_empty : Text → Bool
is_empty s = is_nil s

pub text_eq_refl : (a : Text) → text_eq a a ≡ true
unfolding text_eq
text_eq_refl [] = refl
text_eq_refl (x ∷ xs) = ground (arith, text_eq_refl xs)

pub text_eq→eq : (a b : Text) → text_eq a b ≡ true → a ≡ b
unfolding text_eq
text_eq→eq [] [] h = refl
text_eq→eq [] (y ∷ ys) h = cc
text_eq→eq (x ∷ xs) [] h = cc
text_eq→eq (x ∷ xs) (y ∷ ys) h = ground (arith, text_eq→eq xs ys)

pub text_eq_iff : (a b : Text) → (text_eq a b ≡ true) ↔ (a ≡ b)
text_eq_iff a b = (text_eq→eq a b, λ e. rw e (text_eq_refl b))

-- `a < b` on strings: byte by byte, a prefix first.
unfoldable pub text_lt : Text → Text → Bool
text_lt [] [] = false
text_lt [] (y ∷ ys) = true
text_lt (x ∷ xs) [] = false
text_lt (x ∷ xs) (y ∷ ys) = if ltb x y then true else (x == y) && text_lt xs ys

-- A set of strings: a Go map to `struct{}`.
abbrev pub has_text : List Text → Text → Bool
has_text [] t = false
has_text (s ∷ set) t = text_eq s t || has_text set t

abbrev pub add_text : List Text → Text → List Text
add_text set t = if has_text set t then set else t ∷ set

pub text_lt_asym : (a b : Text) → text_lt a b ≡ true → text_lt b a ≡ false
unfolding text_lt
text_lt_asym [] [] h = refl
text_lt_asym [] (y ∷ ys) h = refl
text_lt_asym (x ∷ xs) [] h = cc
text_lt_asym (x ∷ xs) (y ∷ ys) h = ground (arith, text_lt_asym xs ys)

-- Two strings of which neither is before the other are one.
pub text_lt_connex : (a b : Text) → text_lt a b ≡ false → text_lt b a ≡ false → a ≡ b
unfolding text_lt
text_lt_connex [] [] h k = refl
text_lt_connex [] (y ∷ ys) h k = cc
text_lt_connex (x ∷ xs) [] h k = cc
text_lt_connex (x ∷ xs) (y ∷ ys) h k = ground (arith, text_lt_connex xs ys)

pub text_le_trans : (a b c : Text) → text_lt b a ≡ false → text_lt c b ≡ false → text_lt c a ≡ false
unfolding text_lt
text_le_trans [] b [] h k = refl
text_le_trans [] b (z ∷ zs) h k = refl
text_le_trans (x ∷ xs) [] c h k = cc
text_le_trans (x ∷ xs) (y ∷ ys) [] h k = cc
text_le_trans (x ∷ xs) (y ∷ ys) (z ∷ zs) h k = ground (arith, text_le_trans xs ys zs)
