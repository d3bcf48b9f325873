-- ===== src/Common/Keys.antt =====
-- What the operations of a map keep: predicates on its entries, distinct keys, its size.
use Prim.Native.Nat.{suc, ◌≤◌, ◌<◌}
use mathlib.Core.Path.{◌≡◌, refl}
use mathlib.Core.Bool.{Bool}
use mathlib.Core.Option.{none, some}
use mathlib.Core.List.{List, [], ◌∷◌}
use native.Mathlib.Omega.{arith}
use congraph_log_watcher.Common.Lists.{All, keep, length}
use congraph_log_watcher.Common.Bytes.{Text, text_eq_iff}
use congraph_log_watcher.Common.Assoc.{lookup, insert, remove, lookup-insert, lookup-remove}

module _ {ℓ κ} {A : Type ℓ} (P : A → Type κ) where
  pub All-keep : (p : A → Bool) (xs : List A) → All P xs → All P (keep p xs)
  All-keep p [] h = tt
  All-keep p (x ∷ xs) h = ground (arith, All-keep p xs h.1)

module _ {ℓ κ} {V : Type ℓ} (P : Text × V → Type κ) where
  pub All-insert :
      (k : Text) (v : V) (m : List (Text × V)) → P (k, v) → All P m → All P (insert k v m)
  unfolding insert
  All-insert k v [] h a = (h, tt)
  All-insert k v ((j, w) ∷ m) h a = ground (arith, All-insert k v m h a.1)

  pub All-remove : (k : Text) (m : List (Text × V)) → All P m → All P (remove k m)
  unfolding remove
  All-remove k [] a = tt
  All-remove k ((j, w) ∷ m) a = ground (arith, All-remove k m a.1)

  pub All-lookup :
      (k : Text) (v : V) (m : List (Text × V)) → lookup k m ≡ some v → All P m → P (k, v)
  unfolding lookup
  All-lookup k v [] h a = cc
  All-lookup k v ((j, w) ∷ m) h a = ground (arith, text_eq_iff j k, All-lookup k v m)

module _ {ℓ} {V : Type ℓ} where
  -- No key occurs twice.
  abbrev pub Distinct : List (Text × V) → Type ℓ
  Distinct [] = Unit
  Distinct ((k, v) ∷ m) = (lookup k m ≡ none) × Distinct m

  lookup-keep-none :
      (k : Text) (p : Text × V → Bool) (m : List (Text × V))
      → lookup k m ≡ none
      → lookup k (keep p m) ≡ none
  unfolding lookup
  lookup-keep-none k p [] h = refl
  lookup-keep-none k p ((j, w) ∷ m) h = ground (arith, lookup-keep-none k p m)

  pub Distinct-keep : (p : Text × V → Bool) (m : List (Text × V)) → Distinct m → Distinct (keep p m)
  Distinct-keep p [] d = tt
  Distinct-keep p ((k, v) ∷ m) d = ground (arith, lookup-keep-none k p m d.0, Distinct-keep p m d.1)

  pub Distinct-insert :
      (k : Text) (v : V) (m : List (Text × V)) → Distinct m → Distinct (insert k v m)
  unfolding lookup insert
  Distinct-insert k v [] d = (refl, tt)
  Distinct-insert k v ((j, w) ∷ m) d =
      ground
        (arith, text_eq_iff j k, text_eq_iff k j, lookup-insert k j v m, Distinct-insert k v m d.1)

  pub Distinct-remove : (k : Text) (m : List (Text × V)) → Distinct m → Distinct (remove k m)
  unfolding remove
  Distinct-remove k [] d = tt
  Distinct-remove k ((j, w) ∷ m) d = ground (arith, lookup-remove k j m, Distinct-remove k m d.1)

  pub length-insert-some :
      (k : Text) (v w : V) (m : List (Text × V))
      → lookup k m ≡ some w
      → length (insert k v m) ≡ length m
  unfolding lookup insert
  length-insert-some k v w [] h = cc
  length-insert-some k v w ((j, u) ∷ m) h = ground (arith, length-insert-some k v w m)

  pub length-insert_le :
      (k : Text) (v : V) (m : List (Text × V)) → length (insert k v m) ≤ suc (length m)
  unfolding insert
  length-insert_le k v [] = omega arith
  length-insert_le k v ((j, u) ∷ m) = ground (arith, length-insert_le k v m)

  pub length-remove_le : (k : Text) (m : List (Text × V)) → length (remove k m) ≤ length m
  unfolding remove
  length-remove_le k [] = omega arith
  length-remove_le k ((j, u) ∷ m) = ground (arith, length-remove_le k m)

  pub length-remove-some :
      (k : Text) (w : V) (m : List (Text × V))
      → lookup k m ≡ some w
      → length (remove k m) < length m
  unfolding lookup remove
  length-remove-some k w [] h = cc
  length-remove-some k w ((j, u) ∷ m) h =
      ground (arith, length-remove-some k w m, length-remove_le k m)
