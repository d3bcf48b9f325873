-- ===== src/Aggregate/Incident/Window.antt =====
-- The timestamps of a group: the binary searches discard and insert as on a sorted list.
use congraph_log_watcher.Common.{
  ℕ, zero, suc, ◌≤◌, ◌<◌, ◌≡◌, refl, sym, ap, ◌∙◌, Bool, not, List, [], ◌∷◌, ◌++◌, length, get_or,
  take, drop, keep, All, arith, ltb, Time, zero_time, before, if◌then◌else◌,
}
use congraph_log_watcher.Aggregate.Incident.{search_index, discard_before, insert_timestamp}
use congraph_log_watcher.Aggregate.Incident.Search.{search_index_lem}

-- Each element is at most those after it.
abbrev pub IsSorted : List Time → Type 0
IsSorted [] = Unit
IsSorted (x ∷ xs) = All (λ y. x ≤ y) xs × IsSorted xs

-- A timestamp that is not before the cutoff
abbrev pub is_recent : Time → Time → Bool
is_recent cutoff t = not (before t cutoff)

-- Insertion in order, after equal elements
abbrev pub insert_sorted : Time → List Time → List Time
insert_sorted t [] = t ∷ []
insert_sorted t (x ∷ xs) = if ltb t x then t ∷ x ∷ xs else x ∷ insert_sorted t xs

All-le_trans : (a b : Time) (xs : List Time) → a ≤ b → All (λ y. b ≤ y) xs → All (λ y. a ≤ y) xs
All-le_trans a b [] h k = tt
All-le_trans a b (x ∷ xs) h k = (omega arith, All-le_trans a b xs h k.1)

All-get :
    (a : Time) (xs : List Time) (i : ℕ)
    → All (λ y. a ≤ y) xs
    → i < length xs
    → a ≤ get_or xs i zero_time
All-get a [] i h k = absurd (omega arith)
All-get a (x ∷ xs) zero h k = h.0
All-get a (x ∷ xs) (suc i) h k = All-get a xs i h.1 (omega arith)

get-ge :
    (x : Time) (xs : List Time) (i : ℕ)
    → All (λ y. x ≤ y) xs
    → i < suc (length xs)
    → x ≤ get_or (x ∷ xs) i zero_time
get-ge x xs zero h k = omega arith
get-ge x xs (suc i) h k = All-get x xs i h (omega arith)

keep-All :
    (cutoff : Time) (xs : List Time) → All (λ y. cutoff ≤ y) xs → keep (is_recent cutoff) xs ≡ xs
keep-All cutoff [] h = refl
keep-All cutoff (x ∷ xs) h = ground (arith, keep-All cutoff xs)

-- Dropping up to the first element that is not before the cutoff keeps what is recent.
drop_recent :
    (cutoff : Time) (xs : List Time) (r : ℕ)
    → IsSorted xs
    → r ≤ length xs
    → ((p : ℕ) → r ≡ suc p → get_or xs p zero_time < cutoff)
    → (r < length xs → cutoff ≤ get_or xs r zero_time)
    → drop r xs ≡ keep (is_recent cutoff) xs
drop_recent cutoff [] zero s l b a = refl
drop_recent cutoff [] (suc r) s l b a = refl
drop_recent cutoff (x ∷ xs) zero s l b a =
    let low : cutoff ≤ x = a (omega arith) in
    sym (keep-All cutoff (x ∷ xs) (low, All-le_trans cutoff x xs low s.0))
drop_recent cutoff (x ∷ xs) (suc r) s l b a =
    let first : x ≤ get_or (x ∷ xs) r zero_time = get-ge x xs r s.0 (omega arith) in
    let old : x < cutoff = omega (arith, b r refl) in
    drop_recent cutoff xs r s.1 (omega arith) (λ p e. b (suc p) (ap suc e)) (λ h. a (omega arith))
    ∙ ground arith

-- `discard_before` keeps exactly the timestamps that are not before the cutoff, in order.
pub discard_before_lem :
    (xs : List Time) (cutoff : Time)
    → IsSorted xs
    → discard_before xs cutoff ≡ keep (is_recent cutoff) xs
unfolding discard_before
discard_before_lem xs cutoff s =
    let (high, below, at) =
      search_index_lem (length xs) (λ i. is_recent cutoff (get_or xs i zero_time)) in
    drop_recent cutoff xs (search_index (length xs) (λ i. is_recent cutoff (get_or xs i zero_time)))
      s high (λ p e. ground (arith, below p e)) (λ l. ground (arith, at l))

insert_at :
    (t : Time) (xs : List Time) (r : ℕ)
    → IsSorted xs
    → r ≤ length xs
    → ((p : ℕ) → r ≡ suc p → get_or xs p zero_time ≤ t)
    → (r < length xs → t < get_or xs r zero_time)
    → take r xs ++ t ∷ drop r xs ≡ insert_sorted t xs
insert_at t [] zero s l b a = refl
insert_at t [] (suc r) s l b a = refl
insert_at t (x ∷ xs) zero s l b a = let less : t < x = a (omega arith) in ground arith
insert_at t (x ∷ xs) (suc r) s l b a =
    let first : x ≤ get_or (x ∷ xs) r zero_time = get-ge x xs r s.0 (omega arith) in
    let le : x ≤ t = omega (arith, b r refl) in
    let rest =
      insert_at t xs r s.1 (omega arith) (λ p e. b (suc p) (ap suc e)) (λ h. a (omega arith)) in
    ground (arith, rest)

pub insert_timestamp_lem :
    (xs : List Time) (t : Time) → IsSorted xs → insert_timestamp xs t ≡ insert_sorted t xs
unfolding insert_timestamp
insert_timestamp_lem xs t s =
    let (high, below, at) = search_index_lem (length xs) (λ i. before t (get_or xs i zero_time)) in
    insert_at t xs (search_index (length xs) (λ i. before t (get_or xs i zero_time))) s high
      (λ p e. ground (arith, below p e)) (λ l. ground (arith, at l))

All-insert_sorted :
    (a t : Time) (xs : List Time)
    → a ≤ t
    → All (λ y. a ≤ y) xs
    → All (λ y. a ≤ y) (insert_sorted t xs)
All-insert_sorted a t [] h k = (h, tt)
All-insert_sorted a t (x ∷ xs) h k = ground (arith, All-insert_sorted a t xs h k.1)

pub insert_sorted-IsSorted :
    (t : Time) (xs : List Time) → IsSorted xs → IsSorted (insert_sorted t xs)
insert_sorted-IsSorted t [] s = (tt, tt)
insert_sorted-IsSorted t (x ∷ xs) s =
    ground (arith, All-insert_sorted x t xs, insert_sorted-IsSorted t xs s.1, All-le_trans t x xs)

All-keep :
    (a : Time) (p : Time → Bool) (xs : List Time)
    → All (λ y. a ≤ y) xs
    → All (λ y. a ≤ y) (keep p xs)
All-keep a p [] h = tt
All-keep a p (x ∷ xs) h = ground (arith, All-keep a p xs h.1)

pub keep-IsSorted : (p : Time → Bool) (xs : List Time) → IsSorted xs → IsSorted (keep p xs)
keep-IsSorted p [] s = tt
keep-IsSorted p (x ∷ xs) s = ground (arith, All-keep x p xs s.0, keep-IsSorted p xs s.1)
