-- ===== src/Aggregate/Incident/Search.antt =====
-- Binary search: `sort.Search` finds where a test turns true.
use congraph_log_watcher.Common.{
  ℕ, zero, suc, ◌+◌, ◌-◌, ◌/◌, ◌≤◌, ◌<◌, ◌≡◌, sym, subst, inl, inr, Bool, true, false, arith, ltb,
  Bool-cases, ltb→lt, ltb→ge, dec_lt,
}
use congraph_log_watcher.Aggregate.Incident.{search_between, search_index}

-- The place lies in the range, the test fails just before it and holds at it, but for the ends.
abbrev Found : (ℕ → Bool) → ℕ → ℕ → ℕ → Type 0
Found test i j r =
    (i ≤ r) × (r ≤ j) × ((p : ℕ) → r ≡ suc p → i ≤ p → test p ≡ false) × (r < j → test r ≡ true)

module _ (fuel : ℕ) (test : ℕ → Bool) (i j : ℕ) where
  search_stop : ltb i j ≡ false → search_between (suc fuel) test i j ≡ i
  unfolding search_between
  search_stop stop = ground arith

  search_hit :
      ltb i j ≡ true
      → test ((i + j) / 2) ≡ true
      → search_between (suc fuel) test i j ≡ search_between fuel test i ((i + j) / 2)
  unfolding search_between
  search_hit go hit = ground arith

  search_miss :
      ltb i j ≡ true
      → test ((i + j) / 2) ≡ false
      → search_between (suc fuel) test i j ≡ search_between fuel test ((i + j) / 2 + 1) j
  unfolding search_between
  search_miss go miss = ground arith

module _ (test : ℕ → Bool) where
  Found-low : (i h j r : ℕ) → h ≤ j → test h ≡ true → Found test i h r → Found test i j r
  Found-low i h j r l hit (low, high, below, at) = (
    low,
    omega arith,
    below,
    λ u. elim (dec_lt r h) [ yes v ↦ at v | no v ↦ subst (λ k. test k ≡ true) (omega arith) hit ],
  )

  Found-high : (i h j r : ℕ) → i ≤ h → test h ≡ false → Found test (h + 1) j r → Found test i j r
  Found-high i h j r l miss (low, high, below, at) = (
    omega arith,
    high,
    λ p e u. elim (dec_lt h p) [
      | yes v ↦ below p e (omega arith)
      | no v ↦ subst (λ k. test k ≡ false) (omega arith) miss
    ],
    at,
  )

search_between-Found :
    (fuel : ℕ) (test : ℕ → Bool) (i j : ℕ)
    → i ≤ j
    → j - i ≤ fuel
    → Found test i j (search_between fuel test i j)
unfolding search_between
search_between-Found zero test i j h k =
    (omega arith, omega arith, λ p e l. absurd (omega arith), λ l. absurd (omega arith))
search_between-Found (suc fuel) test i j h k = elim (Bool-cases (ltb i j)) [
  | inr stop ↦
      subst (Found test i j) (sym (search_stop fuel test i j stop)) (
        omega arith,
        h,
        λ p e l. absurd (omega arith),
        λ l. absurd (omega (arith, ltb→ge i j stop)),
      )
  | inl go ↦
      let less : i < j = ltb→lt i j go in
      elim (Bool-cases (test ((i + j) / 2))) [
        | inl hit ↦ subst (Found test i j) (sym (search_hit fuel test i j go hit)) (
            Found-low test i ((i + j) / 2) j _ (omega arith) hit
              (search_between-Found fuel test i ((i + j) / 2) (omega arith) (omega arith)))
        | inr miss ↦ subst (Found test i j) (sym (search_miss fuel test i j go miss)) (
            Found-high test i ((i + j) / 2) j _ (omega arith) miss
              (search_between-Found fuel test ((i + j) / 2 + 1) j (omega arith) (omega arith)))
      ]
]

-- Wherever the test turns from false to true, the search returns the first such place; with no
-- assumption on the test it returns some such place, or an end of the range.
pub search_index_lem :
    (n : ℕ) (test : ℕ → Bool)
    → let r = search_index n test in
      (r ≤ n) × ((p : ℕ) → r ≡ suc p → test p ≡ false) × (r < n → test r ≡ true)
unfolding search_index
search_index_lem n test =
    let (low, high, below, at) = search_between-Found n test 0 n (omega arith) (omega arith) in
    (high, λ p e. below p e (omega arith), at)
