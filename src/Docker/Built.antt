-- ===== src/Docker/Built.antt =====
-- What `New` of the log source gives.
use congraph_log_watcher.Common.{
  ℕ, zero, suc, ◌<◌, ◌≤◌, ◌≡◌, refl, sym, subst, ◌∙◌, ◌*◌, Bool, true, false, Bool-cases,
  Option-cases, Result-cases, inl, inr, List, [], ◌∷◌, All, arith, none, some, ok, Text, text_eq,
  is_empty, lookup, insert, lookup-insert, lookup-insert_self, ℤ, pos, negsuc, lebℤ, Strings,
}
use congraph_log_watcher.Docker.{
  Config, LogSource, new, wakes_of, normalize_name, normalized_names, or_default, millisecond,
}

-- Each name is not empty, and differs from those after it.
abbrev pub IsNames : List Text → Type 0
IsNames [] = Unit
IsNames (n ∷ ns) = (is_empty n ≡ false) × All (λ m. text_eq n m ≡ false) ns × IsNames ns

-- A source's backoffs are positive and in order, and its names can be told apart; each has a channel,
-- with no token in it.
pub record IsSource (s : LogSource) : Type 0 where
  pub initial : ℕ
  pub max : ℕ
  pub initial_pos : s.initial ≡ pos initial
  pub max_pos : s.max ≡ pos max
  pub positive : 0 < initial
  pub ordered : initial ≤ max
  pub names : IsNames s.containers
  pub wakes : All (λ n. lookup n s.wakes ≡ some false) s.containers

-- What is free once a name is taken differs from it, and was free.
free_insert :
    (name : Text) (wakes : List (Text × Bool)) (ns : List Text)
    → All (λ n. lookup n (insert name false wakes) ≡ none) ns
    → All (λ n. text_eq name n ≡ false) ns × All (λ n. lookup n wakes ≡ none) ns
free_insert name wakes [] h = (tt, tt)
free_insert name wakes (n ∷ ns) h =
    ground (arith, lookup-insert name n false wakes, free_insert name wakes ns h.1)

lebℤ-le : (a b : ℕ) → lebℤ (pos a) (pos b) ≡ true → a ≤ b
lebℤ-le a b h = ground arith

or_default_positive : (d : ℤ) (k : ℕ) → 0 < k → (n : ℕ) × (or_default d (pos k) ≡ pos n) × (0 < n)
or_default_positive (pos zero) k h = (k, refl, h)
or_default_positive (pos (suc n)) k h = (suc n, refl, omega arith)
or_default_positive (negsuc n) k h = (k, refl, h)

abbrev initial_of : Config → ℤ
initial_of c = or_default c.initial_backoff (pos (100 * millisecond))

abbrev max_of : Config → ℤ
max_of c = or_default c.max_backoff (pos (5000 * millisecond))

module _ (strings : Strings) where
  -- What the loop of `New` leaves of the names before it and adds for those that it visits
  wakes_of-IsNames :
      (wakes built : List (Text × Bool)) (cs : List Text)
      → wakes_of strings wakes cs ≡ ok built
      → IsNames (normalized_names strings cs)
        × All (λ n. lookup n wakes ≡ none) (normalized_names strings cs)
        × All (λ n. lookup n built ≡ some false) (normalized_names strings cs)
        × ((n : Text) → lookup n wakes ≡ some false → lookup n built ≡ some false)
  unfolding wakes_of normalized_names
  wakes_of-IsNames wakes built [] h = (tt, tt, tt, λ n k. ground (arith, h, k))
  wakes_of-IsNames wakes built (c ∷ cs) h =
      let name = normalize_name strings c in
      elim (Bool-cases (is_empty name)) [
        | inl e ↦ absurd (ground (arith, h, e))
        | inr e ↦ elim (Option-cases (lookup name wakes)) [
          | inr (full, k) ↦ absurd (ground (arith, h, e, k))
          | inl k ↦
              let (names, free, taken, kept) =
                wakes_of-IsNames (insert name false wakes) built cs (ground (arith, h, e, k)) in
              (
                (e, (free_insert name wakes _ free).0, names),
                (k, (free_insert name wakes _ free).1),
                (kept name (lookup-insert_self name false wakes), taken),
                λ n z. kept n (ground (arith, lookup-insert name n false wakes, z, k)),
              )
        ]
      ]

  new-ok :
      (c : Config) (s : LogSource)
      → new strings c ≡ ok s
      → (wakes_of strings [] c.containers ≡ ok s.wakes)
        × (s.containers ≡ normalized_names strings c.containers)
        × (s.initial ≡ initial_of c)
        × (s.max ≡ max_of c)
        × (lebℤ (initial_of c) (max_of c) ≡ true)
  unfolding new
  new-ok c s h = elim (Result-cases (wakes_of strings [] c.containers)) [
    | inl (w, e) ↦ ground (arith, h, e)
    | inr (x, e) ↦ absurd (ground (arith, h, e))
  ]

  -- A source that `New` builds has positive backoffs in order, and follows the containers' normalized
  -- names, none empty and no two alike, each with an empty channel.
  pub new-IsSource :
      (c : Config) (s : LogSource)
      → new strings c ≡ ok s
      → (s.containers ≡ normalized_names strings c.containers) × IsSource s
  unfolding new
  new-IsSource c s h =
      let (w, n, i, m, l) = new-ok c s h in
      let (names, free, taken, kept) = wakes_of-IsNames [] s.wakes c.containers w in
      let (a, ea, pa) = or_default_positive c.initial_backoff (100 * millisecond) (omega arith) in
      let (b, eb, pb) = or_default_positive c.max_backoff (5000 * millisecond) (omega arith) in
      (
        n,
        record {
          initial = a;
          max = b;
          initial_pos = i ∙ ea;
          max_pos = m ∙ eb;
          positive = pa;
          ordered = lebℤ-le a b (rw (ea, eb) at l);
          names = subst IsNames (sym n) names;
          wakes = subst (All (λ n. lookup n s.wakes ≡ some false)) (sym n) taken;
        },
      )
