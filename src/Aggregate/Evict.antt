-- ===== src/Aggregate/Evict.antt =====
-- Which group is evicted to make room.
use congraph_log_watcher.Common.{
  ◌<◌, ◌≡◌, ◌≢◌, refl, sym, subst, ◌⊎◌, inl, inr, Bool, true, false, ◌&&◌, ◌||◌, ◌==◌, List, [],
  ◌∷◌, All, In, arith, Text, text_lt, is_empty, text_lt_asym, text_lt_connex, text_le_trans, Time,
  zero_time, before, Bool-cases,
}
use congraph_log_watcher.Aggregate.{oldest_from}
use congraph_log_watcher.Aggregate.Incident.{Group}

-- The first is updated before the second, or at the same time with a key that is not after its.
abbrev pub NoYounger : Text × Time → Text × Time → Type 0
NoYounger (k, t) (j, u) = (t < u) ⊎ ((t ≡ u) × (text_lt j k ≡ false))

abbrev pub key_time : Text × Group → Text × Time
key_time (k, g) = (k, g.updated_at)

NoYounger-trans : (a b c : Text × Time) → NoYounger a b → NoYounger b c → NoYounger a c
NoYounger-trans (i, s) (j, t) (k, u) h l = ground (arith, text_le_trans i j k)

NoYounger-refl : (k : Text) (t : Time) → NoYounger (k, t) (k, t)
NoYounger-refl k t = inr (refl, irreflexive (text_lt k k) (text_lt_asym k k))
  where
    irreflexive : (b : Bool) → (b ≡ true → b ≡ false) → b ≡ false
    irreflexive true h = h refl
    irreflexive false h = refl

-- What the loop returns, from a candidate `(key, time)`
abbrev IsOldest : Text → Time → List (Text × Group) → Text → Type 0
IsOldest key time groups r =
    (t : Time) × (((r ≡ key) × (t ≡ time) × (is_empty key ≡ false))
      ⊎ ((g : Group) × In (r, g) groups × (t ≡ g.updated_at)))
    × ((is_empty key ≡ true) ⊎ NoYounger (r, t) (key, time))
    × All (λ g. NoYounger (r, t) (key_time g)) groups

-- The test of the loop
abbrev is_older : Text → Time → Text → Time → Bool
is_older key time k u = is_empty key || before u time || (u == time) && text_lt k key

is_older-NoYounger :
    (key : Text) (time : Time) (k : Text) (u : Time)
    → is_older key time k u ≡ true
    → (is_empty key ≡ true) ⊎ NoYounger (k, u) (key, time)
is_older-NoYounger key time k u h = ground (arith, text_lt_asym k key)

not_older-NoYounger :
    (key : Text) (time : Time) (k : Text) (u : Time)
    → is_older key time k u ≡ false
    → (is_empty key ≡ false) × NoYounger (key, time) (k, u)
not_older-NoYounger key time k u h = ground arith

module _ (key : Text) (time : Time) (k : Text) (g : Group) (rest : List (Text × Group))
    (r : Text) where
  IsOldest-older :
      is_older key time k g.updated_at ≡ true
      → is_empty k ≡ false
      → IsOldest k g.updated_at rest r
      → IsOldest key time ((k, g) ∷ rest) r
  IsOldest-older h n (t, at, inl e, below) = cc
  IsOldest-older h n (t, at, inr le, below) =
      (t, found at, bound (is_older-NoYounger key time k g.updated_at h), (le, below))
    where
      found :
          ((r ≡ k) × (t ≡ g.updated_at) × (is_empty k ≡ false))
            ⊎ ((h : Group) × In (r, h) rest × (t ≡ h.updated_at))
          → ((r ≡ key) × (t ≡ time) × (is_empty key ≡ false))
            ⊎ ((h : Group) × In (r, h) ((k, g) ∷ rest) × (t ≡ h.updated_at))
      found (inl (e, u, _)) = inr (g, inl (λ i. (e i, g)), u)
      found (inr (h, m, u)) = inr (h, inr m, u)

      bound :
          (is_empty key ≡ true) ⊎ NoYounger (k, g.updated_at) (key, time)
          → (is_empty key ≡ true) ⊎ NoYounger (r, t) (key, time)
      bound (inl e) = inl e
      bound (inr b) = inr (NoYounger-trans (r, t) (k, g.updated_at) (key, time) le b)

  IsOldest-newer :
      is_older key time k g.updated_at ≡ false
      → IsOldest key time rest r
      → IsOldest key time ((k, g) ∷ rest) r
  IsOldest-newer h (t, at, inl e, below) =
      let (n, le) = not_older-NoYounger key time k g.updated_at h in cc
  IsOldest-newer h (t, at, inr le, below) =
      let (n, le') = not_older-NoYounger key time k g.updated_at h in
      (t, found at, inr le, (NoYounger-trans (r, t) (key, time) (k, g.updated_at) le le', below))
    where
      found :
          ((r ≡ key) × (t ≡ time) × (is_empty key ≡ false))
            ⊎ ((h : Group) × In (r, h) rest × (t ≡ h.updated_at))
          → ((r ≡ key) × (t ≡ time) × (is_empty key ≡ false))
            ⊎ ((h : Group) × In (r, h) ((k, g) ∷ rest) × (t ≡ h.updated_at))
      found (inl e) = inl e
      found (inr (h, m, u)) = inr (h, inr m, u)

oldest_from-IsOldest :
    (key : Text) (time : Time) (groups : List (Text × Group))
    → (is_empty key ≡ false) ⊎ (groups ≢ [])
    → All (λ g. is_empty g.0 ≡ false) groups
    → IsOldest key time groups (oldest_from key time groups)
unfolding oldest_from
oldest_from-IsOldest key time [] (inl h) n =
    (time, inl (refl, refl, h), inr (NoYounger-refl key time), tt)
oldest_from-IsOldest key time [] (inr h) n = absurd (h refl)
oldest_from-IsOldest key time ((k, g) ∷ rest) h n =
    elim (Bool-cases (is_older key time k g.updated_at)) [
      | inl older ↦ subst (IsOldest key time ((k, g) ∷ rest)) (rw older refl) (
          IsOldest-older key time k g rest (oldest_from k g.updated_at rest) older n.0
            (oldest_from-IsOldest k g.updated_at rest (inl n.0) n.1))
      | inr newer ↦ subst (IsOldest key time ((k, g) ∷ rest)) (rw newer refl) (
          IsOldest-newer key time k g rest (oldest_from key time rest) newer (
            oldest_from-IsOldest key time rest
              (inl (not_older-NoYounger key time k g.updated_at newer).0) n.1))
    ]

All-In {ℓ} : {A : Type 0} (P : A → Type ℓ) (x : A) (xs : List A) → All P xs → In x xs → P x
All-In P x [] h m = absurd m
All-In P x (y ∷ ys) h (inl e) = subst P (sym e) h.0
All-In P x (y ∷ ys) h (inr m) = All-In P x ys h.1 m

-- The loop over a map that is not empty, with no empty key, finds a group that was updated no later
-- than any other, and of those that were updated at that time the one with the first key.
pub oldest_from_lem :
    (groups : List (Text × Group))
    → groups ≢ []
    → All (λ g. is_empty g.0 ≡ false) groups
    → let r = oldest_from [] zero_time groups in
      (g : Group) × In (r, g) groups × All (λ h. NoYounger (r, g.updated_at) (key_time h)) groups
oldest_from_lem groups h n = finish (oldest_from-IsOldest [] zero_time groups (inr h) n)
  where
    finish :
        IsOldest [] zero_time groups (oldest_from [] zero_time groups)
        → (g : Group) × In (oldest_from [] zero_time groups, g) groups
          × All (λ h. NoYounger (oldest_from [] zero_time groups, g.updated_at) (key_time h)) groups
    finish (t, inl (_, _, e), _, below) = cc
    finish (t, inr (g, m, u), _, below) = (
      g,
      m,
      subst (λ v. All (λ h. NoYounger (oldest_from [] zero_time groups, v) (key_time h)) groups) u
          below,
    )

NoYounger-antisym :
    (j k : Text) (t u : Time) → NoYounger (j, t) (k, u) → NoYounger (k, u) (j, t) → j ≡ k
NoYounger-antisym j k t u h l = ground (arith, text_lt_connex j k)

-- The order in which Go visits a map does not decide who is evicted: two lists of the same groups,
-- not empty and none with an empty key, have one victim.
pub oldest_from-order :
    (gs hs : List (Text × Group))
    → gs ≢ []
    → hs ≢ []
    → All (λ g. is_empty g.0 ≡ false) gs
    → All (λ g. is_empty g.0 ≡ false) hs
    → ((k : Text) (g : Group) → In (k, g) gs → In (k, g) hs)
    → ((k : Text) (g : Group) → In (k, g) hs → In (k, g) gs)
    → oldest_from [] zero_time gs ≡ oldest_from [] zero_time hs
oldest_from-order gs hs a b n m into back =
    let (g, at, below) = oldest_from_lem gs a n in
    let (h, at', below') = oldest_from_lem hs b m in
    NoYounger-antisym (oldest_from [] zero_time gs) (oldest_from [] zero_time hs) g.updated_at
      h.updated_at
      (All-In (λ x. NoYounger (oldest_from [] zero_time gs, g.updated_at) (key_time x))
        (oldest_from [] zero_time hs, h) gs below (back _ h at'))
      (All-In (λ x. NoYounger (oldest_from [] zero_time hs, h.updated_at) (key_time x))
        (oldest_from [] zero_time gs, g) hs below' (into _ g at))
