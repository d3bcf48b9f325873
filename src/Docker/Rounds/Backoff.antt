-- ===== src/Docker/Rounds/Backoff.antt =====
-- How long `runContainer` waits.
use congraph_log_watcher.Common.{
  ℕ, zero, suc, ◌*◌, ◌/◌, ◌≤◌, ltb, ◌≡◌, refl, sym, ap, ap₂, ◌∙◌, inl, inr, Bool, true, false,
  Bool-cases, Result, List, [], ◌∷◌, ◌++◌, map, map-append, All, All-append, arith, ok, err, Text,
  Duration, pos, Strings, if◌then◌else◌,
}
use congraph_log_watcher.Docker.{Container, next_backoff}
use congraph_log_watcher.Docker.Rounds.{
  Action, DiscoverError, Ending, probe, turn_of, failed_turn, attached_turn, docker_available,
  container_attached, container_reconnect, opens_stream, waits, Round, Progress, Turn, cancelled,
  woken, stream_ended, attaches, detached, discover, run_turn, run_turns, run_container,
}

abbrev pub doubled : ℕ → ℕ → ℕ
doubled n zero = n
doubled n (suc k) = doubled n k * 2

-- The wait after this many turns in a row that ended in one: the initial one doubled each time, and
-- the greatest from the one after the first that reaches half of it
unfoldable pub delay : ℕ → ℕ → ℕ → ℕ
delay initial max zero = initial
delay initial max (suc k) =
    if ltb (doubled initial k) (max / 2) then doubled initial (suc k) else max

doubled_le : (n k : ℕ) → n ≤ doubled n k
doubled_le n zero = omega arith
doubled_le n (suc k) = omega (arith, doubled_le n k)

next_backoff-delay :
    (initial max k : ℕ)
    → next_backoff (pos (delay initial max k)) (pos max) ≡ pos (delay initial max (suc k))
unfolding next_backoff delay
next_backoff-delay initial max zero = ground arith
next_backoff-delay initial max (suc k) = ground arith

pub delay_bounds :
    (initial max k : ℕ)
    → initial ≤ max
    → (initial ≤ delay initial max k) × (delay initial max k ≤ max)
unfolding delay
delay_bounds initial max zero h = (omega arith, h)
delay_bounds initial max (suc k) h = ground (arith, h, doubled_le initial k)

abbrev pub waits_of : List Action → List Duration
waits_of [] = []
waits_of (waits d ∷ actions) = d ∷ waits_of actions
waits_of (docker_available ∷ actions) = waits_of actions
waits_of (container_attached name id b ∷ actions) = waits_of actions
waits_of (container_reconnect name ∷ actions) = waits_of actions
waits_of (opens_stream c ∷ actions) = waits_of actions

waits_of-append : (xs ys : List Action) → waits_of (xs ++ ys) ≡ waits_of xs ++ waits_of ys
waits_of-append [] ys = refl
waits_of-append (waits d ∷ xs) ys = ap (λ l. d ∷ l) (waits_of-append xs ys)
waits_of-append (docker_available ∷ xs) ys = waits_of-append xs ys
waits_of-append (container_attached name id b ∷ xs) ys = waits_of-append xs ys
waits_of-append (container_reconnect name ∷ xs) ys = waits_of-append xs ys
waits_of-append (opens_stream c ∷ xs) ys = waits_of-append xs ys

-- A turn's wait, if it has one, by what it found and the number of turns before it that waited in a
-- row, and that number after it
abbrev pub turn_waits :
    {E : Type 0} → ℕ → ℕ → ℕ → Result (DiscoverError E) Container → Ending → List ℕ × ℕ
turn_waits initial max k (err e) ending = (delay initial max k ∷ [], suc k)
turn_waits initial max k (ok container) cancelled = ([], 0)
turn_waits initial max k (ok container) woken = ([], 0)
turn_waits initial max k (ok container) stream_ended = (initial ∷ [], 1)

-- Whether the loop goes on after a turn
abbrev pub turn_goes_on : {E : Type 0} → Result (DiscoverError E) Container → Ending → Bool → Bool
turn_goes_on (err e) ending waited = waited
turn_goes_on (ok container) cancelled waited = false
turn_goes_on (ok container) woken waited = true
turn_goes_on (ok container) stream_ended waited = waited

abbrev failure : Text → Bool → Duration → List Action
failure name b d =
    (if b then detached name [] else container_attached name [] false ∷ []) ++ waits d ∷ []

waits_of-failure : (name : Text) (b : Bool) (d : Duration) → waits_of (failure name b d) ≡ d ∷ []
waits_of-failure name true d = refl
waits_of-failure name false d = refl

module _ {E : Type 0} (strings : Strings) (initial max : ℕ) (name : Text) where
  abbrev pub waited : ℕ → Round E → List ℕ × ℕ
  waited k round = turn_waits initial max k (discover strings round name) round.ending

  -- The waits of the rounds, up to the first after which the loop does not go on
  abbrev pub expected_waits : ℕ → List (Round E) → List ℕ
  expected_waits k [] = []
  expected_waits k (round ∷ rounds) =
      let rest = expected_waits (waited k round).1 rounds in
      if turn_goes_on (discover strings round name) round.ending round.goes_on
      then (waited k round).0 ++ rest
      else (waited k round).0

  waits_of-probe :
      (list : Result E (List Container)) (xs : List Action)
      → waits_of (probe list ++ xs) ≡ waits_of xs
  unfolding probe
  waits_of-probe (ok cs) xs = refl
  waits_of-probe (err e) xs = refl

  abbrev Waited : ℕ → Bool → Result (DiscoverError E) Container → Ending → Turn → Type 0
  Waited k went_on found ending turn =
      (waits_of turn.actions ≡ map pos (turn_waits initial max k found ending).0)
      × (turn.goes_on ≡ turn_goes_on found ending went_on)
      × (turn.goes_on ≡ true
          → turn.progress.backoff
            ≡ pos (delay initial max (turn_waits initial max k found ending).1))

  waits_of-attaches : (round : Round E) (c : Container) → waits_of (attaches name round c) ≡ []
  waits_of-attaches round c =
      waits_of-probe round.list (container_attached name c.id true ∷ opens_stream c ∷ [])

  attached_turn-waits :
      (k : ℕ) (round : Round E) (c : Container) (ending : Ending)
      → Waited k round.goes_on
          (ok c)
          ending
          (attached_turn (pos initial) (pos max) name round c ending)
  unfolding attached_turn delay
  attached_turn-waits k round c cancelled = (waits_of-attaches round c, refl, λ g. refl)
  attached_turn-waits k round c woken = (
    waits_of-append (attaches name round c) (detached name c.id)
        ∙ ap (λ l. l ++ []) (waits_of-attaches round c),
    refl,
    λ g. refl,
  )
  attached_turn-waits k round c stream_ended = (
    waits_of-append (attaches name round c) (detached name c.id ++ waits (pos initial) ∷ [])
        ∙ ap (λ l. l ++ pos initial ∷ []) (waits_of-attaches round c),
    refl,
    λ g. rw g (next_backoff-delay initial max 0),
  )

  turn_of-waits :
      (k : ℕ) (p : Progress) (round : Round E) (found : Result (DiscoverError E) Container)
      → p.backoff ≡ pos (delay initial max k)
      → Waited k round.goes_on found round.ending
          (turn_of (pos initial) (pos max) name p round found)
  unfolding turn_of failed_turn
  turn_of-waits k p round (err e) h = (
    waits_of-probe round.list (failure name p.attached_once p.backoff)
        ∙ waits_of-failure name p.attached_once p.backoff
        ∙ ap (λ d. d ∷ []) h,
    refl,
    λ g. rw (g, h) (next_backoff-delay initial max k),
  )
  turn_of-waits k p round (ok c) h = attached_turn-waits k round c round.ending

  run_turns-waits :
      (k : ℕ) (p : Progress) (rounds : List (Round E))
      → p.backoff ≡ pos (delay initial max k)
      → waits_of (run_turns strings (pos initial) (pos max) name p rounds)
        ≡ map pos (expected_waits k rounds)
  unfolding run_turns run_turn
  run_turns-waits k p [] h = refl
  run_turns-waits k p (round ∷ rounds) h =
      let found = discover strings round name in
      let turn = turn_of (pos initial) (pos max) name p round found in
      let (w, g, n) = turn_of-waits k p round found h in
      elim (Bool-cases turn.goes_on) [
        | inr e ↦ rw (e, sym g ∙ e) w
        | inl e ↦
            rw (e, sym g ∙ e)
              (waits_of-append turn.actions
                  (run_turns strings (pos initial) (pos max) name turn.progress rounds)
                ∙ ap₂ (λ xs ys. xs ++ ys) w
                    (run_turns-waits (waited k round).1 turn.progress rounds (n e))
                ∙ sym
                    (map-append pos (waited k round).0 (expected_waits (waited k round).1 rounds)))
      ]

  All-waited :
      (k : ℕ) (found : Result (DiscoverError E) Container) (ending : Ending)
      → initial ≤ max
      → All (λ d. (initial ≤ d) × (d ≤ max)) (turn_waits initial max k found ending).0
  All-waited k (err e) ending h = (delay_bounds initial max k h, tt)
  All-waited k (ok c) cancelled h = tt
  All-waited k (ok c) woken h = tt
  All-waited k (ok c) stream_ended h = ((omega arith, h), tt)

  All-expected_waits :
      (k : ℕ) (rounds : List (Round E))
      → initial ≤ max
      → All (λ d. (initial ≤ d) × (d ≤ max)) (expected_waits k rounds)
  All-expected_waits k [] h = tt
  All-expected_waits k (round ∷ rounds) h =
      let found = discover strings round name in
      let now = All-waited k found round.ending h in
      let later = All-expected_waits (waited k round).1 rounds h in
      elim (Bool-cases (turn_goes_on found round.ending round.goes_on)) [
        | inl e ↦ rw e (All-append _ (waited k round).0 _ now later)
        | inr e ↦ rw e now
      ]

  -- The waits of `runContainer` are these: a failed discovery waits twice as long as the one before it,
  -- and the greatest backoff once half of it is reached; after a stream that ended, the wait is the
  -- initial one, and a container that is found starts the count afresh. Each lies between the two.
  pub run_container-waits :
      (rounds : List (Round E))
      → initial ≤ max
      → (waits_of (run_container strings (pos initial) (pos max) name rounds)
          ≡ map pos (expected_waits 0 rounds))
        × All (λ d. (initial ≤ d) × (d ≤ max)) (expected_waits 0 rounds)
  unfolding run_container delay
  run_container-waits rounds h = (
    run_turns-waits 0 (record { backoff = pos initial; attached_once = false }) rounds refl,
    All-expected_waits 0 rounds h,
  )
