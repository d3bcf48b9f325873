-- ===== src/Docker/Rounds/Attachments.antt =====
-- In what order `runContainer` reports that it attached and detached.
use congraph_log_watcher.Common.{
  ◌≡◌, refl, sym, ap, subst, ◌∙◌, Bool, true, false, ◌&&◌, Bool-cases, Result, Result-cases, Option,
  none, some, text_eq, text_eq_refl, is_empty, inl, inr, List, [], ◌∷◌, ◌++◌, append_assoc, arith,
  ok, err, Text, Duration, Strings, if◌then◌else◌,
}
use congraph_log_watcher.Docker.{Container, has_name}
use congraph_log_watcher.Docker.Rounds.{
  Action, DiscoverError, Ending, probe, turn_of, failed_turn, attached_turn, docker_available,
  container_attached, container_reconnect, opens_stream, waits, Round, Progress, Turn, cancelled,
  woken, stream_ended, attaches, detached, find_container, discover, run_turn, run_turns,
  run_container,
}

-- Whether the actions keep the order, from the id that was reported as attached, if there is one. All
-- reports carry the loop's own name. An attachment is reported only while detached. A stream is opened
-- only of a running container whose id is the one attached. The end of an attachment carries its id,
-- and a report of detachment while detached the empty one. Only a loop that is detached waits or
-- counts a reconnection.
unfoldable pub is_orderly : Text → Option Text → List Action → Bool
is_orderly own at [] = true
is_orderly own at (docker_available ∷ rest) = is_orderly own at rest
is_orderly own none (container_attached name id true ∷ rest) =
    text_eq name own && is_orderly own (some id) rest
is_orderly own (some a) (container_attached name id true ∷ rest) = false
is_orderly own none (container_attached name id false ∷ rest) =
    text_eq name own && is_empty id && is_orderly own none rest
is_orderly own (some a) (container_attached name id false ∷ rest) =
    text_eq name own && text_eq id a && is_orderly own none rest
is_orderly own none (container_reconnect name ∷ rest) = text_eq name own && is_orderly own none rest
is_orderly own (some a) (container_reconnect name ∷ rest) = false
is_orderly own none (opens_stream c ∷ rest) = false
is_orderly own (some a) (opens_stream c ∷ rest) =
    text_eq c.id a && c.running && is_orderly own (some a) rest
is_orderly own none (waits d ∷ rest) = is_orderly own none rest
is_orderly own (some a) (waits d ∷ rest) = false

-- What a turn's actions are to a detached loop
abbrev Detached : Text → List Action → Type 0
Detached own xs =
    (is_orderly own none xs ≡ true)
    × ((rest : List Action) → is_orderly own none (xs ++ rest) ≡ is_orderly own none rest)

Detached-failure :
    (name : Text) (b : Bool) (d : Duration)
    → Detached name
        ((if b then detached name [] else container_attached name [] false ∷ []) ++ waits d ∷ [])
unfolding is_orderly
Detached-failure name true d = rw (text_eq_refl name) (refl, λ rest. refl)
Detached-failure name false d = rw (text_eq_refl name) (refl, λ rest. refl)

-- The end of an attachment
Detached-ended :
    (name id : Text) (xs : List Action)
    → Detached name xs
    → (is_orderly name (some id) (detached name id ++ xs) ≡ true)
      × ((rest : List Action)
          → is_orderly name (some id) ((detached name id ++ xs) ++ rest)
            ≡ is_orderly name none rest)
unfolding is_orderly
Detached-ended name id xs (h, k) = rw (text_eq_refl name, text_eq_refl id) (h, λ rest. k rest)

-- A turn from a detached loop is orderly, and leaves it detached if the loop goes on.
abbrev Fits : Text → Turn → Type 0
Fits own turn =
    (is_orderly own none turn.actions ≡ true)
    × ((rest : List Action)
        → turn.goes_on ≡ true
        → is_orderly own none (turn.actions ++ rest) ≡ is_orderly own none rest)

module _ {E : Type 0} where
  find_container-running :
      (strings : Strings) (inspect : Text → Result E Container) (items : List Container)
      (name : Text) (c : Container)
      → find_container strings inspect items name ≡ ok c
      → c.running ≡ true
  unfolding find_container
  find_container-running strings inspect [] name c h = cc
  find_container-running strings inspect (item ∷ items) name c h =
      elim (Bool-cases (has_name strings item.names name)) [
        | inr e ↦ find_container-running strings inspect items name c (rw e at h)
        | inl e ↦ elim (Result-cases (inspect item.id)) [
          | inl (d, k) ↦ ground (arith, h, e, k)
          | inr (x, k) ↦ absurd (ground (arith, h, e, k))
        ]
      ]

  discover-running :
      (strings : Strings) (round : Round E) (name : Text) (c : Container)
      → discover strings round name ≡ ok c
      → c.running ≡ true
  unfolding discover
  discover-running strings round name c h = elim (Result-cases round.list) [
    | inl (cs, e) ↦ find_container-running strings round.inspect cs name c (rw e at h)
    | inr (x, e) ↦ absurd (ground (arith, h, e))
  ]

  is_orderly-probe :
      (own : Text) (list : Result E (List Container)) (xs : List Action)
      → is_orderly own none (probe list ++ xs) ≡ is_orderly own none xs
  unfolding probe is_orderly
  is_orderly-probe own (ok cs) xs = refl
  is_orderly-probe own (err e) xs = refl

  Detached-probe :
      (own : Text) (list : Result E (List Container)) (xs : List Action)
      → Detached own xs
      → Detached own (probe list ++ xs)
  Detached-probe own list xs (h, k) = (
    is_orderly-probe own list xs ∙ h,
    λ rest.
        ap (is_orderly own none) (append_assoc (probe list) xs rest)
        ∙ is_orderly-probe own list (xs ++ rest)
        ∙ k rest,
  )

  -- A stream of a running container, and what then leaves the loop detached
  Detached-attaches :
      (name : Text) (round : Round E) (c : Container) (xs : List Action)
      → c.running ≡ true
      → (is_orderly name (some c.id) xs ≡ true)
        × ((rest : List Action)
            → is_orderly name (some c.id) (xs ++ rest) ≡ is_orderly name none rest)
      → Detached name (attaches name round c ++ xs)
  unfolding is_orderly
  Detached-attaches name round c xs r (h, k) =
      let start = container_attached name c.id true ∷ opens_stream c ∷ [] in
      subst (Detached name) (sym (append_assoc (probe round.list) start xs)) (
        Detached-probe name round.list (start ++ xs) (
          ground (arith, text_eq_refl name, text_eq_refl c.id, h, r),
          λ rest. ground (arith, text_eq_refl name, text_eq_refl c.id, k rest, r),
        ))

  attached_turn-Fits :
      (initial max : Duration) (name : Text) (round : Round E) (c : Container) (ending : Ending)
      → c.running ≡ true
      → Fits name (attached_turn initial max name round c ending)
  unfolding attached_turn is_orderly
  attached_turn-Fits initial max name round c cancelled h = (
    is_orderly-probe name round.list (container_attached name c.id true ∷ opens_stream c ∷ [])
        ∙ ground (arith, text_eq_refl name, text_eq_refl c.id, h),
    λ rest g. cc,
  )
  attached_turn-Fits initial max name round c woken h =
      let (o, k) =
        Detached-attaches name round c (detached name c.id) h
          (Detached-ended name c.id [] (refl, λ rest. refl)) in
      (o, λ rest g. k rest)
  attached_turn-Fits initial max name round c stream_ended h =
      let (o, k) =
        Detached-attaches name round c (detached name c.id ++ waits initial ∷ []) h
          (Detached-ended name c.id (waits initial ∷ []) (refl, λ rest. refl)) in
      (o, λ rest g. k rest)

  turn_of-Fits :
      (initial max : Duration) (name : Text) (p : Progress) (round : Round E)
      (found : Result (DiscoverError E) Container)
      → ((c : Container) → found ≡ ok c → c.running ≡ true)
      → Fits name (turn_of initial max name p round found)
  unfolding turn_of failed_turn
  turn_of-Fits initial max name p round (err e) h =
      let (o, k) =
        Detached-probe name round.list _ (Detached-failure name p.attached_once p.backoff) in
      (o, λ rest g. k rest)
  turn_of-Fits initial max name p round (ok c) h =
      attached_turn-Fits initial max name round c round.ending (h c refl)

module _ {E : Type 0} (strings : Strings) (initial max : Duration) (name : Text) where
  run_turns-orderly :
      (p : Progress) (rounds : List (Round E))
      → is_orderly name none (run_turns strings initial max name p rounds) ≡ true
  unfolding run_turns run_turn is_orderly
  run_turns-orderly p [] = refl
  run_turns-orderly p (round ∷ rounds) =
      let found = discover strings round name in
      let turn = turn_of initial max name p round found in
      let (o, k) =
        turn_of-Fits initial max name p round found (discover-running strings round name) in
      elim (Bool-cases turn.goes_on) [
        | inl e ↦ rw e (
            k (run_turns strings initial max name turn.progress rounds) e
            ∙ run_turns-orderly turn.progress rounds)
        | inr e ↦ rw e o
      ]

  -- What `runContainer` reports, it reports under its container's name. It reports no second attachment
  -- before it has reported the end of the first, with the id of the first, and a failure to attach with
  -- the empty id; it opens a stream only of a running container whose id it has just reported as
  -- attached; and it waits, or counts a reconnection, only while it is detached.
  pub run_container-orderly :
      (rounds : List (Round E))
      → is_orderly name none (run_container strings initial max name rounds) ≡ true
  unfolding run_container
  run_container-orderly rounds =
      run_turns-orderly (record { backoff = initial; attached_once = false }) rounds
