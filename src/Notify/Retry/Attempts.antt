-- ===== src/Notify/Retry/Attempts.antt =====
-- How often each channel is called, and when a delivery gives up.
use congraph_log_watcher.Common.{
  ◌≡◌, refl, sym, ap, ap₂, subst, ◌∙◌, ◌⊎◌, inl, inr, Bool, true, false, List, [], ◌∷◌, ◌++◌, map,
  append_assoc, append-nil, Option, Option-cases, Bool-cases, none, some, Duration, arith,
}
use congraph_log_watcher.Alert.{Alert}
use congraph_log_watcher.Notify.Retry.{
  World, notify_with_retries, notify_all_with_retries, join, send_with_retries,
}

module _ (world : World) (s : world.State) (channel : world.Channel) (alert : Alert)
    (delay : Duration) (delays : List Duration) where
  open world use {Error, notify, sleep, context_error}

  abbrev after_notify : world.State
  after_notify = (notify s channel alert).0

  retry_succeeds :
      (notify s channel alert).1 ≡ none
      → notify_with_retries world s channel alert (delay ∷ delays) ≡ (after_notify, none)
  unfolding notify_with_retries
  retry_succeeds h = ground arith

  retry_stops :
      (e : Error)
      → (notify s channel alert).1 ≡ some e
      → (sleep after_notify delay).1 ≡ false
      → notify_with_retries world s channel alert (delay ∷ delays)
        ≡ ((sleep after_notify delay).0, some context_error)
  unfolding notify_with_retries
  retry_stops e h k = ground arith

  retry_again :
      (e : Error)
      → (notify s channel alert).1 ≡ some e
      → (sleep after_notify delay).1 ≡ true
      → notify_with_retries world s channel alert (delay ∷ delays)
        ≡ notify_with_retries world (sleep after_notify delay).0 channel alert delays
  unfolding notify_with_retries
  retry_again e h k = ground arith

-- What a delivery does to the world: a call of a channel with its answer, or a sleep with whether it
-- ran to its end
pub data Act (Channel Error : Type 0) : Type 0 where
  called : Channel → Option Error → Act Channel Error
  slept : Duration → Bool → Act Channel Error

module _ (world : World) where
  open world use {State, Channel, Error, notify, sleep, context_error}

  abbrev pub Acts : Type 0
  Acts = List (Act Channel Error)

  -- The world with a log of what was done to it, the earliest first
  abbrev pub recording : World
  recording = record {
    State = State × Acts;
    Channel = Channel;
    Error = Error;
    notify = λ s channel alert. (
      ((notify s.0 channel alert).0, s.1 ++ called channel (notify s.0 channel alert).1 ∷ []),
      (notify s.0 channel alert).1,
    );
    sleep = λ s delay.
        (((sleep s.0 delay).0, s.1 ++ slept delay (sleep s.0 delay).1 ∷ []), (sleep s.0 delay).1);
    context_error = context_error;
  }

  -- Calls that failed, each followed by a whole sleep
  abbrev pub failed_attempts : Channel → List (Error × Duration) → Acts
  failed_attempts channel [] = []
  failed_attempts channel ((e, delay) ∷ rest) =
      called channel (some e) ∷ slept delay true ∷ failed_attempts channel rest

  -- How a delivery ends, with the delays that are left
  abbrev pub Ends : Channel → List Duration → Option Error → Acts → Type 0
  Ends channel left failure last =
      -- the channel accepts the alert
      ((last ≡ called channel none ∷ []) × (failure ≡ none))
      -- it refuses it once more, with no delay left
      ⊎ ((e : Error) × (left ≡ []) × (last ≡ called channel (some e) ∷ []) × (failure ≡ some e))
      -- it refuses it, and the sleep that follows is cut short
      ⊎ ((e : Error) × (delay : Duration) × (more : List Duration) × (left ≡ delay ∷ more)
          × (last ≡ called channel (some e) ∷ slept delay false ∷ [])
          × (failure ≡ some context_error))

  -- A delivery to one channel: failed attempts, with the first of the delays, and an end
  abbrev pub Tried : Channel → List Duration → Option Error → Acts → Type 0
  Tried channel delays failure acts =
      (attempts : List (Error × Duration)) × (left : List Duration) × (last : Acts) × (delays
        ≡ map (λ a. a.1) attempts ++ left)
      × (acts ≡ failed_attempts channel attempts ++ last)
      × Ends channel left failure last

  -- What a delivery to one channel did, `run` in the recorded world and `plain` in the other
  abbrev Delivered :
      Channel → List Duration → Acts → (State × Acts) × Option Error → State × Option Error → Type 0
  Delivered channel delays log run plain =
      (acts : Acts) × (run.0.1 ≡ log ++ acts)
      × Tried channel delays run.1 acts
      × (plain ≡ (run.0.0, run.1))

  module _ (channel : Channel) (alert : Alert) where
    Delivered-more :
        (delay : Duration) (delays : List Duration) (log : Acts) (e : Error)
        (run : (State × Acts) × Option Error) (plain : State × Option Error)
        → Delivered channel delays
            ((log ++ called channel (some e) ∷ []) ++ slept delay true ∷ [])
            run
            plain
        → Delivered channel (delay ∷ delays) log run plain
    Delivered-more delay delays log e run plain
          (acts, eq, (attempts, left, last, split, all, end), same) =
        (
          called channel (some e) ∷ slept delay true ∷ acts,
          eq
              ∙ append_assoc (log ++ called channel (some e) ∷ []) (slept delay true ∷ []) acts
              ∙ append_assoc log (called channel (some e) ∷ []) (slept delay true ∷ acts),
          (
            (e, delay) ∷ attempts,
            left,
            last,
            ap (λ l. delay ∷ l) split,
            ap (λ l. called channel (some e) ∷ slept delay true ∷ l) all,
            end,
          ),
          same,
        )

    -- The first attempt is the last.
    Delivered-first :
        (s : State) (delays : List Duration) (log acts : Acts) (failure : Option Error)
        → Ends channel delays failure acts
        → Delivered channel delays log ((s, log ++ acts), failure) (s, failure)
    Delivered-first s delays log acts failure end =
        (acts, refl, ([], delays, acts, refl, refl, end), refl)

    Delivered-cong :
        (delays : List Duration) (log : Acts) {r r' : (State × Acts) × Option Error}
        {p p' : State × Option Error}
        → r ≡ r'
        → p ≡ p'
        → Delivered channel delays log r' p'
        → Delivered channel delays log r p
    Delivered-cong delays log {r} {r'} {p} {p'} a b d =
        subst (λ x. Delivered channel delays log x p) (sym a)
          (subst (Delivered channel delays log r') (sym b) d)

    Ends-last : (failure : Option Error) → Ends channel [] failure (called channel failure ∷ [])
    Ends-last none = inl (refl, refl)
    Ends-last (some e) = inr (inl (e, refl, refl, refl))

    Delivered-last :
        (s : State) (log : Acts)
        → Delivered channel [] log
            (notify_with_retries recording (s, log) channel alert [])
            (notify_with_retries world s channel alert [])
    unfolding notify_with_retries
    Delivered-last s log =
        let (s', failure) = notify s channel alert in
        Delivered-first s' [] log (called channel failure ∷ []) failure (Ends-last failure)

    notify_with_retries-Delivered :
        (s : State) (log : Acts) (delays : List Duration)
        → Delivered channel delays log
            (notify_with_retries recording (s, log) channel alert delays)
            (notify_with_retries world s channel alert delays)
    notify_with_retries-Delivered s log [] = Delivered-last s log
    notify_with_retries-Delivered s log (delay ∷ delays) =
        let (s', failure) = notify s channel alert in
        let (s'', whole) = sleep s' delay in
        elim (Option-cases (notify s channel alert).1) [
          | inl h ↦
              Delivered-cong (delay ∷ delays) log
                (retry_succeeds recording (s, log) channel alert delay delays h
                  ∙ ap (λ a. ((s', log ++ called channel a ∷ []), none)) h)
                (retry_succeeds world s channel alert delay delays h)
                (Delivered-first s' (delay ∷ delays) log (called channel none ∷ []) none
                  (inl (refl, refl)))
          | inr (e, h) ↦ elim (Bool-cases (sleep s' delay).1) [
            | inr stop ↦
                Delivered-cong (delay ∷ delays) log
                  (retry_stops recording (s, log) channel alert delay delays e h stop
                    ∙ ap₂
                        (λ a b. (
                          (s'', (log ++ called channel a ∷ []) ++ slept delay b ∷ []),
                          some context_error,
                        ))
                        h stop
                    ∙ ap (λ l. ((s'', l), some context_error))
                        (append_assoc log (called channel (some e) ∷ []) (slept delay false ∷ [])))
                  (retry_stops world s channel alert delay delays e h stop)
                  (Delivered-first s'' (delay ∷ delays) log
                    (called channel (some e) ∷ slept delay false ∷ []) (some context_error)
                    (inr (inr (e, delay, delays, refl, refl, refl))))
            | inl again ↦
                Delivered-cong (delay ∷ delays) log
                  (retry_again recording (s, log) channel alert delay delays e h again
                    ∙ ap₂
                        (λ a b.
                          notify_with_retries recording
                            (s'', (log ++ called channel a ∷ []) ++ slept delay b ∷ []) channel
                            alert delays)
                        h again)
                  (retry_again world s channel alert delay delays e h again)
                  (Delivered-more delay delays log e _ _ (
                    notify_with_retries-Delivered s''
                      ((log ++ called channel (some e) ∷ []) ++ slept delay true ∷ []) delays))
          ]
        ]

  -- What is done for several channels, in turn, and the errors that are joined
  abbrev pub Rounds : List Channel → List Duration → List Error → Acts → Type 0
  Rounds [] delays failures acts = (failures ≡ []) × (acts ≡ [])
  Rounds (channel ∷ channels) delays failures acts =
      (mine : Acts) × (failure : Option Error) × (others : Acts) × (rest : List Error) × (acts
        ≡ mine ++ others)
      × (failures ≡ join world failure rest)
      × Tried channel delays failure mine
      × Rounds channels delays rest others

  -- Each channel, in turn, is called until it accepts the alert, with a sleep of the next delay after
  -- each call that it refuses; only once the delays are used up, or a sleep is cut short by the
  -- context, is it given up without having accepted, and then it adds an error: its last one, or that of
  -- the context. One that accepts is not called again and adds none. The log changes nothing else.
  pub notify_all_with_retries-Rounds :
      (s : State) (log : Acts) (channels : List Channel) (alert : Alert) (delays : List Duration)
      → let run = notify_all_with_retries recording (s, log) channels alert delays in
        (acts : Acts) × (run.0.1 ≡ log ++ acts)
        × Rounds channels delays run.1 acts
        × (notify_all_with_retries world s channels alert delays ≡ (run.0.0, run.1))
  unfolding notify_all_with_retries
  notify_all_with_retries-Rounds s log [] alert delays =
      ([], sym (append-nil log), (refl, refl), refl)
  notify_all_with_retries-Rounds s log (channel ∷ channels) alert delays =
      let first = notify_with_retries recording (s, log) channel alert delays in
      let (mine, eq, tried, same) = notify_with_retries-Delivered channel alert s log delays in
      let (others, eq', rounds, same') =
        notify_all_with_retries-Rounds first.0.0 first.0.1 channels alert delays in
      let later = notify_all_with_retries recording first.0 channels alert delays in
      (
        mine ++ others,
        eq' ∙ ap (λ l. l ++ others) eq ∙ append_assoc log mine others,
        (mine, first.1, others, later.1, refl, refl, tried, rounds),
        ap
              (λ (p : State × Option Error).
                let q = notify_all_with_retries world p.0 channels alert delays in
                (q.0, join world p.1 q.1))
              same
            ∙ ap (λ (q : State × List Error). (q.0, join world first.1 q.1)) same',
      )

  abbrev pub succeeded : Option Error → Bool
  succeeded none = true
  succeeded (some e) = false

  -- The worker's own loop for a channel without retries makes the same calls and sleeps as the loop of
  -- a delivery to several channels, and reports success exactly if that reports no error.
  pub send-notify_with_retries :
      (s : State) (channel : Channel) (alert : Alert) (delays : List Duration)
      → send_with_retries world s channel alert delays ≡ (
        (notify_with_retries world s channel alert delays).0,
        succeeded (notify_with_retries world s channel alert delays).1,
      )
  unfolding send_with_retries notify_with_retries
  send-notify_with_retries s channel alert [] = ground arith
  send-notify_with_retries s channel alert (delay ∷ delays) = ground (
    arith,
    send-notify_with_retries (sleep (notify s channel alert).0 delay).0 channel alert delays,
  )
