-- ===== src/Notify/Retry.antt =====
-- internal/notify/notifier.go: delivery with retries, to one channel and to several.
--
-- The channels, third-party clients, are the interface `World`: a call of one, and a sleep, change
-- the state of the world. An error is a value of `Error`.
pub mod Attempts
use congraph_log_watcher.Common.{
  ℕ, Bool, true, false, List, [], ◌∷◌, ◌++◌, Option, none, some, Duration, if◌then◌else◌,
}
use congraph_log_watcher.Alert.{Alert}

pub record World : Type 1 where
  pub State : Type 0
  pub Channel : Type 0
  pub Error : Type 0
  -- `Notify`: `none` is nil.
  pub notify : State → Channel → Alert → State × Option Error
  -- `sleep`: whether the delay passed before the context was done
  pub sleep : State → Duration → State × Bool
  -- `ctx.Err()` of a context that is done
  pub context_error : Error

module _ (world : World) where
  open world use {State, Channel, Error, notify, sleep, context_error}

  -- The loop of `notifyWithRetries`, with the delays that are left
  unfoldable pub notify_with_retries :
      State → Channel → Alert → List Duration → State × Option Error
  notify_with_retries s channel alert [] = notify s channel alert
  notify_with_retries s channel alert (delay ∷ delays) =
      let (s', failure) = notify s channel alert in
      let (s'', slept) = sleep s' delay in
      let again = notify_with_retries s'' channel alert delays in
      elim failure [
        | none ↦ (s', none)
        | some e ↦ if slept then again else (s'', some context_error)
      ]

  abbrev pub join : Option Error → List Error → List Error
  join none es = es
  join (some e) es = e ∷ es

  -- `(MultiNotifier).NotifyWithRetries`, with the errors that it joins
  unfoldable pub notify_all_with_retries :
      State → List Channel → Alert → List Duration → State × List Error
  unfolding notify_with_retries
  notify_all_with_retries s [] alert delays = (s, [])
  notify_all_with_retries s (channel ∷ channels) alert delays =
      let (s', failure) = notify_with_retries s channel alert delays in
      let (s'', failures) = notify_all_with_retries s' channels alert delays in
      (s'', join failure failures)

  -- `(MultiNotifier).Notify`
  unfoldable pub notify_all : State → List Channel → Alert → State × List Error
  notify_all s [] alert = (s, [])
  notify_all s (channel ∷ channels) alert =
      let (s', failure) = notify s channel alert in
      let (s'', failures) = notify_all s' channels alert in (s'', join failure failures)

  -- The loop of `(*Worker).send` over a notifier without retries of its own
  unfoldable pub send_with_retries : State → Channel → Alert → List Duration → State × Bool
  send_with_retries s channel alert [] =
      let (s', failure) = notify s channel alert in
      (s', elim failure [ none ↦ true | some e ↦ false ])
  send_with_retries s channel alert (delay ∷ delays) =
      let (s', failure) = notify s channel alert in
      let (s'', slept) = sleep s' delay in
      let again = send_with_retries s'' channel alert delays in
      elim failure [ none ↦ (s', true) | some e ↦ if slept then again else (s'', false) ]
