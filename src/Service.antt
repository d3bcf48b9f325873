-- ===== src/Service.antt =====
-- internal/service/service.go: components are started in order and closed in reverse.
--
-- The components are the interface `World`: starting and closing one changes the state of the world.
pub mod Order
mod Tests
use congraph_log_watcher.Common.{List, [], ◌∷◌, ◌++◌, Option, none, some, reverse}

pub record World : Type 1 where
  pub State : Type 0
  pub Component : Type 0
  pub Error : Type 0
  -- `none` is nil.
  pub start : State → Component → State × Option Error
  pub close : State → Component → State × Option Error
  -- the wait for the context to be done
  pub wait : State → State

module _ (world : World) where
  open world use {State, Component, Error, start, close, wait}

  -- The loop of `closeAll`, over the components last to first, with the error that it keeps
  unfoldable pub close_each : State → Option Error → List Component → State × Option Error
  close_each s result [] = (s, result)
  close_each s result (c ∷ cs) =
      let (s', failure) = close s c in
      close_each s' (elim result [ none ↦ failure | some e ↦ some e ]) cs

  unfoldable pub close_all : State → List Component → State × Option Error
  unfolding close_each
  close_all s values = close_each s none (reverse values)

  -- The loop of `Run`, with the components that were started, and what follows it
  unfoldable pub run_from : State → List Component → List Component → State × Option Error
  unfolding close_all
  run_from s started [] = close_all (wait s) started
  run_from s started (c ∷ cs) =
      let (s', failure) = start s c in
      let rest = run_from s' (started ++ c ∷ []) cs in
      elim failure [ none ↦ rest | some e ↦ ((close_all s' started).0, some e) ]

  unfoldable pub run : State → List Component → State × Option Error
  unfolding run_from
  run s components = run_from s [] components
