-- ===== src/Docker/Rounds.antt =====
-- internal/source/docker/source.go: the loops around the streams.
--
-- What Docker answers, how a stream ends, and whether a wait runs to its end are inputs: one `Round`
-- for each turn of `runContainer`, one `Subscription` for each turn of `watchEvents`. What a loop
-- does, in order, is a list of actions; with a nil observer those of the observer are not made.
pub mod Backoff
pub mod Attachments
pub mod Events
use congraph_log_watcher.Common.{
  suc, Bool, true, false, not, ◌&&◌, ◌||◌, List, [], ◌∷◌, ◌++◌, length, Option, none, some, Text, ℕ,
  Time, Duration, zero_time, lookup, Strings, Result, ok, err, if◌then◌else◌,
}
use congraph_log_watcher.Docker.{
  Container, Event, has_name, next_backoff, is_lifecycle_action, normalize_name, wake,
}
use congraph_log_watcher.Docker.Frames.{
  Reader, Run, not_read, failed, read_lines, decode_multiplexed,
}

pub data Action : Type 0 where
  docker_available : Action
  container_attached : Text → Text → Bool → Action
  container_reconnect : Text → Action
  opens_stream : Container → Action
  waits : Duration → Action

pub data DiscoverError (E : Type 0) : Type 0 where
  api_error : E → DiscoverError E
  not_running not_found : DiscoverError E

pub data Ending : Type 0 where
  -- the context is done, a lifecycle event came, or the stream ended
  cancelled woken stream_ended : Ending

pub record Round (E : Type 0) : Type 0 where
  -- `api.List` and `api.Inspect`
  pub list : Result E (List Container)
  pub inspect : Text → Result E Container
  pub ending : Ending
  -- what `wait` returns
  pub goes_on : Bool

-- `backoff` and `attachedOnce`
pub record Progress : Type 0 where
  pub backoff : Duration
  pub attached_once : Bool

-- The state after a turn, what it did, and whether the loop goes on
pub record Turn : Type 0 where
  pub progress : Progress
  pub actions : List Action
  pub goes_on : Bool

abbrev pub detached : Text → Text → List Action
detached name id = container_attached name id false ∷ container_reconnect name ∷ []

-- A call of `List`, in `probe` and in `discover`: the observer is told where Docker answers.
unfoldable pub probe : {E : Type 0} → Result E (List Container) → List Action
probe (err e) = []
probe (ok containers) = docker_available ∷ []

module _ {E : Type 0} where
  -- A turn of `runContainer` whose discovery failed
  unfoldable pub failed_turn : Duration → Text → Progress → Round E → Turn
  failed_turn max name p round = record {
    progress = record p {
      backoff = if round.goes_on then next_backoff p.backoff max else p.backoff;
    };
    actions =
        probe round.list
        ++ ((if p.attached_once then detached name [] else container_attached name [] false ∷ [])
            ++ waits p.backoff ∷ []);
    goes_on = round.goes_on;
  }

  -- What a turn does until the stream ends
  abbrev pub attaches : Text → Round E → Container → List Action
  attaches name round container =
      probe round.list ++ container_attached name container.id true ∷ opens_stream container ∷ []

  -- A turn that found the container, by how it ends
  unfoldable pub attached_turn : Duration → Duration → Text → Round E → Container → Ending → Turn
  attached_turn initial max name round container cancelled = record {
    progress = record { backoff = initial; attached_once = true };
    actions = attaches name round container;
    goes_on = false;
  }
  attached_turn initial max name round container woken = record {
    progress = record { backoff = initial; attached_once = true };
    actions = attaches name round container ++ detached name container.id;
    goes_on = true;
  }
  attached_turn initial max name round container stream_ended = record {
    progress = record {
      backoff = if round.goes_on then next_backoff initial max else initial;
      attached_once = true;
    };
    actions = attaches name round container ++ (detached name container.id ++ waits initial ∷ []);
    goes_on = round.goes_on;
  }

  -- One turn: the initial and the greatest backoff, and the container's name
  unfoldable pub turn_of :
      Duration → Duration → Text → Progress → Round E → Result (DiscoverError E) Container → Turn
  unfolding failed_turn attached_turn
  turn_of initial max name p round (err e) = failed_turn max name p round
  turn_of initial max name p round (ok container) =
      attached_turn initial max name round container round.ending

module _ {E : Type 0} (strings : Strings) where
  -- The loop of `discover` over the containers
  unfoldable pub find_container :
      (Text → Result E Container) → List Container → Text → Result (DiscoverError E) Container
  unfolding has_name
  find_container inspect [] name = err not_found
  find_container inspect (item ∷ items) name =
      let rest = find_container inspect items name in
      if has_name strings item.names name
      then elim (inspect item.id) [
        | err e ↦ err (api_error e)
        | ok inspected ↦ if inspected.running then ok inspected else err not_running
      ]
      else rest

  unfoldable pub discover : Round E → Text → Result (DiscoverError E) Container
  unfolding find_container
  discover round name = elim round.list [
    | err e ↦ err (api_error e)
    | ok containers ↦ find_container round.inspect containers name
  ]

  unfoldable pub run_turn : Duration → Duration → Text → Progress → Round E → Turn
  unfolding turn_of discover
  run_turn initial max name p round = turn_of initial max name p round (discover round name)

  -- The loop of `runContainer`, as far as there are rounds before the context is done
  unfoldable pub run_turns : Duration → Duration → Text → Progress → List (Round E) → List Action
  unfolding run_turn
  run_turns initial max name p [] = []
  run_turns initial max name p (round ∷ rounds) =
      let turn = run_turn initial max name p round in
      let rest = run_turns initial max name turn.progress rounds in
      if turn.goes_on then turn.actions ++ rest else turn.actions

  unfoldable pub run_container : Duration → Duration → Text → List (Round E) → List Action
  unfolding run_turns
  run_container initial max name rounds =
      run_turns initial max name (record { backoff = initial; attached_once = false }) rounds

abbrev pub start_of : List (Text × Time) → Option (Text → Time) → Text → Time
start_of replay_starts none name = elim (lookup name replay_starts) [
  | none ↦ zero_time
  | some t ↦ t
]
start_of replay_starts (some f) name = f name

-- `stream`, with `Logs` and, if it is given, the function ReplayStart: the loops have fuel enough.
unfoldable pub stream :
    {E : Type 0}
    → (Text → Option Time)
    → Bool
    → List (Text × Time)
    → Option (Text → Time)
    → (Text → Time → Result E (Reader E))
    → Text
    → Container
    → ℕ
    → Option (Run E)
stream parse_time stderr_first replay_starts replay_start logs name container room =
    elim (logs container.id (start_of replay_starts replay_start name)) [
      | err e ↦ some (record { out = []; room = room; error = some (not_read (failed e)) })
      | ok reader ↦
          if container.tty
          then read_lines parse_time name container.id (suc (length reader.bytes)) reader room
          else decode_multiplexed parse_time name container.id (suc (length reader.bytes))
              stderr_first (record { stdout = []; stderr = [] }) reader room
    ]

-- What a `select` of `watchEvents` takes
pub data Selected : Type 0 where
  context_is_done events_closed errors_closed an_error : Selected
  an_event : Event → Selected

-- One turn of `watchEvents`: what is selected until both channels are closed or the context is done,
-- and what `wait` then returns
pub record Subscription : Type 0 where
  pub selected : List Selected
  pub goes_on : Bool

module _ (strings : Strings) where
  abbrev pub on_event : List (Text × Bool) → Event → List (Text × Bool)
  on_event wakes event =
      if is_lifecycle_action event.action
      then wake wakes (normalize_name strings event.name)
      else wakes

  -- The inner loop, with whether each channel is open: the tokens, and whether it left both closed. A
  -- closed channel gives nothing any more.
  unfoldable pub watch_inner :
      Bool → Bool → List (Text × Bool) → List Selected → List (Text × Bool) × Bool
  unfolding wake normalize_name is_lifecycle_action
  watch_inner events errors wakes [] = (wakes, not events && not errors)
  watch_inner events errors wakes (s ∷ rest) =
      let stay = watch_inner events errors wakes rest in
      let no_events = watch_inner false errors wakes rest in
      let no_errors = watch_inner events false wakes rest in
      if events || errors
      then elim s [
        | context_is_done ↦ (wakes, false)
        | events_closed ↦ no_events
        | errors_closed ↦ no_errors
        | an_error ↦ stay
        | an_event e ↦
            let woken_one = watch_inner events errors (on_event wakes e) rest in
            if events then woken_one else stay
      ]
      else (wakes, true)

  -- `watchEvents`: the tokens and the waits
  unfoldable pub watch_events :
      Duration
      → Duration
      → List (Text × Bool)
      → List Subscription
      → List (Text × Bool) × List Action
  unfolding watch_inner
  watch_events max backoff wakes [] = (wakes, [])
  watch_events max backoff wakes (s ∷ rest) =
      let inner = watch_inner true true wakes s.selected in
      let (wakes', actions) = watch_events max (next_backoff backoff max) inner.0 rest in
      if not inner.1
      then (inner.0, [])
      else if s.goes_on
      then (wakes', waits backoff ∷ actions)
      else (inner.0, waits backoff ∷ [])
