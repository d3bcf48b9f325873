-- ===== src/Docker.antt =====
-- internal/source/docker/source.go: the configuration of the log source and its names.
--
-- The Docker client is a parameter; `has_api` and `has_output` tell whether it and the channel are
-- not nil. `wakes` is the map of channels: whether each holds its one token.
pub mod Frames
pub mod Rounds
pub mod Built
mod Tests
use congraph_log_watcher.Common.{
  ℕ, zero, suc, ◌+◌, ◌*◌, ◌/◌, ◌==◌, Bool, true, false, ◌||◌, List, [], ◌∷◌, map, Option, none,
  some, Text, text, text_eq, is_empty, is_nil, ℤ, pos, negsuc, lebℤ, is_nonpositive, Time, Duration,
  Strings, Result, ok, err, lookup, insert, if◌then◌else◌,
}

pub record Container : Type 0 where
  pub id : Text
  pub names : List Text
  pub running : Bool
  pub tty : Bool

pub record Event : Type 0 where
  pub action : Text
  pub name : Text
  pub id : Text

pub record Config : Type 0 where
  pub has_api : Bool
  pub containers : List Text
  pub has_output : Bool
  pub replay_starts : List (Text × Time)
  pub initial_backoff : Duration
  pub max_backoff : Duration
  pub health_probe_interval : Duration

pub record LogSource : Type 0 where
  pub containers : List Text
  pub replay_starts : List (Text × Time)
  pub initial : Duration
  pub max : Duration
  pub probe_interval : Duration
  pub wakes : List (Text × Bool)

pub data SourceError : Type 0 where
  nil_api no_containers nil_output max_below_initial empty_name : SourceError
  duplicate_name : Text → SourceError

-- `strings.TrimPrefix(s, "/")`
unfoldable pub trim_slash : Text → Text
trim_slash [] = []
trim_slash (c ∷ s) = if c == b'/' then s else c ∷ s

abbrev half : ℤ → ℤ
half (pos n) = pos (n / 2)
half (negsuc zero) = pos 0
half (negsuc (suc n)) = negsuc (n / 2)

abbrev double : ℤ → ℤ
double (pos n) = pos (n * 2)
double (negsuc n) = negsuc (n * 2 + 1)

unfoldable pub next_backoff : Duration → Duration → Duration
next_backoff current max = if lebℤ (half max) current then max else double current

-- A duration of the configuration that is not positive is replaced.
abbrev pub or_default : Duration → Duration → Duration
or_default d default = if is_nonpositive d then default else d

abbrev pub millisecond : ℕ
millisecond = 1000000

unfoldable pub is_lifecycle_action : Text → Bool
is_lifecycle_action action =
    text_eq action (text "create")
    || text_eq action (text "start")
    || text_eq action (text "die")
    || text_eq action (text "destroy")

-- `wake`: a full channel, and a name that is not followed, change nothing.
unfoldable pub wake : List (Text × Bool) → Text → List (Text × Bool)
wake wakes name = elim (lookup name wakes) [ none ↦ wakes | some full ↦ insert name true wakes ]

module _ (strings : Strings) where
  open strings use {trim_space}

  unfoldable pub normalize_name : Text → Text
  unfolding trim_slash
  normalize_name value = trim_slash (trim_space value)

  unfoldable pub normalized_names : List Text → List Text
  unfolding normalize_name
  normalized_names values = map normalize_name values

  unfoldable pub has_name : List Text → Text → Bool
  unfolding normalize_name
  has_name [] wanted = false
  has_name (name ∷ names) wanted = text_eq (normalize_name name) wanted || has_name names wanted

  -- The loop of `New` over the containers
  unfoldable pub wakes_of : List (Text × Bool) → List Text → Result SourceError (List (Text × Bool))
  unfolding normalize_name
  wakes_of wakes [] = ok wakes
  wakes_of wakes (c ∷ cs) =
      let name = normalize_name c in
      let rest = wakes_of (insert name false wakes) cs in
      if is_empty name
      then err empty_name
      else elim (lookup name wakes) [ some full ↦ err (duplicate_name name) | none ↦ rest ]

  -- `New`
  unfoldable pub new : Config → Result SourceError LogSource
  unfolding wakes_of normalized_names
  new c =
      let initial = or_default c.initial_backoff (pos (100 * millisecond)) in
      let max = or_default c.max_backoff (pos (5000 * millisecond)) in
      let interval = or_default c.health_probe_interval (pos (30000 * millisecond)) in
      if c.has_api
      then if is_nil c.containers
        then err no_containers
        else if c.has_output
        then if lebℤ initial max
          then elim (wakes_of [] c.containers) [
            | err e ↦ err e
            | ok wakes ↦ ok (record {
              containers = normalized_names c.containers;
              replay_starts = c.replay_starts;
              initial = initial;
              max = max;
              probe_interval = interval;
              wakes = wakes;
            })
          ]
          else err max_below_initial
        else err nil_output
      else err nil_api
