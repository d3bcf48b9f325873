-- ===== src/Health.antt =====
-- internal/metrics/metrics.go: the health of the service. `now` is the clock's reading, and a mutex
-- orders the calls. The Prometheus collectors are not modelled.
pub mod History
mod Tests
use congraph_log_watcher.Common.{
  ℕ, ◌+◌, ◌-◌, ◌^◌, suc, ltb, leb, min, Bool, true, false, not, ◌&&◌, ◌||◌, List, [], ◌∷◌, ◌++◌,
  all, is_nil, Option, none, some, Text, ℤ, pos, negsuc, lebℤ, Time, Duration, zero_time, is_zero,
  lookup, insert, remove, if◌then◌else◌,
}

pub record Health : Type 0 where
  pub last_docker_ok : Time
  pub attached : List (Text × Bool)
  pub detached_since : List (Text × Time)
  pub checkpoint_err : Bool
  pub docker_after : Duration
  pub detached_after : Duration

pub data Component : Type 0 where
  docker_component containers_component checkpoint_component : Component

-- `now.Sub(t)`, which stays within the 64 bits of a duration
unfoldable pub elapsed : Time → Time → Duration
elapsed now t = if leb t now then pos (min (now - t) (2 ^ 63 - 1)) else below (t - now)
  where
    below : ℕ → Duration
    below n = negsuc (min (n - 1) (2 ^ 63 - 1))

abbrev pub known : List (Text × Bool) → Text → Bool
known attached name = elim (lookup name attached) [ none ↦ false | some b ↦ b ]

abbrev pub since : List (Text × Time) → Text → Time
since detached name = elim (lookup name detached) [ none ↦ zero_time | some t ↦ t ]

-- The loop of `NewHealth`
unfoldable pub all_detached : List Text → Time → List (Text × Bool) × List (Text × Time)
all_detached [] now = ([], [])
all_detached (c ∷ cs) now =
    let (attached, detached) = all_detached cs now in
    (insert c false attached, insert c now detached)

unfoldable pub new_health : List Text → Duration → Duration → Time → Health
unfolding all_detached
new_health containers docker_after detached_after now = record {
  last_docker_ok = now;
  attached = (all_detached containers now).0;
  detached_since = (all_detached containers now).1;
  checkpoint_err = false;
  docker_after = docker_after;
  detached_after = detached_after;
}

unfoldable pub docker_ok : Health → Time → Health
docker_ok h now = record h { last_docker_ok = now }

-- `Attached`
unfoldable pub set_attached : Health → Text → Bool → Time → Health
set_attached h name true now = record h {
  attached = insert name true h.attached;
  detached_since = remove name h.detached_since;
}
set_attached h name false now = record h {
  attached = insert name false h.attached;
  detached_since =
      if known h.attached name || is_zero (since h.detached_since name)
      then insert name now h.detached_since
      else h.detached_since;
}

unfoldable pub checkpoint_ok : Health → Bool → Health
checkpoint_ok h ok = record h { checkpoint_err = not ok }

-- `now.Sub(t) > d`
abbrev pub longer_than : Time → Time → Duration → Bool
longer_than now t d = not (lebℤ (elapsed now t) d)

-- The test that the loop of `ServeHTTP` makes of each container
unfoldable pub is_detached_long : Health → Time → Text × Bool → Bool
unfolding elapsed
is_detached_long h now c =
    not c.1
    && not (is_zero (since h.detached_since c.0))
    && longer_than now (since h.detached_since c.0) h.detached_after

abbrev pub component_if : Bool → Component → List Component
component_if true c = c ∷ []
component_if false c = []

-- The components that `ServeHTTP` reports as failed; it answers that the service is unhealthy
-- exactly if there are any.
unfoldable pub failed_components : Health → Time → List Component
unfolding is_detached_long
failed_components h now =
    component_if (longer_than now h.last_docker_ok h.docker_after) docker_component
    ++ (component_if (not (is_nil h.attached) && all (is_detached_long h now) h.attached)
          containers_component
        ++ component_if h.checkpoint_err checkpoint_component)
