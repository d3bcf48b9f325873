-- ===== src/Aggregate.antt =====
-- internal/aggregate/aggregate.go: matching entries become bounded incident state. The clock's
-- reading is an argument of each call; a mutex orders the calls. Times are in nanoseconds.
pub mod Incident
pub mod Evict
pub mod Invariant
mod Tests
use congraph_log_watcher.Common.{
  ℕ, zero, suc, ◌+◌, ◌/◌, ◌==◌, ltb, leb, Bool, true, false, not, ◌&&◌, ◌||◌, List, [], ◌∷◌, ◌++◌,
  length, get_or, take, drop, keep, Option, none, some, Text, text_eq, text_lt, has_text, is_empty,
  ℤ, pos, lebℤ, is_nonpositive, is_negative, pos_part, Time, Duration, zero_time, is_zero, before,
  add, sub, inc64, lookup, insert, remove, Result, ok, err, if◌then◌else◌,
}
use congraph_log_watcher.Entry.{LogEntry, raw_or_message}
use congraph_log_watcher.Rule.{Rule}
use Incident.{Event, EventState, Outcome, Group, new_group, update_group}

pub record Config : Type 0 where
  pub max_groups : ℤ
  pub group_ttl : Duration
  pub max_samples : ℤ

-- The two bounds are positive ints: `new` checks it.
pub record Aggregator : Type 0 where
  pub max_groups : ℕ
  pub group_ttl : Duration
  pub max_samples : ℕ
  pub groups : List (Text × Group)

pub data AggregateError : Type 0 where
  bad_max_groups bad_group_ttl bad_max_samples empty_fingerprint : AggregateError
  invalid_settings : Text → AggregateError

unfoldable pub new : Config → Result AggregateError Aggregator
new c =
    if is_nonpositive c.max_groups
    then err bad_max_groups
    else if is_nonpositive c.group_ttl
    then err bad_group_ttl
    else if is_nonpositive c.max_samples
    then err bad_max_samples
    else ok (record {
      max_groups = pos_part c.max_groups;
      group_ttl = c.group_ttl;
      max_samples = pos_part c.max_samples;
      groups = [];
    })

unfoldable pub evict_expired : Aggregator → Time → Aggregator
evict_expired a now = record a {
  groups = keep (λ g. before now (add g.1.updated_at a.group_ttl)) a.groups;
}

-- The loop of `evictForInsert`
unfoldable pub oldest_from : Text → Time → List (Text × Group) → Text
oldest_from key time [] = key
oldest_from key time ((fingerprint, item) ∷ rest) =
    let older =
      is_empty key
      || before item.updated_at time
      || (item.updated_at == time) && text_lt fingerprint key in
    oldest_from (if older then fingerprint else key) (if older then item.updated_at else time) rest

unfoldable pub evict_for_insert : Aggregator → Aggregator
unfolding oldest_from
evict_for_insert a =
    if ltb (length a.groups) a.max_groups
    then a
    else record a { groups = remove (oldest_from [] zero_time a.groups) a.groups }

abbrev pub group_or_new : Option Group → Text → Group
group_or_new none fingerprint = new_group fingerprint
group_or_new (some g) fingerprint = g

abbrev pub make_room : Option Group → Aggregator → Aggregator
make_room none a = evict_for_insert a
make_room (some g) a = a

module _ {Pattern : Type 0} where
  unfoldable pub record_event :
      Aggregator → Event Pattern → Time → Result AggregateError (Aggregator × Outcome)
  record_event a event now =
      let r = event.rule in
      let fresh = evict_expired a now in
      let found = lookup event.fingerprint fresh.groups in
      let roomy = make_room found fresh in
      let (g, outcome) =
        update_group (group_or_new found event.fingerprint) event a.max_samples now in
      if is_empty event.fingerprint
      then err empty_fingerprint
      else if is_nonpositive r.threshold || is_nonpositive r.window || is_negative r.cooldown
      then err (invalid_settings r.id)
      else ok (record roomy { groups = insert event.fingerprint g roomy.groups }, outcome)

-- `Len`, with the state that it leaves
unfoldable pub len : Aggregator → Time → Aggregator × ℕ
unfolding evict_expired
len a now = let fresh = evict_expired a now in (fresh, length fresh.groups)

-- `State`, with the state that it leaves
unfoldable pub state : Aggregator → Text → Time → Aggregator × Option EventState
unfolding evict_expired
state a fingerprint now =
    let fresh = evict_expired a now in
    (fresh, elim (lookup fingerprint fresh.groups) [ none ↦ none | some g ↦ some g.state ])
