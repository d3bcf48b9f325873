-- ===== src/Notify/Worker.antt =====
-- internal/notify/notifier.go: `Worker`, the queue of alerts and the limit on their rate.
--
-- The worker's goroutine and the storm senders are steps: `take` is a turn of the loop of `run` until
-- it sends, `sent` the end of that send, `storm_sent` the end of a storm sender. What waits for such
-- an end is part of the state. Observers are told of outcomes and change nothing.
pub mod Accounts
pub mod Rate
use congraph_log_watcher.Common.{
  ℕ, suc, ltb, leb, Bool, true, false, not, ◌&&◌, ◌||◌, List, [], ◌∷◌, ◌++◌, ◌*◌, keep, length, any,
  Option, none, some, Text, text, text_eq, ℤ, pos, is_nonpositive, is_negative, pos_part, is_nil,
  Time, Duration, before, add, sub, zero_time, inc64, Result, ok, err, if◌then◌else◌,
}
use congraph_log_watcher.Alert.{Alert}
use congraph_log_watcher.Entry.Level

-- Counters of 64 bits
pub record Stats : Type 0 where
  pub sent : ℕ
  pub failed : ℕ
  pub dropped : ℕ
  pub storm_alerts : ℕ

pub record Config (Notifier : Type 0) : Type 0 where
  pub notifier : Option Notifier
  pub queue_size : ℤ
  pub max_alerts_per_minute : ℤ
  pub storm_cooldown : Duration
  pub retry_delays : List Duration

pub data WorkerError : Type 0 where
  nil_notifier bad_queue_size bad_max_alerts negative_cooldown negative_retry : WorkerError

-- `queue_size` is the capacity of the channel `queue`. `sending` is the alert that the loop of `run`
-- sends, and `storms` are the alerts that storm senders send.
pub record Worker : Type 0 where
  pub queue_size : ℕ
  pub queue : List Alert
  pub retries : List Duration
  pub limit : ℕ
  pub storm_for : Duration
  pub closed : Bool
  pub stats : Stats
  pub recent : List Time
  pub storm_at : Time
  pub sending : Option Alert
  pub storms : List Alert

abbrev pub second : ℕ
second = 1000000000

abbrev pub minute : Duration
minute = pos (60 * second)

abbrev default_retries : List Duration
default_retries = pos second ∷ pos (2 * second) ∷ pos (5 * second) ∷ pos (10 * second) ∷ []

-- `NewWorker`
unfoldable pub new_worker : {Notifier : Type 0} → Config Notifier → Result WorkerError Worker
new_worker c =
    let delays = if is_nil c.retry_delays then default_retries else c.retry_delays in
    elim c.notifier [
      | none ↦ err nil_notifier
      | some n ↦
          if is_nonpositive c.queue_size
          then err bad_queue_size
          else if is_nonpositive c.max_alerts_per_minute
          then err bad_max_alerts
          else if is_negative c.storm_cooldown
          then err negative_cooldown
          else if any is_negative delays
          then err negative_retry
          else ok (record {
            queue_size = pos_part c.queue_size;
            queue = [];
            retries = delays;
            limit = pos_part c.max_alerts_per_minute;
            storm_for = c.storm_cooldown;
            closed = false;
            stats = record { sent = 0; failed = 0; dropped = 0; storm_alerts = 0 };
            recent = [];
            storm_at = zero_time;
            sending = none;
            storms = [];
          })
    ]

unfoldable pub drop_one : Worker → Worker
drop_one w = record w { stats = record (w.stats) { dropped = inc64 w.stats.dropped } }

-- `Submit`: whether the alert is queued
unfoldable pub submit : Worker → Alert → Worker × Bool
unfolding drop_one
submit w alert =
    if w.closed
    then (drop_one w, false)
    else if ltb (length w.queue) w.queue_size
    then (record w { queue = w.queue ++ alert ∷ [] }, true)
    else (drop_one w, false)

-- `Close`, until it waits
unfoldable pub close : Worker → Worker
close w = record w { closed = true }

-- The alert of `sendStorm`; its clock's two readings are `first` and `last`.
unfoldable pub storm_alert : Alert → Time → Time → Alert
storm_alert source first last = record {
  rule_id = text "alert-storm";
  severity = text "high";
  container_name = source.container_name;
  container_id = [];
  level = Level.LogLevel.unknown;
  component = [];
  subgraph_id = [];
  fingerprint = [];
  first_seen = first;
  last_seen = last;
  window = pos 0;
  window_count = 0;
  total_count = 0;
  suppressed_count = 0;
  samples = text "Alert storm detected: normal alerts are rate limited." ∷ [];
  context = [];
}

-- `allow`: whether the alert may be sent now. The storm sender that it starts is added to `storms`;
-- its alert takes the time of the call.
unfoldable pub allow : Worker → Alert → Time → Worker × Bool
unfolding drop_one storm_alert
allow w alert now =
    let kept = record w { recent = keep (λ at. not (before at (sub now minute))) w.recent } in
    let dropped = drop_one kept in
    if ltb (length kept.recent) w.limit
    then (record kept { recent = kept.recent ++ now ∷ [] }, true)
    else if text_eq alert.rule_id (text "alert-storm")
        || (not (is_nonpositive w.storm_for) && before now (add w.storm_at w.storm_for))
    then (dropped, false)
    else (
      record dropped {
        storm_at = now;
        stats = record (dropped.stats) { storm_alerts = inc64 w.stats.storm_alerts };
        storms = w.storms ++ storm_alert alert now now ∷ [];
      },
      false,
    )

unfoldable pub count_result : Worker → Bool → Worker
count_result w true = record w { stats = record (w.stats) { sent = inc64 w.stats.sent } }
count_result w false = record w { stats = record (w.stats) { failed = inc64 w.stats.failed } }

-- A turn of the loop of `run`, when it sends nothing: the context is cancelled or not, and the
-- clock, if it is read, reads `now`.
unfoldable pub take_from : List Alert → Worker → Bool → Time → Worker
unfolding allow
take_from [] w cancelled now = w
take_from (alert ∷ rest) w cancelled now =
    let popped = record w { queue = rest } in
    let (allowed, may_send) = allow popped alert now in
    if cancelled
    then drop_one popped
    else if may_send
    then record allowed { sending = some alert }
    else allowed

unfoldable pub take : Worker → Bool → Time → Worker
unfolding take_from
take w cancelled now = elim w.sending [ none ↦ take_from w.queue w cancelled now | some alert ↦ w ]

-- The loop's send ends, with success or not.
unfoldable pub sent : Worker → Bool → Worker
unfolding count_result
sent w success = elim w.sending [
  | none ↦ w
  | some alert ↦ count_result (record w { sending = none }) success
]

-- A storm sender ends; which one does not matter to the worker.
unfoldable pub storm_sent : Worker → Bool → Worker
unfolding count_result
storm_sent w success = elim w.storms [
  | [] ↦ w
  | alert ∷ rest ↦ count_result (record w { storms = rest }) success
]
