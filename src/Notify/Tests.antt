-- ===== src/Notify/Tests.antt =====
-- The worker and the retries at concrete alerts and channels.
use congraph_log_watcher.Common.{
  ℕ, ◌+◌, ◌≤◌, ◌≡◌, refl, true, false, ltb, List, [], ◌∷◌, ◌++◌, keep, length, none, some, Text,
  text, pos, Time, sub, arith, if◌then◌else◌, zero_time,
}
use congraph_log_watcher.Alert.{Alert}
use congraph_log_watcher.Samples.{at_time, sample_alert}
use congraph_log_watcher.Notify.Worker.{Worker, Config, new_worker, allow, minute}
use congraph_log_watcher.Notify.Worker.Accounts.{
  Event, submits, takes, sends, storm_sends, apply_all, submissions, settled, waiting,
  settled-apply_all,
}
use congraph_log_watcher.Notify.Worker.Rate.{
  allow_all, passed, in_minute, since, passed_rate, allow-passed,
}
use congraph_log_watcher.Notify.Retry.{
  World, notify_with_retries, notify_all_with_retries, send_with_retries,
}
use congraph_log_watcher.Notify.Retry.Attempts.{
  Acts, recording, Rounds, notify_all_with_retries-Rounds, succeeded, send-notify_with_retries,
}

abbrev config : Config Text
config = record {
  notifier = some (text "channel");
  queue_size = pos 2;
  max_alerts_per_minute = pos 1;
  storm_cooldown = pos 5;
  retry_delays = pos 1 ∷ [];
}

abbrev worker : Worker
worker = record {
  queue_size = 2;
  queue = [];
  retries = pos 1 ∷ [];
  limit = 1;
  storm_for = pos 5;
  closed = false;
  stats = record { sent = 0; failed = 0; dropped = 0; storm_alerts = 0 };
  recent = [];
  storm_at = at_time 0;
  sending = none;
  storms = [];
}

abbrev events : List Event
events =
    storm_sends true
    ∷ takes false (at_time 5)
    ∷ sends false
    ∷ takes false (at_time 3)
    ∷ submits sample_alert
    ∷ submits sample_alert
    ∷ []

settled-apply_all_example :
    settled (apply_all worker events) + waiting (apply_all worker events)
    ≡ submissions events + (apply_all worker events).stats.storm_alerts
unfolding new_worker zero_time
settled-apply_all_example = settled-apply_all config {w = worker} events refl (omega arith)

abbrev calls : List (Alert × Time)
calls = (sample_alert, at_time 9) ∷ (sample_alert, at_time 3) ∷ []

passed_rate_example : length (keep (in_minute (at_time 1)) (passed worker calls)) ≤ 1
passed_rate_example = passed_rate worker calls (at_time 1) refl ((omega arith, tt), (tt, tt))

allow-passed_example :
    (allow (allow_all worker calls) sample_alert (at_time 12)).1
    ≡ ltb (length (keep (since (sub (at_time 12) minute)) (passed worker calls))) 1
allow-passed_example =
    allow-passed worker calls sample_alert (at_time 12) refl
      ((omega arith, (omega arith, tt)), ((omega arith, tt), (tt, tt)))

-- The state counts the calls: the first two fail.
abbrev world : World
world = record {
  State = ℕ;
  Channel = Text;
  Error = Text;
  notify = λ s channel alert. (s + 1, if ltb s 2 then some (text "refused") else none);
  sleep = λ s delay. (s, true);
  context_error = text "cancelled";
}

abbrev delivery : (ℕ × Acts world) × List Text
delivery =
    notify_all_with_retries (recording world) (0, []) (text "a" ∷ text "b" ∷ []) sample_alert
      (pos 1 ∷ [])

Rounds_example :
    (acts : Acts world) × (delivery.0.1 ≡ [] ++ acts)
    × Rounds world (text "a" ∷ text "b" ∷ []) (pos 1 ∷ []) delivery.1 acts
    × (notify_all_with_retries world 0 (text "a" ∷ text "b" ∷ []) sample_alert (pos 1 ∷ [])
        ≡ (delivery.0.0, delivery.1))
Rounds_example =
    notify_all_with_retries-Rounds world 0 [] (text "a" ∷ text "b" ∷ []) sample_alert (pos 1 ∷ [])

send_example : send_with_retries world 0 (text "a") sample_alert (pos 1 ∷ pos 2 ∷ []) ≡ (
  (notify_with_retries world 0 (text "a") sample_alert (pos 1 ∷ pos 2 ∷ [])).0,
  succeeded world (notify_with_retries world 0 (text "a") sample_alert (pos 1 ∷ pos 2 ∷ [])).1,
)
send_example = send-notify_with_retries world 0 (text "a") sample_alert (pos 1 ∷ pos 2 ∷ [])
