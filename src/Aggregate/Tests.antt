-- ===== src/Aggregate/Tests.antt =====
-- The aggregator's theorems at concrete events, and runs of its operations.
use congraph_log_watcher.Common.{
  ◌≡◌, refl, true, false, List, [], ◌∷◌, Text, text, Time, zero_time, pos, arith, lookup, insert,
  ◌≤◌, ◌<◌, ◌+◌, ℕ, suc, leb,
}
use congraph_log_watcher.Samples.{at_time, sample_event}
use congraph_log_watcher.Aggregate.{Aggregator, new, record_event, evict_expired, evict_for_insert}
use congraph_log_watcher.Aggregate.Incident.{
  Event, Outcome, Group, new_group, update_group, search_index, decide, count_event, track,
}
use congraph_log_watcher.Aggregate.Incident.Search.{search_index_lem}
use congraph_log_watcher.Aggregate.Incident.History.{window_count-history, update_all}
use congraph_log_watcher.Aggregate.Incident.Alerts.{
  alerts-Spaced, alert_times, Spaced, reported-suppressed, reported_total, suppressed_total,
}
use congraph_log_watcher.Aggregate.Invariant.{IsValid, new-IsValid, record_event-IsValid}

abbrev events : List (Event Text × Time)
events =
    (sample_event 1, at_time 50)
    ∷ (sample_event 30, at_time 51)
    ∷ (sample_event 25, at_time 52)
    ∷ (sample_event 31, at_time 53)
    ∷ (sample_event 60, at_time 54)
    ∷ []

-- Of the events at 1, 30, 25, 31 and 60 one lies in the window of 10 that ends at 60.
window_count-history_example : (update_all (new_group (text "f")) 3 events).state.window_count ≡ 1
unfolding zero_time
window_count-history_example =
    window_count-history (text "f") 3 (pos 10) events (refl, (refl, (refl, (refl, (refl, tt)))))

-- The events at 2 and 60 raise an alert each, that at 5 is suppressed.
abbrev bursts : List (Event Text × Time)
bursts =
    (sample_event 1, at_time 50)
    ∷ (sample_event 2, at_time 51)
    ∷ (sample_event 5, at_time 52)
    ∷ (sample_event 59, at_time 53)
    ∷ (sample_event 60, at_time 54)
    ∷ []

alert_times-bursts : alert_times (new_group (text "f")) 3 bursts ≡ at_time 2 ∷ at_time 60 ∷ []
unfolding alert_times update_group new_group decide count_event track zero_time
alert_times-bursts = refl

alerts-Spaced_example : Spaced (pos 20) (alert_times (new_group (text "f")) 3 bursts)
unfolding zero_time
alerts-Spaced_example = alerts-Spaced (new_group (text "f")) 3 (pos 20) bursts (
  (refl, omega arith),
  ((refl, omega arith), ((refl, omega arith), ((refl, omega arith), ((refl, omega arith), tt)))),
)

reported-suppressed_example :
    reported_total (new_group (text "f")) 3 events
    ≡ (new_group (text "f")).state.suppressed_count
      + suppressed_total (new_group (text "f")) 3 events
unfolding new_group
reported-suppressed_example = reported-suppressed (new_group (text "f")) 3 events (omega arith)

abbrev times : List Time
times = 3 ∷ 5 ∷ 5 ∷ 8 ∷ []

search_index_example :
    (search_index 4 (λ i. leb 2 i) ≤ 4)
    × ((p : ℕ) → search_index 4 (λ i. leb 2 i) ≡ suc p → leb 2 p ≡ false)
    × (search_index 4 (λ i. leb 2 i) < 4 → leb 2 (search_index 4 (λ i. leb 2 i)) ≡ true)
search_index_example = search_index_lem 4 (λ i. leb 2 i)

abbrev group_at : ℕ → Group
unfolding new_group
group_at n = record (new_group (text "g")) { updated_at = n }

abbrev groups_one : List (Text × Group)
groups_one = (text "b", group_at 7) ∷ (text "a", group_at 7) ∷ (text "c", group_at 9) ∷ []

abbrev groups_two : List (Text × Group)
groups_two = (text "c", group_at 9) ∷ (text "a", group_at 7) ∷ (text "b", group_at 7) ∷ []

abbrev one_group : Aggregator
one_group = record { max_groups = 1; group_ttl = pos 100; max_samples = 2; groups = [] }

abbrev recorded : Group × Outcome
recorded = update_group (new_group (text "f")) (sample_event 5) 2 (at_time 9)

record_event_example : IsValid (record one_group { groups = (text "f", recorded.0) ∷ [] })
unfolding new record_event evict_expired evict_for_insert lookup insert new_group
record_event_example =
    record_event-IsValid one_group (sample_event 5) (at_time 9)
      {b = record one_group { groups = (text "f", recorded.0) ∷ [] }} {o = recorded.1}
      (new-IsValid (record { max_groups = pos 1; group_ttl = pos 100; max_samples = pos 2 }) refl)
      refl
