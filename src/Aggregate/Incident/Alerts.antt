-- ===== src/Aggregate/Incident/Alerts.antt =====
-- The alerts of a group over a sequence of its events: their spacing, and the suppressed events.
use congraph_log_watcher.Common.{
  ℕ, ◌+◌, ◌≤◌, ◌<◌, ◌^◌, ◌≡◌, ◌≢◌, subst, ◌⊎◌, inl, inr, true, false, List, [], ◌∷◌, length, All,
  arith, ℤ, Time, Duration, zero_time, is_zero, add, inc64, if◌then◌else◌,
}
use congraph_log_watcher.Entry.{raw_or_message}
use congraph_log_watcher.Aggregate.Incident.{
  Event, Group, Outcome, EventState, track, count_event, decide, add_sample, update_group,
}
use congraph_log_watcher.Aggregate.Incident.History.{event_time}

-- What an event leaves of the cooldown and the suppressed count, whether it raises an alert or not
abbrev Decided : EventState → EventState → Outcome → Duration → Time → Type 0
Decided s s' o cooldown t =
    ((o.alert ≡ true)
      × (s'.last_alert_at ≡ t)
      × (s'.cooldown_until ≡ add t cooldown)
      × (s'.suppressed_count ≡ 0)
      × (o.suppressed ≡ false)
      × (o.suppressed_count ≡ s.suppressed_count)
      × ((is_zero s.last_alert_at ≡ true) ⊎ (s.cooldown_until ≤ t)))
    ⊎ ((o.alert ≡ false)
        × (s'.last_alert_at ≡ s.last_alert_at)
        × (s'.cooldown_until ≡ s.cooldown_until)
        × (s'.suppressed_count
            ≡ (if o.suppressed then inc64 s.suppressed_count else s.suppressed_count)))

decide-Decided :
    (s : EventState) (threshold : ℤ) (cooldown : Duration) (t : Time)
    → Decided s (decide s threshold cooldown t).0 (decide s threshold cooldown t).1 cooldown t
unfolding decide
decide-Decided s threshold cooldown t = ground arith

-- Each time is at least the cooldown after the one before it.
abbrev pub Spaced : Duration → List Time → Type 0
Spaced c [] = Unit
Spaced c (t ∷ []) = Unit
Spaced c (t ∷ (u ∷ ts)) = (add t c ≤ u) × Spaced c (u ∷ ts)

-- The first time is not within the cooldown of the state.
abbrev Open : EventState → List Time → Type 0
Open s [] = Unit
Open s (t ∷ ts) = (is_zero s.last_alert_at ≡ true) ⊎ (s.cooldown_until ≤ t)

Open-same :
    (s s' : EventState) (ts : List Time)
    → s'.last_alert_at ≡ s.last_alert_at
    → s'.cooldown_until ≡ s.cooldown_until
    → Open s' ts
    → Open s ts
Open-same s s' [] p q h = tt
Open-same s s' (t ∷ ts) p q h = ground arith

Spaced-cons :
    (c : Duration) (t : Time) (s : EventState) (ts : List Time)
    → t ≢ zero_time
    → s.last_alert_at ≡ t
    → s.cooldown_until ≡ add t c
    → Open s ts
    → Spaced c ts
    → Spaced c (t ∷ ts)
Spaced-cons c t s [] n p q h k = tt
Spaced-cons c t s (u ∷ ts) n p q h k = (ground arith, k)

Decided-Spaced :
    (s s' : EventState) (o : Outcome) (c : Duration) (t : Time) (rest : List Time)
    → t ≢ zero_time
    → Decided s s' o c t
    → Open s' rest × Spaced c rest
    → let ts = if o.alert then t ∷ rest else rest in Open s ts × Spaced c ts
Decided-Spaced s s' o c t rest n (inl d) (h, k) =
    rw d.0 (d.6, Spaced-cons c t s' rest n d.1 d.2 h k)
Decided-Spaced s s' o c t rest n (inr d) (h, k) = rw d.0 (Open-same s s' rest d.1 d.2 h, k)

module _ {Pattern : Type 0} where
  update_group-Decided :
      (g : Group) (e : Event Pattern × Time) (m : ℕ)
      → Decided g.state
          (update_group g e.0 m e.1).0.state
          (update_group g e.0 m e.1).1
          e.0.rule.cooldown
          (event_time e)
  unfolding update_group count_event track add_sample
  update_group-Decided g (event, now) m =
      let t = event_time (event, now) in
      decide-Decided
        (count_event (track g event.rule.window t) (raw_or_message event.entry) m t now).state
        event.rule.threshold event.rule.cooldown t

  -- The times of the events that raise an alert
  unfoldable pub alert_times : Group → ℕ → List (Event Pattern × Time) → List Time
  alert_times g m [] = []
  alert_times g m (e ∷ es) =
      let (g', o) = update_group g e.0 m e.1 in
      let rest = alert_times g' m es in if o.alert then event_time e ∷ rest else rest

  alert_times-Spaced :
      (g : Group) (m : ℕ) (c : Duration) (es : List (Event Pattern × Time))
      → All (λ e. (e.0.rule.cooldown ≡ c) × (event_time e ≢ zero_time)) es
      → Open g.state (alert_times g m es) × Spaced c (alert_times g m es)
  unfolding alert_times
  alert_times-Spaced g m c [] h = (tt, tt)
  alert_times-Spaced g m c (e ∷ es) h =
      let (g', o) = update_group g e.0 m e.1 in
      Decided-Spaced g.state g'.state o c (event_time e) (alert_times g' m es) h.0.1
        (subst (λ d. Decided g.state g'.state o d (event_time e)) h.0.0
          (update_group-Decided g e m))
        (alert_times-Spaced g' m c es h.1)

  -- For events of one rule (one cooldown), none of which has the zero time, two alerts of one group
  -- are never closer to one another than the cooldown, in event time.
  pub alerts-Spaced :
      (g : Group) (m : ℕ) (c : Duration) (es : List (Event Pattern × Time))
      → All (λ e. (e.0.rule.cooldown ≡ c) × (event_time e ≢ zero_time)) es
      → Spaced c (alert_times g m es)
  alerts-Spaced g m c es h = (alert_times-Spaced g m c es h).1

  -- How many events are suppressed by the cooldown
  unfoldable pub suppressed_total : Group → ℕ → List (Event Pattern × Time) → ℕ
  suppressed_total g m [] = 0
  suppressed_total g m (e ∷ es) =
      let (g', o) = update_group g e.0 m e.1 in
      let rest = suppressed_total g' m es in if o.suppressed then 1 + rest else rest

  -- How many events the alerts report as suppressed before them, with those not yet reported
  unfoldable pub reported_total : Group → ℕ → List (Event Pattern × Time) → ℕ
  reported_total g m [] = g.state.suppressed_count
  reported_total g m (e ∷ es) =
      let (g', o) = update_group g e.0 m e.1 in
      let rest = reported_total g' m es in if o.alert then o.suppressed_count + rest else rest

  -- Every suppressed event is reported once: the counts that the alerts carry and the count at the
  -- end add up to what was pending at the start and the events suppressed since, if the events are
  -- too few for a count to wrap.
  pub reported-suppressed :
      (g : Group) (m : ℕ) (es : List (Event Pattern × Time))
      → g.state.suppressed_count + length es < 2 ^ 64
      → reported_total g m es ≡ g.state.suppressed_count + suppressed_total g m es
  unfolding reported_total suppressed_total
  reported-suppressed g m [] h = omega arith
  reported-suppressed g m (e ∷ es) h =
      ground
        (arith, update_group-Decided g e m, reported-suppressed (update_group g e.0 m e.1).0 m es)
