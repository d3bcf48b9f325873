-- ===== src/Aggregate/Incident.antt =====
-- internal/aggregate/aggregate.go: one incident group and what an event does to it.
pub mod Search
pub mod Window
pub mod History
pub mod Alerts
use congraph_log_watcher.Common.{
  ℕ, zero, suc, ◌+◌, ◌/◌, ◌==◌, ltb, leb, Bool, true, false, not, ◌&&◌, ◌||◌, List, [], ◌∷◌, ◌++◌,
  length, get_or, take, drop, keep, Option, none, some, Text, text_eq, text_lt, has_text, is_empty,
  ℤ, pos, lebℤ, is_nonpositive, is_negative, pos_part, Time, Duration, zero_time, is_zero, before,
  add, sub, inc64, lookup, insert, remove, Result, ok, err, if◌then◌else◌,
}
use congraph_log_watcher.Entry.{LogEntry, raw_or_message}
use congraph_log_watcher.Rule.{Rule}

pub record Event (Pattern : Type 0) : Type 0 where
  pub rule : Rule Pattern
  pub fingerprint : Text
  pub entry : LogEntry

-- `total_count` and `suppressed_count` are the 64 bits of an int.
pub record EventState : Type 0 where
  pub fingerprint : Text
  pub first_seen : Time
  pub last_seen : Time
  pub window_count : ℕ
  pub total_count : ℕ
  pub last_alert_at : Time
  pub cooldown_until : Time
  pub suppressed_count : ℕ
  pub first_sample : Text
  pub latest_sample : Text
  pub samples : List Text

-- `Result`
pub record Outcome : Type 0 where
  pub alert : Bool
  pub suppressed : Bool
  pub suppressed_count : ℕ
  pub state : EventState

pub record Group : Type 0 where
  pub state : EventState
  pub timestamps : List Time
  pub watermark : Time
  pub updated_at : Time

-- The loop of `sort.Search`: the fuel bounds the rounds, of which each halves `j - i`.
unfoldable pub search_between : ℕ → (ℕ → Bool) → ℕ → ℕ → ℕ
search_between zero test i j = i
search_between (suc fuel) test i j =
    let h = (i + j) / 2 in
    elim (ltb i j) [
      | true ↦ elim (test h) [
        | true ↦ search_between fuel test i h
        | false ↦ search_between fuel test (h + 1) j
      ]
      | false ↦ i
    ]

-- `sort.Search(n, test)`
unfoldable pub search_index : ℕ → (ℕ → Bool) → ℕ
unfolding search_between
search_index n test = search_between n test 0 n

unfoldable pub discard_before : List Time → Time → List Time
unfolding search_index
discard_before values cutoff =
    drop (search_index (length values) (λ i. not (before (get_or values i zero_time) cutoff)))
      values

unfoldable pub insert_timestamp : List Time → Time → List Time
unfolding search_index
insert_timestamp values value =
    let i = search_index (length values) (λ k. before value (get_or values k zero_time)) in
    take i values ++ value ∷ drop i values

unfoldable pub add_sample : EventState → Text → ℕ → EventState
add_sample s value max = record s {
  first_sample = if is_empty s.first_sample then value else s.first_sample;
  latest_sample = value;
  samples =
      if has_text s.samples value
      then s.samples
      else if ltb (length s.samples) max
      then s.samples ++ value ∷ []
      else s.samples;
}

unfoldable pub new_group : Text → Group
new_group fingerprint = record {
  state = record {
    fingerprint = fingerprint;
    first_seen = zero_time;
    last_seen = zero_time;
    window_count = 0;
    total_count = 0;
    last_alert_at = zero_time;
    cooldown_until = zero_time;
    suppressed_count = 0;
    first_sample = [];
    latest_sample = [];
    samples = [];
  };
  timestamps = [];
  watermark = zero_time;
  updated_at = zero_time;
}

-- `Record`, the window: the watermark, and the timestamps that it leaves in the window.
unfoldable pub track : Group → Duration → Time → Group
unfolding discard_before insert_timestamp
track g window event_time =
    let watermark = if before g.watermark event_time then event_time else g.watermark in
    let cutoff = sub watermark window in
    let kept = discard_before g.timestamps cutoff in
    record g {
      watermark = watermark;
      timestamps =
          if not (before event_time cutoff) then insert_timestamp kept event_time else kept;
    }

-- `Record`, the counts and samples
unfoldable pub count_event : Group → Text → ℕ → Time → Time → Group
unfolding add_sample
count_event g sample max_samples event_time now =
    let s = g.state in
    let counted = record s {
      first_seen =
          if is_zero s.first_seen || before event_time s.first_seen
          then event_time
          else s.first_seen;
      last_seen =
          if is_zero s.last_seen || before s.last_seen event_time then event_time else s.last_seen;
      total_count = inc64 s.total_count;
      window_count = length g.timestamps;
    } in
    record g { state = add_sample counted sample max_samples; updated_at = now }

-- `raise`
unfoldable pub raise : EventState → Time → Duration → EventState × Outcome
raise s at cooldown =
    let raised = record s {
      last_alert_at = at;
      cooldown_until = add at cooldown;
      suppressed_count = 0;
    } in
    (
      raised,
      record {
        alert = true;
        suppressed = false;
        suppressed_count = s.suppressed_count;
        state = raised;
      },
    )

abbrev quiet : Bool → EventState → EventState × Outcome
quiet suppressed s =
    (s, record { alert = false; suppressed = suppressed; suppressed_count = 0; state = s })

-- `Record`, whether to alert
unfoldable pub decide : EventState → ℤ → Duration → Time → EventState × Outcome
unfolding raise
decide s threshold cooldown event_time =
    if is_zero s.last_alert_at
    then if lebℤ threshold (pos s.window_count) then raise s event_time cooldown else quiet false s
    else if before event_time s.cooldown_until
    then quiet true (record s { suppressed_count = inc64 s.suppressed_count })
    else if lebℤ threshold (pos s.window_count)
    then raise s event_time cooldown
    else quiet false s

module _ {Pattern : Type 0} where
  -- `Record` on the event's group
  unfoldable pub update_group : Group → Event Pattern → ℕ → Time → Group × Outcome
  update_group g event max_samples now =
      let r = event.rule in
      let event_time = if is_zero event.entry.timestamp then now else event.entry.timestamp in
      let g' =
        count_event (track g r.window event_time) (raw_or_message event.entry) max_samples
          event_time now in
      let (state, outcome) = decide g'.state r.threshold r.cooldown event_time in
      (record g' { state = state }, outcome)
