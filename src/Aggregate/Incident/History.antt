-- ===== src/Aggregate/Incident/History.antt =====
-- The window of a group against the history of its events.
use congraph_log_watcher.Common.{
  ℕ, ◌+◌, ◌≤◌, ◌≡◌, refl, sym, ap, ◌∙◌, Bool, not, List, [], ◌∷◌, length, keep, map, max, All,
  arith, ℤ, pos, negsuc, Time, Duration, zero_time, is_zero, before, sub, if◌then◌else◌, Text,
}
use congraph_log_watcher.Entry.{raw_or_message}
use congraph_log_watcher.Aggregate.Incident.{
  Event, Group, EventState, track, count_event, decide, add_sample, discard_before,
  insert_timestamp, update_group, new_group,
}
use congraph_log_watcher.Aggregate.Incident.Window.{
  IsSorted, is_recent, insert_sorted, discard_before_lem, insert_timestamp_lem,
  insert_sorted-IsSorted, keep-IsSorted,
}

keep-keep :
    (c d : Time) (xs : List Time)
    → c ≤ d
    → keep (is_recent d) (keep (is_recent c) xs) ≡ keep (is_recent d) xs
keep-keep c d [] h = refl
keep-keep c d (x ∷ xs) h = ground (arith, keep-keep c d xs)

keep-insert_sorted :
    (c t : Time) (xs : List Time)
    → keep (is_recent c) (insert_sorted t xs)
      ≡ (if is_recent c t then insert_sorted t (keep (is_recent c) xs) else keep (is_recent c) xs)
keep-insert_sorted c t [] = refl
keep-insert_sorted c t (x ∷ xs) = ground (arith, keep-insert_sorted c t xs)

length-keep-insert_sorted :
    (p : Time → Bool) (t : Time) (xs : List Time)
    → length (keep p (insert_sorted t xs)) ≡ length (keep p (t ∷ xs))
length-keep-insert_sorted p t [] = refl
length-keep-insert_sorted p t (x ∷ xs) = ground (arith, length-keep-insert_sorted p t xs)

sub_mono : (a b : Time) (w : Duration) → a ≤ b → sub a w ≤ sub b w
sub_mono a b (pos n) h = omega arith
sub_mono a b (negsuc n) h = omega arith

-- The latest of a time and those of a list
abbrev pub latest : Time → List Time → Time
latest t [] = t
latest t (u ∷ us) = latest (max t u) us

-- A group whose timestamps are those of `seen` that its watermark leaves in the window
abbrev Holds : Group → Duration → List Time → Type 0
Holds g w seen = IsSorted seen × (g.timestamps ≡ keep (is_recent (sub g.watermark w)) seen)

watermark-track :
    (g : Group) (w : Duration) (t : Time) → (track g w t).watermark ≡ max g.watermark t
unfolding track
watermark-track g w t = ground arith

-- One event, at a cutoff that is no earlier
move_cutoff :
    (ts seen : List Time) (t c d : Time)
    → IsSorted seen
    → ts ≡ keep (is_recent c) seen
    → c ≤ d
    → (if not (before t d) then insert_timestamp (discard_before ts d) t else discard_before ts d)
      ≡ keep (is_recent d) (insert_sorted t seen)
move_cutoff ts seen t c d s e h =
    let kept : discard_before ts d ≡ keep (is_recent d) seen =
      ap (λ l. discard_before l d) e
      ∙ discard_before_lem (keep (is_recent c) seen) d (keep-IsSorted (is_recent c) seen s)
      ∙ keep-keep c d seen h in
    ap (λ l. if not (before t d) then insert_timestamp l t else l) kept
    ∙ ap (λ l. if not (before t d) then l else keep (is_recent d) seen)
        (insert_timestamp_lem (keep (is_recent d) seen) t (keep-IsSorted (is_recent d) seen s))
    ∙ sym (keep-insert_sorted d t seen)

track-Holds :
    (g : Group) (w : Duration) (t : Time) (seen : List Time)
    → Holds g w seen
    → Holds (track g w t) w (insert_sorted t seen)
unfolding track
track-Holds g w t seen (s, e) = (
  insert_sorted-IsSorted t seen s,
  move_cutoff g.timestamps seen t (sub g.watermark w) (sub (track g w t).watermark w) s e
      (sub_mono g.watermark (track g w t).watermark w (omega (arith, watermark-track g w t))),
)

count_event_lem :
    (g : Group) (sample : Text) (m : ℕ) (t now : Time)
    → ((count_event g sample m t now).timestamps ≡ g.timestamps)
      × ((count_event g sample m t now).watermark ≡ g.watermark)
      × ((count_event g sample m t now).state.window_count ≡ length g.timestamps)
unfolding count_event add_sample
count_event_lem g sample m t now = (refl, refl, refl)

pub window_count-decide :
    (s : EventState) (threshold : ℤ) (cooldown : Duration) (t : Time)
    → (decide s threshold cooldown t).0.window_count ≡ s.window_count
unfolding decide
window_count-decide s threshold cooldown t = ground arith

-- Times inserted in order, one after the other
abbrev sorted_from : List Time → List Time → List Time
sorted_from acc [] = acc
sorted_from acc (t ∷ ts) = sorted_from (insert_sorted t acc) ts

length-keep-sorted_from :
    (p : Time → Bool) (acc ts : List Time)
    → length (keep p (sorted_from acc ts)) ≡ length (keep p acc) + length (keep p ts)
length-keep-sorted_from p acc [] = omega arith
length-keep-sorted_from p acc (t ∷ ts) =
    ground
      (arith, length-keep-sorted_from p (insert_sorted t acc) ts, length-keep-insert_sorted p t acc)

module _ {Pattern : Type 0} where
  -- `Record`: an entry with no timestamp counts as of now.
  abbrev pub event_time : Event Pattern × Time → Time
  event_time (event, now) = if is_zero event.entry.timestamp then now else event.entry.timestamp

  -- The group of a fingerprint after a sequence of its events, each with the clock's reading
  unfoldable pub update_all : Group → ℕ → List (Event Pattern × Time) → Group
  update_all g max_samples [] = g
  update_all g max_samples (e ∷ es) =
      update_all (update_group g e.0 max_samples e.1).0 max_samples es

  pub update_group-track :
      (g : Group) (e : Event Pattern × Time) (m : ℕ)
      → let h = (update_group g e.0 m e.1).0 in
        let k = track g e.0.rule.window (event_time e) in
        (h.timestamps ≡ k.timestamps)
        × (h.watermark ≡ k.watermark)
        × (h.state.window_count ≡ length h.timestamps)
  unfolding update_group
  update_group-track g (event, now) m =
      let t = event_time (event, now) in
      let k = track g event.rule.window t in
      let (ts, wm, count) = count_event_lem k (raw_or_message event.entry) m t now in
      (
        ts,
        wm,
        window_count-decide (count_event k (raw_or_message event.entry) m t now).state
              event.rule.threshold event.rule.cooldown t
            ∙ count
            ∙ sym (ap length ts),
      )

  update_group-Holds :
      (g : Group) (m : ℕ) (w : Duration) (seen : List Time) (e : Event Pattern × Time)
      → e.0.rule.window ≡ w
      → Holds g w seen
      → Holds (update_group g e.0 m e.1).0 w (insert_sorted (event_time e) seen)
        × ((update_group g e.0 m e.1).0.watermark ≡ max g.watermark (event_time e))
  update_group-Holds g m w seen e h k =
      let t = event_time e in
      let (ts, wm, count) = update_group-track g e m in
      let (sorted, held) = track-Holds g w t seen k in
      let wm' = wm ∙ ap (λ v. (track g v t).watermark) h in
      (
        (
          sorted,
          ts
              ∙ ap (λ v. (track g v t).timestamps) h
              ∙ held
              ∙ ap (λ x. keep (is_recent (sub x w)) (insert_sorted t seen)) (sym wm'),
        ),
        wm' ∙ watermark-track g w t,
      )

  update_all-Holds :
      (g : Group) (m : ℕ) (w : Duration) (seen : List Time) (es : List (Event Pattern × Time))
      → All (λ e. e.0.rule.window ≡ w) es
      → Holds g w seen
      → g.state.window_count ≡ length g.timestamps
      → Holds (update_all g m es) w (sorted_from seen (map event_time es))
        × ((update_all g m es).watermark ≡ latest g.watermark (map event_time es))
        × ((update_all g m es).state.window_count ≡ length (update_all g m es).timestamps)
  unfolding update_all
  update_all-Holds g m w seen [] h k c = (k, refl, c)
  update_all-Holds g m w seen (e ∷ es) h k c =
      let (held, wm) = update_group-Holds g m w seen e h.0 k in
      let g' = (update_group g e.0 m e.1).0 in
      let (held', wm', c') =
        update_all-Holds g' m w (insert_sorted (event_time e) seen) es h.1 held
          (update_group-track g e m).2 in
      (held', wm' ∙ ap (λ x. latest x (map event_time es)) wm, c')

  -- In a group, for events of one rule (one window), the window count after any sequence of events
  -- is the number of them, in whatever order they came, that lie at most the window before the
  -- latest of them (or before the zero time, where all of them are earlier).
  pub window_count-history :
      (fingerprint : Text) (m : ℕ) (w : Duration) (es : List (Event Pattern × Time))
      → All (λ e. e.0.rule.window ≡ w) es
      → let times = map event_time es in
        (update_all (new_group fingerprint) m es).state.window_count
        ≡ length (keep (is_recent (sub (latest zero_time times) w)) times)
  unfolding new_group
  window_count-history fingerprint m w es h =
      let (held, wm, count) =
        update_all-Holds (new_group fingerprint) m w [] es h (tt, refl) refl in
      let cut = λ (x : Time). is_recent (sub x w) in
      count
      ∙ ap length held.1
      ∙ ap (λ x. length (keep (cut x) (sorted_from [] (map event_time es)))) wm
      ∙ length-keep-sorted_from (cut (latest zero_time (map event_time es))) [] (map event_time es)
      ∙ omega arith
