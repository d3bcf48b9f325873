-- ===== src/Aggregate/Invariant.antt =====
-- The aggregator stays within its bounds, whatever it is given.
use congraph_log_watcher.Common.{
  ℕ, ◌≤◌, ◌<◌, ◌≡◌, refl, sym, ap, subst, ◌⊎◌, inl, inr, false, List, [], ◌∷◌, length, All, arith,
  Option, none, some, Text, is_empty, Time, Duration, ℤ, add, sub, zero_time, before, lookup,
  insert, Distinct, All-keep, All-insert, All-remove, All-lookup, In, text_eq, text_eq_refl, ltb→ge,
  Distinct-keep, Distinct-insert, Distinct-remove, length-keep, length-insert-some,
  length-insert_le, length-remove-some, ok, if◌then◌else◌, ltb, Bool-cases, ltb→lt, length-append,
}
use congraph_log_watcher.Entry.{raw_or_message}
use congraph_log_watcher.Aggregate.{
  Aggregator, Config, new, evict_expired, evict_for_insert, oldest_from, record_event, make_room,
  group_or_new,
}
use congraph_log_watcher.Aggregate.Incident.{
  Event, EventState, Group, Outcome, track, count_event, decide, add_sample, update_group,
  new_group, discard_before, insert_timestamp,
}
use congraph_log_watcher.Aggregate.Incident.Window.{
  IsSorted, is_recent, discard_before_lem, insert_timestamp_lem, insert_sorted-IsSorted,
  keep-IsSorted,
}
use congraph_log_watcher.Aggregate.Incident.History.{update_group-track, event_time}
use congraph_log_watcher.Aggregate.Evict.{oldest_from_lem}

-- A group under its key: its timestamps are in order and counted, and it keeps few samples.
pub record IsGroup (max_samples : ℕ) (entry : Text × Group) : Type 0 where
  pub named : is_empty entry.0 ≡ false
  pub sorted : IsSorted entry.1.timestamps
  pub counted : entry.1.state.window_count ≡ length entry.1.timestamps
  pub few : length entry.1.state.samples ≤ max_samples

pub record IsValid (a : Aggregator) : Type 0 where
  pub positive : 0 < a.max_groups
  pub bounded : length a.groups ≤ a.max_groups
  pub distinct : Distinct a.groups
  pub each : All (IsGroup a.max_samples) a.groups

new_inv : (c : Config) {a : Aggregator} → new c ≡ ok a → (a.groups ≡ []) × (0 < a.max_groups)
unfolding new
new_inv c h = ground arith

-- A new aggregator is valid.
pub new-IsValid : (c : Config) {a : Aggregator} → new c ≡ ok a → IsValid a
new-IsValid c {a} h =
    let e = new_inv c h in
    record {
      positive = e.1;
      bounded = omega (arith, ap length e.0);
      distinct = subst Distinct (sym e.0) tt;
      each = subst (All (IsGroup a.max_samples)) (sym e.0) tt;
    }

evict_expired-IsValid : (a : Aggregator) (now : Time) → IsValid a → IsValid (evict_expired a now)
unfolding evict_expired
evict_expired-IsValid a now v =
    let live = λ (g : Text × Group). before now (add g.1.updated_at a.group_ttl) in
    record {
      positive = v.positive;
      bounded = omega (arith, length-keep live a.groups);
      distinct = Distinct-keep live a.groups v.distinct;
      each = All-keep (IsGroup a.max_samples) live a.groups v.each;
    }

samples-decide :
    (s : EventState) (threshold : ℤ) (cooldown : Duration) (t : Time)
    → (decide s threshold cooldown t).0.samples ≡ s.samples
unfolding decide
samples-decide s threshold cooldown t = ground arith

track-IsSorted :
    (g : Group) (w : Duration) (t : Time)
    → IsSorted g.timestamps
    → IsSorted (track g w t).timestamps
unfolding track
track-IsSorted g w t s =
    let d = sub (if before g.watermark t then t else g.watermark) w in
    let kept : IsSorted (discard_before g.timestamps d) =
      subst IsSorted (sym (discard_before_lem g.timestamps d s))
        (keep-IsSorted (is_recent d) g.timestamps s) in
    let more : IsSorted (insert_timestamp (discard_before g.timestamps d) t) =
      subst IsSorted (sym (insert_timestamp_lem (discard_before g.timestamps d) t kept))
        (insert_sorted-IsSorted t (discard_before g.timestamps d) kept) in
    elim (Bool-cases (before t d)) [ inl e ↦ rw e kept | inr e ↦ rw e more ]

count_event_few :
    (g : Group) (sample : Text) (m : ℕ) (t now : Time)
    → length g.state.samples ≤ m
    → length (count_event g sample m t now).state.samples ≤ m
unfolding count_event add_sample
count_event_few g sample m t now h = ground (arith, length-append g.state.samples (sample ∷ []))

samples-track :
    (g : Group) (w : Duration) (t : Time) → (track g w t).state.samples ≡ g.state.samples
unfolding track
samples-track g w t = refl

new_group-IsGroup : (m : ℕ) (k : Text) → is_empty k ≡ false → IsGroup m (k, new_group k)
unfolding new_group
new_group-IsGroup m k h = record { named = h; sorted = tt; counted = refl; few = omega arith }

In-lookup :
    (k : Text) (g : Group) (m : List (Text × Group))
    → In (k, g) m
    → (h : Group) × (lookup k m ≡ some h)
unfolding lookup
In-lookup k g [] i = absurd i
In-lookup k g ((j, h) ∷ m) (inl e) = (h, rw (ap (λ (p : Text × Group). p.0) e, text_eq_refl j) refl)
In-lookup k g ((j, h) ∷ m) (inr i) = elim (Bool-cases (text_eq j k)) [
  | inl e ↦ (h, rw e refl)
  | inr e ↦ let (h', p) = In-lookup k g m i in (h', rw (e, p) refl)
]

All-named :
    (m : ℕ) (gs : List (Text × Group)) → All (IsGroup m) gs → All (λ g. is_empty g.0 ≡ false) gs
All-named m [] h = tt
All-named m (g ∷ gs) h = (h.0.named, All-named m gs h.1)

-- Eviction makes room.
evict_for_insert-IsValid :
    (a : Aggregator)
    → IsValid a
    → IsValid (evict_for_insert a)
      × (length (evict_for_insert a).groups < a.max_groups)
      × ((evict_for_insert a).max_groups ≡ a.max_groups)
      × ((evict_for_insert a).max_samples ≡ a.max_samples)
unfolding evict_for_insert
evict_for_insert-IsValid a v = elim (Bool-cases (ltb (length a.groups) a.max_groups)) [
  | inl e ↦ rw e (v, ltb→lt _ _ e, refl, refl)
  | inr e ↦
      let full : a.max_groups ≤ length a.groups = ltb→ge _ _ e in
      let k = oldest_from [] zero_time a.groups in
      let (g, at, _) =
        oldest_from_lem a.groups (λ z. absurd (omega (arith, ap length z, v.positive)))
          (All-named a.max_samples a.groups v.each) in
      let (h, p) = In-lookup k g a.groups at in
      let less = length-remove-some k h a.groups p in
      rw e (
        record {
          positive = v.positive;
          bounded = omega (arith, less, v.bounded);
          distinct = Distinct-remove k a.groups v.distinct;
          each = All-remove (IsGroup a.max_samples) k a.groups v.each;
        },
        omega (arith, less, v.bounded),
        refl,
        refl,
      )
]

-- A group stored where there is room, or in place of one of its key
insert-IsValid :
    (a : Aggregator) (k : Text) (g : Group)
    → IsValid a
    → (length a.groups < a.max_groups) ⊎ ((h : Group) × (lookup k a.groups ≡ some h))
    → IsGroup a.max_samples (k, g)
    → IsValid (record a { groups = insert k g a.groups })
insert-IsValid a k g v fits ok' = record {
  positive = v.positive;
  bounded = size fits;
  distinct = Distinct-insert k g a.groups v.distinct;
  each = All-insert (IsGroup a.max_samples) k g a.groups ok' v.each;
}
  where
    size :
        (length a.groups < a.max_groups) ⊎ ((h : Group) × (lookup k a.groups ≡ some h))
        → length (insert k g a.groups) ≤ a.max_groups
    size (inl room) = omega (arith, length-insert_le k g a.groups)
    size (inr (h, p)) = omega (arith, length-insert-some k g h a.groups p, v.bounded)

module _ {Pattern : Type 0} where
  update_group_few :
      (g : Group) (e : Event Pattern) (m : ℕ) (now : Time)
      → length g.state.samples ≤ m
      → length (update_group g e m now).0.state.samples ≤ m
  unfolding update_group
  update_group_few g e m now h =
      let t = event_time (e, now) in
      let k = track g e.rule.window t in
      omega (
        arith,
        ap length (
            samples-decide (count_event k (raw_or_message e.entry) m t now).state e.rule.threshold
              e.rule.cooldown t),
        count_event_few k (raw_or_message e.entry) m t now
            (omega (arith, ap length (samples-track g e.rule.window t))),
      )

  update_group-IsGroup :
      (k : Text) (g : Group) (e : Event Pattern) (m : ℕ) (now : Time)
      → IsGroup m (k, g)
      → IsGroup m (k, (update_group g e m now).0)
  update_group-IsGroup k g e m now v = record {
    named = v.named;
    sorted =
        subst IsSorted (sym (update_group-track g (e, now) m).0)
          (track-IsSorted g e.rule.window (event_time (e, now)) v.sorted);
    counted = (update_group-track g (e, now) m).2;
    few = update_group_few g e m now v.few;
  }

  record_event_inv :
      (a : Aggregator) (e : Event Pattern) (now : Time) {b : Aggregator} {o : Outcome}
      → record_event a e now ≡ ok (b, o)
      → let fresh = evict_expired a now in
        let found = lookup e.fingerprint fresh.groups in
        let roomy = make_room found fresh in
        (is_empty e.fingerprint ≡ false)
        × (b ≡ record roomy {
          groups =
              insert e.fingerprint
                (update_group (group_or_new found e.fingerprint) e a.max_samples now).0
                roomy.groups;
        })
  unfolding record_event
  record_event_inv a e now h = ground arith

  -- The groups that the event's group is stored in
  roomy_lem :
      (a : Aggregator) (e : Event Pattern) (found : Option Group)
      → IsValid a
      → is_empty e.fingerprint ≡ false
      → lookup e.fingerprint a.groups ≡ found
      → let roomy = make_room found a in
        IsValid roomy
        × (roomy.max_samples ≡ a.max_samples)
        × ((length roomy.groups < roomy.max_groups)
            ⊎ ((h : Group) × (lookup e.fingerprint roomy.groups ≡ some h)))
        × IsGroup a.max_samples (e.fingerprint, group_or_new found e.fingerprint)
  roomy_lem a e none v n p =
      let (valid, room, same, same') = evict_for_insert-IsValid a v in
      (
        valid,
        same',
        inl (omega (arith, room, same)),
        new_group-IsGroup a.max_samples e.fingerprint n,
      )
  roomy_lem a e (some g) v n p =
      (v, refl, inr (g, p), All-lookup (IsGroup a.max_samples) e.fingerprint g a.groups p v.each)

  -- What `Record` leaves is valid: the groups are never more than the maximum, each under a key of
  -- its own that is not empty, with its timestamps in order, its window count that of them, and no
  -- more samples than the maximum.
  pub record_event-IsValid :
      (a : Aggregator) (e : Event Pattern) (now : Time) {b : Aggregator} {o : Outcome}
      → IsValid a
      → record_event a e now ≡ ok (b, o)
      → IsValid b
  unfolding evict_expired
  record_event-IsValid a e now v h =
      let fresh = evict_expired a now in
      let found = lookup e.fingerprint fresh.groups in
      let (named, stored) = record_event_inv a e now h in
      let (valid, same, fits, group) =
        roomy_lem fresh e found (evict_expired-IsValid a now v) named refl in
      let g = (update_group (group_or_new found e.fingerprint) e a.max_samples now).0 in
      subst IsValid (sym stored) (
        insert-IsValid (make_room found fresh) e.fingerprint g valid fits (
          subst (λ m. IsGroup m (e.fingerprint, g)) (sym same)
            (update_group-IsGroup e.fingerprint (group_or_new found e.fingerprint) e a.max_samples
              now group)))
