-- ===== src/Health/History.antt =====
-- What the health remembers of each container.
use congraph_log_watcher.Common.{
  ◌≡◌, refl, ap, ◌∙◌, Bool, true, false, Bool-cases, inl, inr, List, [], ◌∷◌, arith, Option, none,
  some, Text, text_eq, text_eq_iff, Time, Duration, is_zero, lookup, All, lookup-insert,
  lookup-remove, has_text, if◌then◌else◌,
}
use congraph_log_watcher.Health.{
  Health, known, all_detached, new_health, set_attached, is_detached_long, longer_than,
}

-- A call of `Attached`: the container, whether it is attached, and the clock's reading
pub record Change : Type 0 where
  pub name : Text
  pub attached : Bool
  pub now : Time

unfoldable pub apply_all : Health → List Change → Health
unfolding set_attached
apply_all h [] = h
apply_all h (c ∷ cs) = apply_all (set_attached h c.name c.attached c.now) cs

-- A container's own history: `none` while it is attached, and otherwise since when it is not. To be
-- told again that it is detached changes nothing.
abbrev pub change : Option Time → Bool → Time → Option Time
change s true now = none
change none false now = some now
change (some t) false now = some t

abbrev pub status_after : Text → Option Time → List Change → Option Time
status_after name s [] = s
status_after name s (c ∷ cs) =
    if text_eq c.name name
    then status_after name (change s c.attached c.now) cs
    else status_after name s cs

-- What the two maps hold of it
pub record Holds (h : Health) (name : Text) (s : Option Time) : Type 0 where
  pub attached : lookup name h.attached ≡ some (elim s [ none ↦ true | some t ↦ false ])
  pub detached : lookup name h.detached_since ≡ s
  pub not_zero : (t : Time) → s ≡ some t → is_zero t ≡ false

set_attached-Holds :
    (h : Health) (name : Text) (s : Option Time) (n : Text) (b : Bool) (now : Time)
    → Holds h name s
    → is_zero now ≡ false
    → Holds (set_attached h n b now) name (if text_eq n name then change s b now else s)
unfolding set_attached
set_attached-Holds h name none n true now k z = record {
  attached = ground (arith, k.attached, lookup-insert n name true h.attached);
  detached = ground (arith, k.detached, lookup-remove n name h.detached_since);
  not_zero = λ t e. ground (arith, e);
}
set_attached-Holds h name (some s) n true now k z = record {
  attached = ground (arith, k.attached, lookup-insert n name true h.attached);
  detached = ground (arith, k.detached, lookup-remove n name h.detached_since);
  not_zero = λ t e. ground (arith, e, k.not_zero t);
}
set_attached-Holds h name none n false now k z = record {
  attached = ground (arith, k.attached, lookup-insert n name false h.attached);
  detached = ground (
    arith,
    k.attached,
    k.detached,
    text_eq_iff n name,
    lookup-insert n name now h.detached_since,
  );
  not_zero = λ t e. ground (arith, e, z);
}
set_attached-Holds h name (some s) n false now k z = record {
  attached = ground (arith, k.attached, lookup-insert n name false h.attached);
  detached = ground (
    arith,
    k.attached,
    k.detached,
    k.not_zero s refl,
    text_eq_iff n name,
    lookup-insert n name now h.detached_since,
  );
  not_zero = λ t e. ground (arith, e, k.not_zero t);
}

apply_all-Holds :
    (h : Health) (name : Text) (s : Option Time) (cs : List Change)
    → Holds h name s
    → All (λ c. is_zero c.now ≡ false) cs
    → Holds (apply_all h cs) name (status_after name s cs)
unfolding apply_all
apply_all-Holds h name s [] k z = k
apply_all-Holds h name s (c ∷ cs) k z =
    let next = set_attached h c.name c.attached c.now in
    let step = set_attached-Holds h name s c.name c.attached c.now k z.0 in
    elim (Bool-cases (text_eq c.name name)) [
      | inl e ↦ rw e (apply_all-Holds next name (change s c.attached c.now) cs (rw e at step) z.1)
      | inr e ↦ rw e (apply_all-Holds next name s cs (rw e at step) z.1)
    ]

all_detached-Holds :
    (containers : List Text) (now : Time) (name : Text)
    → has_text containers name ≡ true
    → (lookup name (all_detached containers now).0 ≡ some false)
      × (lookup name (all_detached containers now).1 ≡ some now)
unfolding all_detached
all_detached-Holds [] now name h = cc
all_detached-Holds (c ∷ cs) now name h = ground (
  arith,
  lookup-insert c name false (all_detached cs now).0,
  lookup-insert c name now (all_detached cs now).1,
  all_detached-Holds cs now name,
)

-- The test that `ServeHTTP` makes of a container
abbrev pub reported : Health → Time → Text → Bool
reported h t name = is_detached_long h t (name, known h.attached name)

Holds-reported :
    (h : Health) (t : Time) (name : Text) (s : Option Time)
    → Holds h name s
    → reported h t name ≡ elim s [ none ↦ false | some u ↦ longer_than t u h.detached_after ]
unfolding is_detached_long
Holds-reported h t name none k = ground (arith, k.attached)
Holds-reported h t name (some u) k = ground (arith, k.attached, k.detached, k.not_zero u refl)

limit-set_attached :
    (h : Health) (n : Text) (b : Bool) (now : Time)
    → (set_attached h n b now).detached_after ≡ h.detached_after
unfolding set_attached
limit-set_attached h n true now = refl
limit-set_attached h n false now = refl

limit-apply_all :
    (h : Health) (cs : List Change) → (apply_all h cs).detached_after ≡ h.detached_after
unfolding apply_all
limit-apply_all h [] = refl
limit-apply_all h (c ∷ cs) =
    limit-apply_all (set_attached h c.name c.attached c.now) cs
    ∙ limit-set_attached h c.name c.attached c.now

-- Whatever was reported of the containers, in any order, `ServeHTTP` counts one of them as detached for
-- too long exactly if its own latest reports say so: it is detached, since the first report that it
-- was after the last that it was attached, or since the start, and for longer than the limit.
pub reported-apply_all :
    (containers : List Text) (docker_after detached_after : Duration) (start t : Time) (name : Text)
    (cs : List Change)
    → has_text containers name ≡ true
    → is_zero start ≡ false
    → All (λ c. is_zero c.now ≡ false) cs
    → reported (apply_all (new_health containers docker_after detached_after start) cs) t name
      ≡ elim (status_after name (some start) cs) [
        | none ↦ false
        | some u ↦ longer_than t u detached_after
      ]
unfolding new_health
reported-apply_all containers docker_after detached_after start t name cs m z zs =
    let h = new_health containers docker_after detached_after start in
    let (a, d) = all_detached-Holds containers start name m in
    let s = status_after name (some start) cs in
    let first : Holds h name (some start) = record {
      attached = a;
      detached = d;
      not_zero = λ u e. ground (arith, e, z);
    } in
    Holds-reported (apply_all h cs) t name s (apply_all-Holds h name (some start) cs first zs)
    ∙ ap (λ limit. elim s [ none ↦ false | some u ↦ longer_than t u limit ]) (limit-apply_all h cs)
