-- ===== src/Docker/Rounds/Events.antt =====
-- Which containers the events of Docker wake.
use congraph_log_watcher.Common.{
  ◌≡◌, refl, ap, ◌∙◌, Bool, true, false, ◌&&◌, ◌||◌, List, [], ◌∷◌, any, arith, Option,
  Option-cases, inl, inr, none, some, Text, text_eq, text_eq_iff, lookup, lookup-insert, Strings,
  if◌then◌else◌,
}
use congraph_log_watcher.Docker.{Event, is_lifecycle_action, normalize_name, wake}
use congraph_log_watcher.Docker.Rounds.{
  Selected, context_is_done, events_closed, errors_closed, an_error, an_event, on_event,
  watch_inner,
}

-- The events that the inner loop of `watchEvents` takes
abbrev pub taken : Bool → Bool → List Selected → List Event
taken events errors [] = []
taken events errors (context_is_done ∷ rest) = []
taken events errors (events_closed ∷ rest) =
    let more = taken false errors rest in if events || errors then more else []
taken events errors (errors_closed ∷ rest) =
    let more = taken events false rest in if events || errors then more else []
taken events errors (an_error ∷ rest) =
    let more = taken events errors rest in if events || errors then more else []
taken events errors (an_event e ∷ rest) =
    let more = taken events errors rest in if events then e ∷ more else if errors then more else []

module _ (strings : Strings) where
  -- The event is one of a container's life, under this name.
  abbrev pub names : Text → Event → Bool
  names n e = is_lifecycle_action e.action && text_eq (normalize_name strings e.name) n

  abbrev pub woken_by : Text → List Event → Option Bool → Option Bool
  woken_by n es none = none
  woken_by n es (some full) = some (full || any (names n) es)

  lookup-on_event :
      (n : Text) (wakes : List (Text × Bool)) (e : Event)
      → lookup n (on_event strings wakes e) ≡ woken_by n (e ∷ []) (lookup n wakes)
  unfolding wake
  lookup-on_event n wakes e =
      let m = normalize_name strings e.name in
      elim (Option-cases (lookup m wakes)) [
        | inl k ↦ elim (Option-cases (lookup n wakes)) [
          | inl j ↦ ground (arith, k, j)
          | inr (full, j) ↦ ground (arith, k, j, text_eq_iff m n)
        ]
        | inr (full, k) ↦ elim (Option-cases (lookup n wakes)) [
          | inl j ↦ ground (arith, k, j, text_eq_iff m n, lookup-insert m n true wakes)
          | inr (other, j) ↦ ground (arith, k, j, text_eq_iff m n, lookup-insert m n true wakes)
        ]
      ]

  woken_by-cons :
      (n : Text) (e : Event) (es : List Event) (o : Option Bool)
      → woken_by n es (woken_by n (e ∷ []) o) ≡ woken_by n (e ∷ es) o
  woken_by-cons n e es none = refl
  woken_by-cons n e es (some full) = ground arith

  woken_by-nil : (n : Text) (o : Option Bool) → o ≡ woken_by n [] o
  woken_by-nil n none = refl
  woken_by-nil n (some full) = ground arith

  -- After any events, a container that is followed has its token exactly if it had it, or one of the
  -- events taken until both channels closed or the context was done is of its life and under its name;
  -- no other name gets one.
  pub lookup-watch_inner :
      (n : Text) (events errors : Bool) (wakes : List (Text × Bool)) (selected : List Selected)
      → lookup n (watch_inner strings events errors wakes selected).0
        ≡ woken_by n (taken events errors selected) (lookup n wakes)
  unfolding watch_inner
  lookup-watch_inner n events errors wakes [] = woken_by-nil n (lookup n wakes)
  lookup-watch_inner n true errors wakes (an_event e ∷ rest) =
      lookup-watch_inner n true errors (on_event strings wakes e) rest
      ∙ ap (woken_by n (taken true errors rest)) (lookup-on_event n wakes e)
      ∙ woken_by-cons n e (taken true errors rest) (lookup n wakes)
  lookup-watch_inner n false true wakes (an_event e ∷ rest) =
      lookup-watch_inner n false true wakes rest
  lookup-watch_inner n true errors wakes (events_closed ∷ rest) =
      lookup-watch_inner n false errors wakes rest
  lookup-watch_inner n false true wakes (events_closed ∷ rest) =
      lookup-watch_inner n false true wakes rest
  lookup-watch_inner n false false wakes (events_closed ∷ rest) = woken_by-nil n (lookup n wakes)
  lookup-watch_inner n true errors wakes (errors_closed ∷ rest) =
      lookup-watch_inner n true false wakes rest
  lookup-watch_inner n false true wakes (errors_closed ∷ rest) =
      lookup-watch_inner n false false wakes rest
  lookup-watch_inner n false false wakes (errors_closed ∷ rest) = woken_by-nil n (lookup n wakes)
  lookup-watch_inner n true errors wakes (an_error ∷ rest) =
      lookup-watch_inner n true errors wakes rest
  lookup-watch_inner n false true wakes (an_error ∷ rest) =
      lookup-watch_inner n false true wakes rest
  lookup-watch_inner n false false wakes (an_error ∷ rest) = woken_by-nil n (lookup n wakes)
  lookup-watch_inner n false false wakes (an_event e ∷ rest) = woken_by-nil n (lookup n wakes)
  lookup-watch_inner n true errors wakes (context_is_done ∷ rest) = woken_by-nil n (lookup n wakes)
  lookup-watch_inner n false true wakes (context_is_done ∷ rest) = woken_by-nil n (lookup n wakes)
  lookup-watch_inner n false false wakes (context_is_done ∷ rest) = woken_by-nil n (lookup n wakes)
