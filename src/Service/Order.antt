-- ===== src/Service/Order.antt =====
-- In what order the service starts and closes its components.
use congraph_log_watcher.Common.{
  ◌≡◌, refl, sym, ap, ◌⊎◌, inl, inr, List, [], ◌∷◌, ◌++◌, append_assoc, append-nil, Option,
  Option-cases, none, some, reverse,
}
use congraph_log_watcher.Service.{World, close_each, close_all, run_from, run}

module _ (world : World) where
  open world use {State, Component, Error, start, close, wait}

  -- The state after starting components in order, and after closing them in this order
  abbrev pub started : State → List Component → State
  started s [] = s
  started s (c ∷ cs) = started (start s c).0 cs

  abbrev pub closed : State → List Component → State
  closed s [] = s
  closed s (c ∷ cs) = closed (close s c).0 cs

  -- The first error of closing them in this order
  abbrev pub first_error : State → List Component → Option Error
  first_error s [] = none
  first_error s (c ∷ cs) =
      let later = first_error (close s c).0 cs in
      elim (close s c).1 [ none ↦ later | some e ↦ some e ]

  -- Each starts, in order.
  abbrev pub Starts : State → List Component → Type 0
  Starts s [] = Unit
  Starts s (c ∷ cs) = ((start s c).1 ≡ none) × Starts (start s c).0 cs

  close_each_lem :
      (s : State) (result : Option Error) (cs : List Component)
      → close_each world s result cs
        ≡ (closed s cs, elim result [ none ↦ first_error s cs | some e ↦ some e ])
  unfolding close_each
  close_each_lem s none [] = refl
  close_each_lem s (some e) [] = refl
  close_each_lem s (some e) (c ∷ cs) = close_each_lem (close s c).0 (some e) cs
  close_each_lem s none (c ∷ cs) = elim (Option-cases (close s c).1) [
    | inl e ↦ rw (close_each, first_error, e) (close_each_lem (close s c).0 none cs)
    | inr (x, e) ↦ rw (close_each, first_error, e) (close_each_lem (close s c).0 (some x) cs)
  ]

  close_all_lem :
      (s : State) (cs : List Component)
      → close_all world s cs ≡ (closed s (reverse cs), first_error s (reverse cs))
  unfolding close_all
  close_all_lem s cs = close_each_lem s none (reverse cs)

  -- What `Run` comes to, after some components have been started
  abbrev pub Runs : List Component → State → List Component → State × Option Error → Type 0
  Runs before s cs result =
      (Starts s cs
        × (result ≡ (
          closed (wait (started s cs)) (reverse (before ++ cs)),
          first_error (wait (started s cs)) (reverse (before ++ cs)),
        )))
      ⊎ ((up : List Component) × (c : Component) × (rest : List Component) × (e : Error) × (cs
            ≡ up ++ c ∷ rest)
          × Starts s up
          × ((start (started s up) c).1 ≡ some e)
          × (result ≡ (closed (start (started s up) c).0 (reverse (before ++ up)), some e)))

  run_from_lem :
      (s : State) (before cs : List Component) → Runs before s cs (run_from world s before cs)
  unfolding run_from
  run_from_lem s before [] = inl (tt, rw (append-nil before) (close_all_lem (wait s) before))
  run_from_lem s before (c ∷ cs) = elim (Option-cases (start s c).1) [
    | inr (e, h) ↦ inr (
      [],
      c,
      cs,
      e,
      refl,
      tt,
      h,
      rw (run_from, h, append-nil before)
          (ap (λ r. (r.0, some e)) (close_all_lem (start s c).0 before)),
    )
    | inl h ↦ elim (run_from_lem (start s c).0 (before ++ c ∷ []) cs) [
      | inl (a, r) ↦ inl ((h, a), rw (run_from, h, sym (append_assoc before (c ∷ []) cs)) r)
      | inr (up, d, rest, e, q, a, f, r) ↦ inr (
        c ∷ up,
        d,
        rest,
        e,
        ap (λ l. c ∷ l) q,
        (h, a),
        f,
        rw (run_from, h, sym (append_assoc before (c ∷ []) up)) r,
      )
    ]
  ]

  -- `Run` starts the components in order. If all start, it waits until the context is done, and then
  -- closes them all in reverse, each once, whether or not one fails to close, and returns the first
  -- error of closing. If one does not start, those after it are not started, those before it are closed
  -- in reverse, and its error is returned.
  pub run_lem : (s : State) (cs : List Component) → Runs [] s cs (run world s cs)
  unfolding run
  run_lem s cs = run_from_lem s [] cs
