-- ===== src/Docker/Frames/Drain.antt =====
-- The records that a loop over a buffer sends.
use congraph_log_watcher.Common.{
  ℕ, zero, suc, ◌<◌, ◌≡◌, refl, sym, ap, inl, inr, List, [], ◌∷◌, map, length, take_all, arith,
  Option, none, some, Option-cases, Text, Time,
}
use congraph_log_watcher.Entry.{RawLog}
use congraph_log_watcher.Docker.Frames.{
  cut, trim_return, record_of, Run, emit, drain, no_more, before_run,
}
use congraph_log_watcher.Docker.Frames.Lines.{
  complete_from, remainder_from, cut-line, cut-some, Sends, Sends-append,
}

-- The records of a buffer's complete lines
abbrev pub records_of : (Text → Option Time) → Text → Text → Text → List Text → List RawLog
records_of parse_time name id stream lines = map (record_of parse_time name id stream) lines

module _ {E : Type 0} where
  pub no_more-Sends : (budget : ℕ) → Sends {E = E} budget [] none (no_more budget)
  no_more-Sends budget = record {
    out = sym (take_all [] budget (omega arith));
    room = omega arith;
    error = ground arith;
  }

  module _ (parse_time : Text → Option Time) (name id : Text) where
    pub emit-Sends :
        (stream line : Text) (budget : ℕ)
        → Sends {E = E} budget
            (record_of parse_time name id stream line ∷ [])
            none
            (emit parse_time name id stream line budget)
    unfolding emit
    emit-Sends stream line zero = record { out = refl; room = refl; error = refl }
    emit-Sends stream line (suc n) = record {
      out =
          ap (λ l. record_of parse_time name id stream line ∷ l)
            (sym (take_all [] n (omega arith)));
      room = omega arith;
      error = ground arith;
    }

    -- With enough fuel for a buffer, its complete lines are sent, as many as there is room for, and if
    -- that is all of them, what follows the last newline is left.
    pub drain-Sends :
        (fuel : ℕ) (stream buffer : Text) (budget : ℕ)
        → length buffer < fuel
        → (left : Text) × (sent : Run E) × (drain parse_time name id fuel stream buffer budget
            ≡ some (left, sent))
          × Sends budget (records_of parse_time name id stream (complete_from [] buffer)) none sent
          × (sent.error ≡ none → left ≡ remainder_from [] buffer)
    unfolding drain
    drain-Sends zero stream buffer budget h = elim h [ ]
    drain-Sends (suc fuel) stream buffer budget h = elim (Option-cases (cut 10 buffer)) [
      | inl n ↦
          let l = cut-line [] buffer n in
          (buffer, no_more budget, rw (drain, n) refl, rw l.0 (no_more-Sends budget), λ e. sym l.1)
      | inr ((a, b), n) ↦
          let l = cut-some [] buffer a b n in
          let line = emit {E = E} parse_time name id stream (trim_return a) budget in
          let first = emit-Sends stream (trim_return a) budget in
          let (left, sent, d, s, r) = drain-Sends fuel stream b line.room (omega (arith, l.2, h)) in
          let both = Sends-append budget _ _ none line sent first s in
          elim (Option-cases line.error) [
            | inl e ↦ (
              left,
              before_run line.out sent,
              ground (arith, n, e, d),
              rw l.0 (rw e at both),
              λ k. ground (arith, r, l.1),
            )
            | inr (x, e) ↦
                (b, line, ground (arith, n, e), rw l.0 (rw e at both), λ k. ground (arith, e, k))
          ]
    ]
