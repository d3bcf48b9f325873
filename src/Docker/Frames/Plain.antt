-- ===== src/Docker/Frames/Plain.antt =====
-- What a plain stream is read as.
use congraph_log_watcher.Common.{
  ℕ, zero, suc, ◌<◌, ◌≡◌, refl, ap, inl, inr, List, [], ◌∷◌, ◌++◌, length, arith, Option, none,
  some, Option-cases, Text, Time, text, is_nil, if◌then◌else◌,
}
use congraph_log_watcher.Entry.{RawLog}
use congraph_log_watcher.Docker.Frames.{
  Reader, Run, DecodeError, not_read, failed, cut, trim_return, record_of, emit, read_lines,
  before_run, no_more,
}
use congraph_log_watcher.Docker.Frames.Lines.{
  complete_from, remainder_from, cut-line, cut-some, Sends, Sends-next, Sends-stop,
}
use congraph_log_watcher.Docker.Frames.Drain.{records_of, emit-Sends, no_more-Sends}

-- What the loop reports of a reader's end
abbrev pub end_of : {E : Type 0} → Option E → Option (DecodeError E)
end_of none = none
end_of (some e) = some (not_read (failed e))

module _ {E : Type 0} {budget : ℕ} {xs : List RawLog} (last : Option (DecodeError E))
    (r : Run E) where
  ends_so :
      r.error ≡ none → Sends budget xs none r → Sends budget xs last (record r { error = last })
  ends_so e s = record { out = s.out; room = s.room; error = ground (arith, e, s.error) }

  stops : (x : DecodeError E) → r.error ≡ some x → Sends budget xs none r → Sends budget xs last r
  stops x e s = record { out = s.out; room = s.room; error = ground (arith, e, s.error) }

module _ (parse_time : Text → Option Time) (name id : Text) where
  -- The record of what follows the last newline: unlike in `decodeMultiplexed`, its carriage return is
  -- cut off.
  abbrev pub last_line : Text → List RawLog
  last_line s =
      if is_nil s then [] else record_of parse_time name id (text "stdout") (trim_return s) ∷ []

  abbrev pub plain_records : Text → List RawLog
  plain_records t =
      records_of parse_time name id (text "stdout") (complete_from [] t)
      ++ last_line (remainder_from [] t)

  last_line-Sends :
      {E : Type 0} (s : Text) (budget : ℕ)
      → Sends {E = E} budget (last_line s) none (
          if is_nil s
          then no_more budget
          else emit parse_time name id (text "stdout") (trim_return s) budget)
  last_line-Sends [] budget = no_more-Sends budget
  last_line-Sends (c ∷ s) budget =
      emit-Sends parse_time name id (text "stdout") (trim_return (c ∷ s)) budget

  -- The last round of the loop
  end_round :
      {E : Type 0} (fuel : ℕ) (bytes : Text) (ends : Option E) (budget : ℕ)
      → cut 10 bytes ≡ none
      → let first : Run E =
          (if is_nil bytes
            then no_more budget
            else emit parse_time name id (text "stdout") (trim_return bytes) budget) in
        first.error ≡ none
        → read_lines parse_time name id (suc fuel) (record { bytes = bytes; ends = ends }) budget
          ≡ some (record first { error = end_of ends })
  unfolding read_lines
  end_round fuel bytes none budget n e =
      rw (read_lines, n, e)
        (ap
          (λ x.
            some
              (record (if is_nil bytes
                then no_more budget
                else emit parse_time name id (text "stdout") (trim_return bytes) budget) {
                  error = x;
                }))
          e)
  end_round fuel bytes (some x) budget n e = rw (read_lines, n, e) refl

  -- A plain stream's lines are sent in order, as many as the output takes, and then what follows the
  -- last newline, whether the reader then ends or fails; the loop ends, and reports the reader's failure
  -- if it got so far.
  pub read_lines-Sends :
      {E : Type 0} (fuel : ℕ) (r : Reader E) (budget : ℕ)
      → length r.bytes < fuel
      → (sent : Run E) × (read_lines parse_time name id fuel r budget ≡ some sent)
        × Sends budget (plain_records r.bytes) (end_of r.ends) sent
  unfolding read_lines
  read_lines-Sends zero r budget h = elim h [ ]
  read_lines-Sends {E = E} (suc fuel) r budget h = elim (Option-cases (cut 10 r.bytes)) [
    | inr ((a, b), n) ↦
        let l = cut-some [] r.bytes a b n in
        let first = emit {E = E} parse_time name id (text "stdout") (trim_return a) budget in
        let f = emit-Sends {E = E} parse_time name id (text "stdout") (trim_return a) budget in
        let (second, d, s) =
          read_lines-Sends fuel (record r { bytes = b }) first.room (omega (arith, l.2, h)) in
        let line = record_of parse_time name id (text "stdout") (trim_return a) ∷ [] in
        elim (Option-cases first.error) [
          | inl e ↦ (
            before_run first.out second,
            ground (arith, n, e, d),
            rw (l.0, l.1)
                (Sends-next budget line (plain_records b) (end_of r.ends) first second e f s),
          )
          | inr (x, e) ↦ (
            first,
            ground (arith, n, e),
            rw (l.0, l.1) (Sends-stop budget line (plain_records b) (end_of r.ends) first x e f),
          )
        ]
    | inl n ↦
        let l = cut-line [] r.bytes n in
        let first : Run E =
          if is_nil r.bytes
          then no_more budget
          else emit parse_time name id (text "stdout") (trim_return r.bytes) budget in
        let f : Sends budget (last_line r.bytes) none first = last_line-Sends r.bytes budget in
        elim (Option-cases first.error) [
          | inl e ↦ (
            record first { error = end_of r.ends },
            end_round fuel r.bytes r.ends budget n e,
            rw (l.0, l.1) (ends_so (end_of r.ends) first e f),
          )
          | inr (x, e) ↦
              (first, ground (arith, n, e), rw (l.0, l.1) (stops (end_of r.ends) first x e f))
        ]
  ]
