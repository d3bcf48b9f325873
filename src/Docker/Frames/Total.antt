-- ===== src/Docker/Frames/Total.antt =====
-- The loop of `decodeMultiplexed` ends, whatever the reader gives.
use congraph_log_watcher.Common.{
  ℕ, zero, suc, ◌<◌, ◌≤◌, ◌-◌, ◌==◌, Option, ◌≡◌, inl, inr, Bool, ◌||◌, Bool-cases, ◌++◌, length,
  length-drop, get_or, arith, some, Option-cases, Result-cases, ok, Text, Time,
}
use congraph_log_watcher.Docker.Frames.{
  Reader, Run, eof, unexpected_eof, failed, Buffers, buffered, set_buffered, stream_name,
  frame_length, read_full, decode_multiplexed, before_run, flush, fails,
}
use congraph_log_watcher.Docker.Frames.Drain.{drain-Sends}

module _ {E : Type 0} where
  -- Reading does not lengthen what is to come, and shortens it by what is asked for.
  length-read_full :
      (r : Reader E) (n : ℕ) (t : Text) (rest : Reader E)
      → read_full r n ≡ ok (t, rest)
      → (n ≤ length r.bytes) × (length rest.bytes ≡ length r.bytes - n)
  unfolding read_full
  length-read_full r n t rest h = ground (arith, length-drop n r.bytes)

  -- On fuel for each byte that the reader gives, and one more, the loop ends.
  pub decode_multiplexed-some :
      (parse_time : Text → Option Time) (name id : Text) (fuel : ℕ) (stderr_first : Bool)
      (b : Buffers) (r : Reader E) (budget : ℕ)
      → length r.bytes < fuel
      → (sent : Run E) × (decode_multiplexed parse_time name id fuel stderr_first b r budget
          ≡ some sent)
  unfolding decode_multiplexed
  decode_multiplexed-some parse_time name id zero stderr_first b r budget h = elim h [ ]
  decode_multiplexed-some parse_time name id (suc fuel) stderr_first b r budget h =
      elim (Result-cases (read_full r 8)) [
        | inr (eof, e) ↦ (flush parse_time name id stderr_first b budget, ground (arith, e))
        | inr (unexpected_eof, e) ↦ (fails budget unexpected_eof, ground (arith, e))
        | inr (failed x, e) ↦ (fails budget (failed x), ground (arith, e))
        | inl ((header, body), e) ↦ elim (Result-cases (read_full body (frame_length header))) [
          | inr (x, k) ↦ (fails budget x, ground (arith, e, k))
          | inl ((payload, rest), k) ↦
              let n = get_or header 0 0 in
              let buffer = buffered b n ++ payload in
              let less : length rest.bytes < fuel = omega (
                arith,
                h,
                length-read_full r 8 header body e,
                length-read_full body (frame_length header) payload rest k,
              ) in
              elim (Bool-cases (n == 1 || n == 2)) [
                | inr u ↦
                    let (sent, d) =
                      decode_multiplexed-some parse_time name id fuel stderr_first b rest budget
                        less in
                    (sent, ground (arith, e, k, u, d))
                | inl u ↦
                    let (left, first, d, s, l) =
                      drain-Sends {E = E} parse_time name id (suc (length buffer)) (stream_name n)
                        buffer budget (omega arith) in
                    elim (Option-cases first.error) [
                      | inr (x, y) ↦ (first, ground (arith, e, k, u, d, y))
                      | inl y ↦
                          let (second, d') =
                            decode_multiplexed-some parse_time name id fuel stderr_first
                              (set_buffered b n left) rest first.room less in
                          (before_run first.out second, ground (arith, e, k, u, d, y, d'))
                    ]
              ]
        ]
      ]
