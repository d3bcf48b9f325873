-- ===== src/Docker/Frames/Broken.antt =====
-- What `decodeMultiplexed` sends of a stream that breaks off.
use congraph_log_watcher.Common.{
  ℕ, suc, ◌≡◌, ◌≢◌, refl, subst, sym, ◌⊎◌, inl, inr, Bool, List, [], ◌++◌, keep, take_all, length,
  append-nil, arith, Option, some, Text, Time, All, ok, err,
}
use congraph_log_watcher.Entry.{RawLog}
use congraph_log_watcher.Docker.Frames.{
  Reader, Run, ReadError, not_read, eof, unexpected_eof, failed, Buffers, read_full, frame_length,
  decode_multiplexed, fails,
}
use congraph_log_watcher.Docker.Frames.Lines.{Sends}
use congraph_log_watcher.Docker.Frames.Encode.{Frame, encode, IsFrame, reader}
use congraph_log_watcher.Docker.Frames.Decode.{sent_by, decode, decode-encode}
use congraph_log_watcher.Docker.Frames.Streams.{Stream, number, of_stream, payloads}
use congraph_log_watcher.Docker.Frames.Delivered.{empty, lines_of, fuel_enough, keep-lines}

-- What a reader that breaks off within a frame reports
abbrev pub Breaks : {E : Type 0} → Text → Option E → ReadError E → Type 0
Breaks {E = E} tail ends e =
    ((read_full (reader tail ends) 8 ≡ err e) × (e ≢ eof))
    ⊎ ((header : Text) × (body : Reader E) × (read_full (reader tail ends) 8 ≡ ok (header, body))
        × (read_full body (frame_length header) ≡ err e))

module _ {E : Type 0} (parse_time : Text → Option Time) (name id : Text) where
  broken_round :
      (fuel : ℕ) (stderr_first : Bool) (b : Buffers) (tail : Text) (ends : Option E)
      (e : ReadError E) (room : ℕ)
      → Breaks tail ends e
      → decode parse_time name id stderr_first (suc fuel) b tail ends room ≡ some (fails room e)
  unfolding decode_multiplexed
  broken_round fuel stderr_first b tail ends eof room (inl (h, n)) = absurd (n refl)
  broken_round fuel stderr_first b tail ends unexpected_eof room (inl (h, n)) = ground (arith, h)
  broken_round fuel stderr_first b tail ends (failed e) room (inl (h, n)) = ground (arith, h)
  broken_round fuel stderr_first b tail ends e room (inr (header, body, h, k)) =
      ground (arith, h, k)

  fails-Sends :
      (budget : ℕ) (e : ReadError E) → Sends budget [] (some (not_read e)) (fails budget e)
  fails-Sends budget e = record {
    out = sym (take_all [] budget (omega arith));
    room = omega arith;
    error = ground arith;
  }

  -- Where the stream breaks off within a frame, or the reader fails, the lines that the whole frames
  -- before it complete are sent, as many as the output takes, and nothing else: not what is left in
  -- the buffers, and nothing of the broken frame. The loop then reports what the reader did.
  pub decode_multiplexed_broken :
      (frames : List Frame) (tail : Text) (ends : Option E) (e : ReadError E) (stderr_first : Bool)
      (budget : ℕ)
      → All IsFrame frames
      → Breaks tail ends e
      → let bytes = encode frames ++ tail in
        (records : List RawLog) × (sent : Run E) × (decode_multiplexed parse_time name id
            (suc (length bytes))
            stderr_first
            empty
            (reader bytes ends)
            budget
          ≡ some sent)
        × Sends budget records (some (not_read e)) sent
        × ((stream : Stream)
            → keep (of_stream stream) records
              ≡ lines_of parse_time name id stream (payloads (number stream) frames))
  decode_multiplexed_broken frames tail ends e stderr_first budget h k =
      let (sent, d, s) =
        decode-encode parse_time name id stderr_first tail ends (some (not_read e)) (λ b. [])
          (suc (length (encode frames ++ tail))) empty frames budget
          (λ fuel b room.
            (fails room e, broken_round fuel stderr_first b tail ends e room k, fails-Sends room e))
          h (fuel_enough frames tail) in
      (
        sent_by parse_time name id empty frames,
        sent,
        d,
        subst (λ l. Sends budget l (some (not_read e)) sent)
            (append-nil (sent_by parse_time name id empty frames)) s,
        λ stream. keep-lines parse_time name id stream frames,
      )
