-- ===== src/Docker/Frames/Delivered.antt =====
-- What `decodeMultiplexed` sends of a stream of whole frames.
use congraph_log_watcher.Common.{
  ℕ, suc, ◌<◌, ◌≤◌, ◌≡◌, refl, subst, ap, ap₂, ◌∙◌, Bool, true, false, List, [], ◌∷◌, ◌++◌, keep,
  keep-append, length, length-append, append-nil, arith, Option, none, some, Text, Time, text_eq,
  All, if◌then◌else◌,
}
use congraph_log_watcher.Entry.{RawLog}
use congraph_log_watcher.Docker.Frames.{
  Run, Buffers, stream_name, record_of, read_full, flush, flush_one, decode_multiplexed, cut,
}
use congraph_log_watcher.Docker.Frames.Lines.{complete_from, remainder_from, Sends, Sends-append}
use congraph_log_watcher.Docker.Frames.Drain.{records_of, emit-Sends, no_more-Sends}
use congraph_log_watcher.Docker.Frames.Encode.{Frame, encode, IsFrame, reader}
use congraph_log_watcher.Docker.Frames.Decode.{left_after, sent_by, decode, decode-encode}
use congraph_log_watcher.Docker.Frames.Streams.{
  Stream, stdout, stderr, number, of_stream, payloads, buffer, keep-sent_by, buffer-left_after,
}

abbrev pub empty : Buffers
empty = record { stdout = []; stderr = [] }

length-encode : (frames : List Frame) → length frames ≤ length (encode frames)
unfolding encode
length-encode [] = omega arith
length-encode (f ∷ fs) = omega (arith, length-encode fs, length-append f.payload (encode fs))

abbrev same : Stream → Stream → Bool
same stdout stdout = true
same stderr stderr = true
same stdout stderr = false
same stderr stdout = false

-- Enough fuel for what a reader gives
pub fuel_enough :
    (frames : List Frame) (tail : Text) → length frames < suc (length (encode frames ++ tail))
fuel_enough frames tail = omega (arith, length-encode frames, length-append (encode frames) tail)

buffer-empty : (stream : Stream) → buffer empty stream ≡ []
buffer-empty stdout = refl
buffer-empty stderr = refl

module _ (parse_time : Text → Option Time) (name id : Text) where
  -- The record of what is left in a buffer
  abbrev pub unterminated : Stream → Text → List RawLog
  unterminated stream [] = []
  unterminated stream (c ∷ s) =
      record_of parse_time name id (stream_name (number stream)) (c ∷ s) ∷ []

  -- The records of a stream's whole lines
  abbrev pub lines_of : Stream → Text → List RawLog
  lines_of stream t =
      records_of parse_time name id (stream_name (number stream)) (complete_from [] t)

  -- Both, of what the frames carry
  abbrev pub records_in : Stream → List Frame → List RawLog
  records_in stream frames =
      lines_of stream (payloads (number stream) frames)
      ++ unterminated stream (remainder_from [] (payloads (number stream) frames))

  abbrev flushed : Bool → Buffers → List RawLog
  flushed stderr_first b =
      if stderr_first
      then unterminated stderr b.stderr ++ unterminated stdout b.stdout
      else unterminated stdout b.stdout ++ unterminated stderr b.stderr

  keep-unterminated :
      (s t : Stream) (l : Text)
      → keep (of_stream s) (unterminated t l) ≡ (if same s t then unterminated t l else [])
  unfolding record_of stream_name text_eq
  keep-unterminated stdout stdout [] = refl
  keep-unterminated stdout stderr [] = refl
  keep-unterminated stderr stdout [] = refl
  keep-unterminated stderr stderr [] = refl
  keep-unterminated stdout stdout (c ∷ l) = refl
  keep-unterminated stdout stderr (c ∷ l) = refl
  keep-unterminated stderr stdout (c ∷ l) = refl
  keep-unterminated stderr stderr (c ∷ l) = refl

  keep-flushed :
      (stream : Stream) (stderr_first : Bool) (b : Buffers)
      → keep (of_stream stream) (flushed stderr_first b) ≡ unterminated stream (buffer b stream)
  keep-flushed stdout true b =
      keep-append (of_stream stdout) (unterminated stderr b.stderr) (unterminated stdout b.stdout)
      ∙ ap₂ (λ xs ys. xs ++ ys) (keep-unterminated stdout stderr b.stderr)
          (keep-unterminated stdout stdout b.stdout)
  keep-flushed stdout false b =
      keep-append (of_stream stdout) (unterminated stdout b.stdout) (unterminated stderr b.stderr)
      ∙ ap₂ (λ xs ys. xs ++ ys) (keep-unterminated stdout stdout b.stdout)
          (keep-unterminated stdout stderr b.stderr)
      ∙ append-nil (unterminated stdout b.stdout)
  keep-flushed stderr true b =
      keep-append (of_stream stderr) (unterminated stderr b.stderr) (unterminated stdout b.stdout)
      ∙ ap₂ (λ xs ys. xs ++ ys) (keep-unterminated stderr stderr b.stderr)
          (keep-unterminated stderr stdout b.stdout)
      ∙ append-nil (unterminated stderr b.stderr)
  keep-flushed stderr false b =
      keep-append (of_stream stderr) (unterminated stdout b.stdout) (unterminated stderr b.stderr)
      ∙ ap₂ (λ xs ys. xs ++ ys) (keep-unterminated stderr stdout b.stdout)
          (keep-unterminated stderr stderr b.stderr)

  pub keep-lines :
      (stream : Stream) (frames : List Frame)
      → keep (of_stream stream) (sent_by parse_time name id empty frames)
        ≡ lines_of stream (payloads (number stream) frames)
  unfolding cut
  keep-lines stream frames =
      keep-sent_by parse_time name id stream empty frames (refl, refl)
      ∙ ap
          (λ t.
            records_of parse_time name id (stream_name (number stream))
              (complete_from t (payloads (number stream) frames)))
          (buffer-empty stream)

  left :
      (stream : Stream) (frames : List Frame)
      → buffer (left_after empty frames) stream
        ≡ remainder_from [] (payloads (number stream) frames)
  unfolding cut
  left stream frames =
      buffer-left_after stream empty frames (refl, refl)
      ∙ ap (λ t. remainder_from t (payloads (number stream) frames)) (buffer-empty stream)

  module _ {E : Type 0} where
    flush_one-Sends :
        (stream : Stream) (l : Text) (budget : ℕ)
        → Sends {E = E} budget
            (unterminated stream l)
            none
            (flush_one parse_time name id (stream_name (number stream)) l budget)
    unfolding flush_one
    flush_one-Sends stream [] budget = no_more-Sends budget
    flush_one-Sends stream (c ∷ l) budget =
        emit-Sends parse_time name id (stream_name (number stream)) (c ∷ l) budget

    flush-Sends :
        (stderr_first : Bool) (b : Buffers) (budget : ℕ)
        → Sends {E = E} budget
            (flushed stderr_first b)
            none
            (flush parse_time name id stderr_first b budget)
    unfolding flush
    flush-Sends true b budget =
        let first = flush_one {E = E} parse_time name id (stream_name 2) b.stderr budget in
        Sends-append budget (unterminated stderr b.stderr) (unterminated stdout b.stdout) none first
          (flush_one parse_time name id (stream_name 1) b.stdout first.room)
          (flush_one-Sends stderr b.stderr budget) (flush_one-Sends stdout b.stdout first.room)
    flush-Sends false b budget =
        let first = flush_one {E = E} parse_time name id (stream_name 1) b.stdout budget in
        Sends-append budget (unterminated stdout b.stdout) (unterminated stderr b.stderr) none first
          (flush_one parse_time name id (stream_name 2) b.stderr first.room)
          (flush_one-Sends stdout b.stdout budget) (flush_one-Sends stderr b.stderr first.room)

    whole :
        (frames : List Frame) (stderr_first : Bool) (budget : ℕ)
        → All IsFrame frames
        → (sent : Run E) × (decode_multiplexed parse_time name id
              (suc (length (encode frames)))
              stderr_first
              empty
              (reader (encode frames) none)
              budget
            ≡ some sent)
          × Sends budget
              (sent_by parse_time name id empty frames
                ++ flushed stderr_first (left_after empty frames))
              none
              sent
    unfolding decode_multiplexed read_full
    whole frames stderr_first budget h =
        subst
          (λ t.
            (sent : Run E) × (decode parse_time name id stderr_first (suc (length t)) empty t none
                budget
              ≡ some sent)
            × Sends budget
                (sent_by parse_time name id empty frames
                  ++ flushed stderr_first (left_after empty frames))
                none sent)
          (append-nil (encode frames))
          (decode-encode parse_time name id stderr_first [] none none (flushed stderr_first)
            (suc (length (encode frames ++ []))) empty frames budget
            (λ fuel b room.
              (flush parse_time name id stderr_first b room, refl, flush-Sends stderr_first b room))
            h (fuel_enough frames []))

    -- Of whole frames, where the reader then ends, the records of both streams are sent, in each
    -- stream's order, as many as the output takes, and if it takes all of them, the loop reports no error.
    pub decode_multiplexed-encode :
        (frames : List Frame) (stderr_first : Bool) (budget : ℕ)
        → All IsFrame frames
        → let bytes = encode frames in
          (records : List RawLog) × (sent : Run E) × (decode_multiplexed parse_time name id
              (suc (length bytes))
              stderr_first
              empty
              (reader bytes none)
              budget
            ≡ some sent)
          × Sends budget records none sent
          × ((stream : Stream) → keep (of_stream stream) records ≡ records_in stream frames)
    decode_multiplexed-encode frames stderr_first budget h =
        let b = left_after empty frames in
        let (sent, d, s) = whole frames stderr_first budget h in
        (
          sent_by parse_time name id empty frames ++ flushed stderr_first b,
          sent,
          d,
          s,
          λ stream.
              keep-append (of_stream stream) (sent_by parse_time name id empty frames)
                (flushed stderr_first b)
              ∙ ap₂ (λ xs ys. xs ++ ys) (keep-lines stream frames)
                  (keep-flushed stream stderr_first b
                    ∙ ap (unterminated stream) (left stream frames)),
        )
