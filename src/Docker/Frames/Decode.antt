-- ===== src/Docker/Frames/Decode.antt =====
-- What a multiplexed stream is decoded into.
use congraph_log_watcher.Common.{
  ℕ, zero, suc, ◌==◌, ◌<◌, ◌≡◌, refl, ap, ◌∙◌, inl, inr, Bool, ◌||◌, Bool-cases, Option-cases, List,
  [], ◌∷◌, ◌++◌, get_or, length, append_assoc, arith, Option, none, some, Text, Time, All, ok,
  if◌then◌else◌,
}
use congraph_log_watcher.Entry.{RawLog}
use congraph_log_watcher.Docker.Frames.{
  Run, DecodeError, Buffers, buffered, set_buffered, stream_name, Reader, frame_length, read_full,
  decode_multiplexed, drain, before_run, before_next,
}
use congraph_log_watcher.Docker.Frames.Lines.{
  complete_from, remainder_from, Sends, Sends-next, Sends-stop,
}
use congraph_log_watcher.Docker.Frames.Drain.{records_of, drain-Sends}
use congraph_log_watcher.Docker.Frames.Encode.{
  Frame, encode, IsFrame, header_of, reader, read_full-encode,
}

abbrev pub is_known : ℕ → Bool
is_known stream = stream == 1 || stream == 2

-- A stream's buffer with a frame's payload added
abbrev pub filled : Buffers → Frame → Text
filled b f = buffered b f.stream ++ f.payload

-- The buffers after some frames
unfoldable pub left_after : Buffers → List Frame → Buffers
left_after b [] = b
left_after b (f ∷ fs) =
    if is_known f.stream
    then left_after (set_buffered b f.stream (remainder_from [] (filled b f))) fs
    else left_after b fs

module _ (parse_time : Text → Option Time) (name id : Text) where
  -- The records of the lines that some frames complete
  unfoldable pub sent_by : Buffers → List Frame → List RawLog
  unfolding stream_name
  sent_by b [] = []
  sent_by b (f ∷ fs) =
      if is_known f.stream
      then records_of parse_time name id (stream_name f.stream) (complete_from [] (filled b f))
        ++ sent_by (set_buffered b f.stream (remainder_from [] (filled b f))) fs
      else sent_by b fs

module _ {E : Type 0} (parse_time : Text → Option Time) (name id : Text) (stderr_first : Bool) where
  abbrev pub decode : ℕ → Buffers → Text → Option E → ℕ → Option (Run E)
  decode fuel b bytes ends budget =
      decode_multiplexed parse_time name id fuel stderr_first b (reader bytes ends) budget

  abbrev after_drain :
      ℕ → Buffers → Frame → Text → Option E → Option (Text × Run E) → Option (Run E)
  after_drain fuel b f rest ends none = none
  after_drain fuel b f rest ends (some (left, sent)) = elim sent.error [
    | some e ↦ some sent
    | none ↦ before_next sent.out (decode fuel (set_buffered b f.stream left) rest ends sent.room)
  ]

  decode-read :
      (fuel : ℕ) (b : Buffers) (bytes : Text) (ends : Option E) (budget : ℕ) (header : Text)
      (body : Reader E) (payload : Text) (rest : Reader E)
      → read_full (reader bytes ends) 8 ≡ ok (header, body)
      → read_full body (frame_length header) ≡ ok (payload, rest)
      → decode (suc fuel) b bytes ends budget ≡ (
          if is_known (get_or header 0 0)
          then after_drain fuel b
              (record { stream = get_or header 0 0; payload = payload })
              rest.bytes
              rest.ends
              (drain parse_time name id
                (suc (length (buffered b (get_or header 0 0) ++ payload)))
                (stream_name (get_or header 0 0))
                (buffered b (get_or header 0 0) ++ payload)
                budget)
          else decode fuel b rest.bytes rest.ends budget)
  unfolding decode_multiplexed
  decode-read fuel b bytes ends budget header body payload rest h k = ground (arith, h, k)

  -- A round of the loop
  decode-frame :
      (fuel : ℕ) (b : Buffers) (f : Frame) (rest : Text) (ends : Option E) (budget : ℕ)
      → IsFrame f
      → decode (suc fuel) b (header_of f.stream (length f.payload) ++ f.payload ++ rest) ends budget
        ≡ (if is_known f.stream
            then after_drain fuel b f rest ends (
                drain parse_time name id
                  (suc (length (filled b f)))
                  (stream_name f.stream)
                  (filled b f)
                  budget)
            else decode fuel b rest ends budget)
  unfolding decode_multiplexed
  decode-frame fuel b f rest ends budget h =
      let header = header_of f.stream (length f.payload) in
      let (r, q) = read_full-encode f rest ends h in
      decode-read fuel b (header ++ f.payload ++ rest) ends budget header
        (reader (f.payload ++ rest) ends) f.payload (reader rest ends) r q

  -- What is sent where the loop, with the frames read, sends some records and ends so
  module _ (tail : Text) (ends : Option E) (last : Option (DecodeError E))
      (final : Buffers → List RawLog) where
    abbrev pub Ends : Type 0
    Ends =
        (fuel : ℕ) (b : Buffers) (budget : ℕ)
        → (sent : Run E) × (decode (suc fuel) b tail ends budget ≡ some sent)
          × Sends budget (final b) last sent

    pub decode-encode :
        (fuel : ℕ) (b : Buffers) (frames : List Frame) (budget : ℕ)
        → Ends
        → All IsFrame frames
        → length frames < fuel
        → (sent : Run E) × (decode fuel b (encode frames ++ tail) ends budget ≡ some sent)
          × Sends budget
              (sent_by parse_time name id b frames ++ final (left_after b frames))
              last
              sent
    unfolding encode sent_by left_after
    decode-encode zero b frames budget e h f = elim f [ ]
    decode-encode (suc fuel) b [] budget e h f = e fuel b budget
    decode-encode (suc fuel) b (x ∷ frames) budget e h f =
        let lines = encode frames ++ tail in
        let header = header_of x.stream (length x.payload) in
        let same =
          ap (λ t. decode (suc fuel) b (header ++ t) ends budget)
            (append_assoc x.payload (encode frames) tail)
          ∙ decode-frame fuel b x lines ends budget h.0 in
        elim (Bool-cases (is_known x.stream)) [
          | inr u ↦
              let (sent, d, s) = decode-encode fuel b frames budget e h.1 (omega (arith, f)) in
              (sent, same ∙ rw u d, rw u s)
          | inl u ↦
              let left = remainder_from [] (filled b x) in
              let b' = set_buffered b x.stream left in
              let lines =
                records_of parse_time name id (stream_name x.stream)
                  (complete_from [] (filled b x)) in
              let more = sent_by parse_time name id b' frames in
              let last_ones = final (left_after b' frames) in
              let (left', first, d, s, r) =
                drain-Sends {E = E} parse_time name id (suc (length (filled b x)))
                  (stream_name x.stream) (filled b x) budget (omega arith) in
              elim (Option-cases first.error) [
                | inl n ↦
                    let (second, d', s') =
                      decode-encode fuel b' frames first.room e h.1 (omega (arith, f)) in
                    (
                      before_run first.out second,
                      same ∙ rw (u, d, after_drain, n, r n, d') refl,
                      rw (u, append_assoc lines more last_ones)
                          (Sends-next budget lines (more ++ last_ones) last first second n s s'),
                    )
                | inr (y, n) ↦ (
                  first,
                  same ∙ rw (u, d, after_drain, n) refl,
                  rw (u, append_assoc lines more last_ones)
                      (Sends-stop budget lines (more ++ last_ones) last first y n s),
                )
              ]
        ]
