-- ===== src/Docker/Frames/Streams.antt =====
-- What each of the two streams of a multiplexed reader comes to.
use congraph_log_watcher.Common.{
  ℕ, ◌==◌, ==_iff, ◌≡◌, refl, sym, ap, ap₂, map-append, ◌∙◌, inl, inr, Bool, true, false,
  Bool-cases, List, [], ◌∷◌, ◌++◌, keep, keep-append, arith, Option, Text, Time, text_eq,
  text_eq_refl, if◌then◌else◌,
}
use congraph_log_watcher.Entry.{RawLog}
use congraph_log_watcher.Docker.Frames.{
  cut, Buffers, buffered, set_buffered, stream_name, record_of,
}
use congraph_log_watcher.Docker.Frames.Lines.{
  complete_from, remainder_from, IsLine, append-line, remainder_from-append, complete_from-append,
  cut-remainder_from,
}
use congraph_log_watcher.Docker.Frames.Drain.{records_of}
use congraph_log_watcher.Docker.Frames.Encode.{Frame}
use congraph_log_watcher.Docker.Frames.Decode.{is_known, filled, left_after, sent_by}

-- What the frames of a stream carry
abbrev pub payloads : ℕ → List Frame → Text
payloads stream [] = []
payloads stream (f ∷ fs) =
    if f.stream == stream then f.payload ++ payloads stream fs else payloads stream fs

-- The two streams that are decoded
pub data Stream : Type 0 where
  stdout stderr : Stream

abbrev pub number : Stream → ℕ
number stdout = 1
number stderr = 2

abbrev pub of_stream : Stream → RawLog → Bool
of_stream stream r = text_eq r.stream (stream_name (number stream))

-- Neither buffer holds a newline.
abbrev pub IsDrained : Buffers → Type 0
IsDrained b = IsLine b.stdout × IsLine b.stderr

abbrev pub buffer : Buffers → Stream → Text
buffer b stream = buffered b (number stream)

IsDrained-set_buffered :
    (b : Buffers) (n : ℕ) (s : Text) → IsDrained b → IsLine s → IsDrained (set_buffered b n s)
IsDrained-set_buffered b n s d h = ground arith

IsLine-buffered : (b : Buffers) (n : ℕ) → IsDrained b → IsLine (buffered b n)
IsLine-buffered b n d = ground arith

-- A frame leaves its stream's buffer drained.
IsDrained-frame :
    (b : Buffers) (f : Frame)
    → IsDrained b
    → IsDrained (set_buffered b f.stream (remainder_from [] (filled b f)))
unfolding cut
IsDrained-frame b f d =
    IsDrained-set_buffered b f.stream _ d (cut-remainder_from [] (filled b f) refl)

abbrev after_frame : Buffers → Frame → Buffers
after_frame b f = set_buffered b f.stream (remainder_from [] (filled b f))

-- What a frame of one stream, and of the other, does to a stream's buffer
own_frame :
    (stream : Stream) (b : Buffers) (f : Frame) (p : Text)
    → IsDrained b
    → f.stream ≡ number stream
    → (remainder_from (buffer (after_frame b f) stream) p
        ≡ remainder_from (buffer b stream) (f.payload ++ p))
      × (complete_from [] (filled b f) ++ complete_from (buffer (after_frame b f) stream) p
          ≡ complete_from (buffer b stream) (f.payload ++ p))
own_frame stdout b f p d e = ground (
  arith,
  e,
  append-line b.stdout f.payload d.0,
  remainder_from-append b.stdout f.payload p,
  complete_from-append b.stdout f.payload p,
)
own_frame stderr b f p d e = ground (
  arith,
  e,
  append-line b.stderr f.payload d.1,
  remainder_from-append b.stderr f.payload p,
  complete_from-append b.stderr f.payload p,
)

other_frame :
    (stream : Stream) (b : Buffers) (f : Frame)
    → (f.stream == number stream) ≡ false
    → is_known f.stream ≡ true
    → buffer (after_frame b f) stream ≡ buffer b stream
other_frame stdout b f h k = ground arith
other_frame stderr b f h k = ground arith

known_number : (stream : Stream) → is_known (number stream) ≡ true
known_number stdout = refl
known_number stderr = refl

pub buffer-left_after :
    (stream : Stream) (b : Buffers) (frames : List Frame)
    → IsDrained b
    → buffer (left_after b frames) stream
      ≡ remainder_from (buffer b stream) (payloads (number stream) frames)
unfolding left_after remainder_from
buffer-left_after stream b [] d = refl
buffer-left_after stream b (f ∷ fs) d = elim (Bool-cases (f.stream == number stream)) [
  | inl e ↦
      let same = (==_iff f.stream (number stream)).0 e in
      rw (e, ap is_known same ∙ known_number stream)
        (buffer-left_after stream (after_frame b f) fs (IsDrained-frame b f d)
          ∙ (own_frame stream b f (payloads (number stream) fs) d same).0)
  | inr e ↦ elim (Bool-cases (is_known f.stream)) [
    | inl k ↦
        rw (e, k)
          (buffer-left_after stream (after_frame b f) fs (IsDrained-frame b f d)
            ∙ rw (other_frame stream b f e k) refl)
    | inr k ↦ rw (e, k) (buffer-left_after stream b fs d)
  ]
]

module _ (parse_time : Text → Option Time) (name id : Text) where
  abbrev records : ℕ → List Text → List RawLog
  records n lines = records_of parse_time name id (stream_name n) lines

  keep-own :
      (stream : Stream) (lines : List Text)
      → keep (of_stream stream) (records (number stream) lines) ≡ records (number stream) lines
  unfolding record_of
  keep-own stream [] = refl
  keep-own stream (l ∷ lines) =
      rw (text_eq_refl (stream_name (number stream)), keep-own stream lines) refl

  name-other :
      (stream : Stream) (n : ℕ)
      → (n == number stream) ≡ false
      → is_known n ≡ true
      → text_eq (stream_name n) (stream_name (number stream)) ≡ false
  unfolding text_eq stream_name
  name-other stdout n h k = ground arith
  name-other stderr n h k = ground arith

  keep-other :
      (stream : Stream) (n : ℕ) (lines : List Text)
      → (n == number stream) ≡ false
      → is_known n ≡ true
      → keep (of_stream stream) (records n lines) ≡ []
  unfolding record_of
  keep-other stream n [] h k = refl
  keep-other stream n (l ∷ lines) h k = rw (name-other stream n h k) (keep-other stream n lines h k)

  -- Of what the frames complete, a stream's records are those of its own lines.
  pub keep-sent_by :
      (stream : Stream) (b : Buffers) (frames : List Frame)
      → IsDrained b
      → keep (of_stream stream) (sent_by parse_time name id b frames)
        ≡ records_of parse_time name id
            (stream_name (number stream))
            (complete_from (buffer b stream) (payloads (number stream) frames))
  unfolding sent_by complete_from
  keep-sent_by stream b [] d = refl
  keep-sent_by stream b (f ∷ fs) d =
      let n = number stream in
      let lines = complete_from [] (filled b f) in
      let more = sent_by parse_time name id (after_frame b f) fs in
      let rest = payloads n fs in
      let next = keep-sent_by stream (after_frame b f) fs (IsDrained-frame b f d) in
      let parts = keep-append (of_stream stream) (records f.stream lines) more in
      elim (Bool-cases (f.stream == n)) [
        | inl e ↦
            let same = (==_iff f.stream n).0 e in
            rw (e, ap is_known same ∙ known_number stream)
              (parts
                ∙ ap
                    (λ m. keep (of_stream stream) (records m lines) ++ keep (of_stream stream) more)
                    same
                ∙ ap₂ (λ xs ys. xs ++ ys) (keep-own stream lines) next
                ∙ sym (
                    map-append (record_of parse_time name id (stream_name n)) lines
                      (complete_from (buffer (after_frame b f) stream) rest))
                ∙ ap (records n) (own_frame stream b f rest d same).1)
        | inr e ↦ elim (Bool-cases (is_known f.stream)) [
          | inl k ↦
              rw (e, k)
                (parts
                  ∙ ap (λ xs. xs ++ keep (of_stream stream) more)
                      (keep-other stream f.stream lines e k)
                  ∙ next
                  ∙ ap (λ t. records n (complete_from t rest)) (other_frame stream b f e k))
          | inr k ↦ rw (e, k) (keep-sent_by stream b fs d)
        ]
      ]
