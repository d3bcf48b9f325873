-- ===== src/Docker/Frames.antt =====
-- internal/source/docker/source.go: a container's log stream, plain or multiplexed, as records.
--
-- A reader is the bytes that it will give and the error that it gives after them, `none` for io.EOF.
-- `room` is how many records the output takes before `emit` finds the context done instead. The map
-- of the two buffers is visited in an order of its own: `stderr_first`. Each loop runs on fuel;
-- `none` is fuel that has run out.
pub mod Lines
pub mod Drain
pub mod Encode
pub mod Decode
pub mod Streams
pub mod Delivered
pub mod Broken
pub mod Total
pub mod Plain
use congraph_log_watcher.Common.{
  ℕ, zero, suc, ◌+◌, ◌-◌, ◌*◌, ◌^◌, ◌==◌, ltb, Bool, true, false, List, [], ◌∷◌, ◌++◌, length, take,
  drop, get_or, Option, none, some, Text, text, is_nil, Time, zero_time, Result, ok, err,
  if◌then◌else◌, ◌||◌,
}
use congraph_log_watcher.Entry.{RawLog}

pub record Reader {ℓ} (E : Type ℓ) : Type ℓ where
  pub bytes : Text
  pub ends : Option E

pub data ReadError {ℓ} (E : Type ℓ) : Type ℓ where
  eof unexpected_eof : ReadError E
  failed : E → ReadError E

pub data DecodeError {ℓ} (E : Type ℓ) : Type ℓ where
  context_done : DecodeError E
  not_read : ReadError E → DecodeError E

-- `strings.Cut` at a byte: what is before it and what is after it
unfoldable pub cut : ℕ → Text → Option (Text × Text)
cut sep [] = none
cut sep (c ∷ s) =
    if c == sep
    then some ([], s)
    else elim (cut sep s) [ none ↦ none | some p ↦ some (c ∷ p.0, p.1) ]

-- `strings.TrimSuffix(s, "\r")`
unfoldable pub trim_return : Text → Text
trim_return [] = []
trim_return (c ∷ s) = if is_nil s then if c == 13 then [] else c ∷ [] else c ∷ trim_return s

unfoldable pub stream_name : ℕ → Text
stream_name stream = if stream == 2 then text "stderr" else text "stdout"

module _ {ℓ} {E : Type ℓ} where
  -- `io.ReadFull` of n bytes
  unfoldable pub read_full : Reader E → ℕ → Result (ReadError E) (Text × Reader E)
  read_full r n =
      if ltb (length r.bytes) n
      then elim r.ends [
        | some e ↦ err (failed e)
        | none ↦ if is_nil r.bytes then err eof else err unexpected_eof
      ]
      else ok (take n r.bytes, record r { bytes = drop n r.bytes })

-- A loop's records, the room left and the error it returns
pub record Run {ℓ} (E : Type ℓ) : Type ℓ where
  pub out : List RawLog
  pub room : ℕ
  pub error : Option (DecodeError E)

module _ {ℓ} {E : Type ℓ} where
  abbrev pub before_run : List RawLog → Run E → Run E
  before_run out r = record r { out = out ++ r.out }

  abbrev pub before_next : List RawLog → Option (Run E) → Option (Run E)
  before_next out none = none
  before_next out (some r) = some (before_run out r)

  abbrev pub no_more : ℕ → Run E
  no_more room = record { out = []; room = room; error = none }

  abbrev pub fails : ℕ → ReadError E → Run E
  fails room e = record { out = []; room = room; error = some (not_read e) }

-- `binary.BigEndian.Uint32(header[4:])`
unfoldable pub frame_length : Text → ℕ
frame_length header =
    get_or header 4 0 * 2 ^ 24
    + get_or header 5 0 * 2 ^ 16
    + get_or header 6 0 * 2 ^ 8
    + get_or header 7 0

pub record Buffers : Type 0 where
  pub stdout : Text
  pub stderr : Text

abbrev pub buffered : Buffers → ℕ → Text
buffered b stream = if stream == 1 then b.stdout else b.stderr

abbrev pub set_buffered : Buffers → ℕ → Text → Buffers
set_buffered b stream s = if stream == 1 then record b { stdout = s } else record b { stderr = s }

-- `time.Parse(time.RFC3339Nano, value)`
module _ (parse_time : Text → Option Time) where
  unfoldable pub parse_timestamp : Text → Time × Text
  unfolding cut
  parse_timestamp line = elim (cut 32 line) [
    | none ↦ (zero_time, line)
    | some p ↦ elim (parse_time p.0) [ none ↦ (zero_time, line) | some t ↦ (t, p.1) ]
  ]

  -- The record that `emit` sends, of a container's name and id
  unfoldable pub record_of : Text → Text → Text → Text → RawLog
  unfolding parse_timestamp
  record_of name id stream line = record {
    container_id = id;
    container_name = name;
    timestamp = (parse_timestamp line).0;
    stream = stream;
    raw = (parse_timestamp line).1;
  }

module _ {ℓ} {E : Type ℓ} (parse_time : Text → Option Time) (name id : Text) where
  unfoldable pub emit : Text → Text → ℕ → Run E
  emit stream line zero = record { out = []; room = zero; error = some context_done }
  emit stream line (suc room) = record {
    out = record_of parse_time name id stream line ∷ [];
    room = room;
    error = none;
  }

  -- The inner loop of `decodeMultiplexed`: the lines that a buffer holds, and the buffer after it
  unfoldable pub drain : ℕ → Text → Text → ℕ → Option (Text × Run E)
  unfolding cut emit trim_return
  drain zero stream buffer room = none
  drain (suc fuel) stream buffer room = elim (cut 10 buffer) [
    | none ↦ some (buffer, no_more room)
    | some p ↦
        let sent = emit stream (trim_return p.0) room in
        let rest = drain fuel stream p.1 sent.room in
        elim sent.error [
          | some e ↦ some (p.1, sent)
          | none ↦ elim rest [ none ↦ none | some q ↦ some (q.0, before_run sent.out q.1) ]
        ]
  ]

  -- What is left in a buffer at the end of the stream
  unfoldable pub flush_one : Text → Text → ℕ → Run E
  unfolding emit
  flush_one stream buffer room = if is_nil buffer then no_more room else emit stream buffer room

  unfoldable pub flush : Bool → Buffers → ℕ → Run E
  unfolding flush_one stream_name
  flush stderr_first b room =
      let first =
        if stderr_first
        then flush_one (stream_name 2) b.stderr room
        else flush_one (stream_name 1) b.stdout room in
      let second =
        if stderr_first
        then flush_one (stream_name 1) b.stdout first.room
        else flush_one (stream_name 2) b.stderr first.room in
      elim first.error [ some e ↦ first | none ↦ before_run first.out second ]

  -- The loop of `decodeMultiplexed`
  unfoldable pub decode_multiplexed : ℕ → Bool → Buffers → Reader E → ℕ → Option (Run E)
  unfolding read_full frame_length stream_name drain flush
  decode_multiplexed zero stderr_first b r room = none
  decode_multiplexed (suc fuel) stderr_first b r room = elim (read_full r 8) [
    | err eof ↦ some (flush stderr_first b room)
    | err unexpected_eof ↦ some (fails room unexpected_eof)
    | err (failed e) ↦ some (fails room (failed e))
    | ok (header, body) ↦ elim (read_full body (frame_length header)) [
      | err e ↦ some (fails room e)
      | ok (payload, rest) ↦
          let stream = get_or header 0 0 in
          let buffer = buffered b stream ++ payload in
          let skipped = decode_multiplexed fuel stderr_first b rest room in
          if stream == 1 || stream == 2
          then elim (drain (suc (length buffer)) (stream_name stream) buffer room) [
            | none ↦ none
            | some (buffer', sent) ↦
                let next =
                  decode_multiplexed fuel stderr_first (set_buffered b stream buffer') rest
                    sent.room in
                elim sent.error [ some e ↦ some sent | none ↦ before_next sent.out next ]
          ]
          else skipped
    ]
  ]

  -- The loop of `readLines` with the closure of `decodePlain`: `ReadString` gives what stands before
  -- the next newline, and that newline, or what is left with the reader's end.
  unfoldable pub read_lines : ℕ → Reader E → ℕ → Option (Run E)
  unfolding cut emit trim_return
  read_lines zero r room = none
  read_lines (suc fuel) r room = elim (cut 10 r.bytes) [
    | some p ↦
        let sent = emit (text "stdout") (trim_return p.0) room in
        let next = read_lines fuel (record r { bytes = p.1 }) sent.room in
        elim sent.error [ some e ↦ some sent | none ↦ before_next sent.out next ]
    | none ↦
        let sent =
          if is_nil r.bytes
          then no_more room
          else emit (text "stdout") (trim_return r.bytes) room in
        elim sent.error [
          | some e ↦ some sent
          | none ↦ elim r.ends [
            | none ↦ some sent
            | some e ↦ some (record sent { error = some (not_read (failed e)) })
          ]
        ]
  ]
