-- ===== src/Docker/Tests.antt =====
-- The log source at concrete streams, rounds and events.
use congraph_log_watcher.Common.{
  suc, ◌≤◌, ◌≡◌, refl, inl, true, false, List, [], ◌∷◌, ◌++◌, map, keep, length, All, arith, Option,
  none, some, Text, text, text_eq, Time, ok, err, pos, lookup, insert, ascii_strings,
}
use congraph_log_watcher.Entry.{RawLog}
use congraph_log_watcher.Samples.{at_time}
use congraph_log_watcher.Docker.{
  Container, Config, LogSource, new, wakes_of, normalize_name, normalized_names,
}
use congraph_log_watcher.Docker.Built.{IsSource, new-IsSource}
use congraph_log_watcher.Docker.Frames.{
  Run, unexpected_eof, not_read, read_full, read_lines, decode_multiplexed,
}
use congraph_log_watcher.Docker.Frames.Lines.{Sends}
use congraph_log_watcher.Docker.Frames.Encode.{Frame, IsFrame, encode, reader}
use congraph_log_watcher.Docker.Frames.Streams.{Stream, number, of_stream, payloads}
use congraph_log_watcher.Docker.Frames.Delivered.{
  empty, lines_of, records_in, decode_multiplexed-encode,
}
use congraph_log_watcher.Docker.Frames.Broken.{Breaks, decode_multiplexed_broken}
use congraph_log_watcher.Docker.Frames.Total.{decode_multiplexed-some}
use congraph_log_watcher.Docker.Frames.Plain.{plain_records, end_of, read_lines-Sends}
use congraph_log_watcher.Docker.Rounds.{Round, woken, stream_ended, run_container}
use congraph_log_watcher.Docker.Rounds.Backoff.{waits_of, expected_waits, run_container-waits}
use congraph_log_watcher.Docker.Rounds.Attachments.{is_orderly, run_container-orderly}

-- A value that is one digit is a time.
abbrev digit_time : Text → Option Time
digit_time (c ∷ []) = some (at_time c)
digit_time _ = none

-- "1 a", a newline and "b" on one stream, "c" on the other, and then the newline after "b"
abbrev frames : List Frame
frames =
    record { stream = 1; payload = text "1 a" ++ 13 ∷ 10 ∷ text "b" }
    ∷ record { stream = 2; payload = text "c" }
    ∷ record { stream = 1; payload = 10 ∷ [] }
    ∷ []

abbrev node : Text
node = text "node"

abbrev c1 : Text
c1 = text "c1"

frames-All : All IsFrame frames
frames-All = (omega arith, (omega arith, (omega arith, tt)))

decode_multiplexed-encode_example :
    (records : List RawLog) × (sent : Run Text) × (decode_multiplexed digit_time node c1
        (suc (length (encode frames)))
        true
        empty
        (reader (encode frames) none)
        5
      ≡ some sent)
    × Sends 5 records none sent
    × ((stream : Stream)
        → keep (of_stream stream) records ≡ records_in digit_time node c1 stream frames)
decode_multiplexed-encode_example =
    decode_multiplexed-encode digit_time node c1 frames true 5 frames-All

-- A header of one byte
abbrev tail : Text
tail = 1 ∷ []

tail-Breaks : Breaks {E = Text} tail none unexpected_eof
unfolding read_full
tail-Breaks = inl (refl, λ h. cc)

decode_multiplexed_broken_example :
    (records : List RawLog) × (sent : Run Text) × (decode_multiplexed digit_time node c1
        (suc (length (encode frames ++ tail)))
        false
        empty
        (reader (encode frames ++ tail) none)
        5
      ≡ some sent)
    × Sends 5 records (some (not_read unexpected_eof)) sent
    × ((stream : Stream)
        → keep (of_stream stream) records
          ≡ lines_of digit_time node c1 stream (payloads (number stream) frames))
decode_multiplexed_broken_example =
    decode_multiplexed_broken digit_time node c1 frames tail none unexpected_eof false 5 frames-All
      tail-Breaks

decode_multiplexed-some_example :
    (sent : Run Text) × (decode_multiplexed digit_time node c1 10 true empty
        (reader (text "no frame") none)
        5
      ≡ some sent)
decode_multiplexed-some_example =
    decode_multiplexed-some digit_time node c1 10 true empty (reader (text "no frame") none) 5
      (omega arith)

read_lines-Sends_example :
    (sent : Run Text) × (read_lines digit_time node c1 10
        (reader (text "1 a" ++ 10 ∷ text "b") none)
        5
      ≡ some sent)
    × Sends 5 (plain_records digit_time node c1 (text "1 a" ++ 10 ∷ text "b")) (end_of none) sent
read_lines-Sends_example =
    read_lines-Sends digit_time node c1 10 (reader (text "1 a" ++ 10 ∷ text "b") none) 5
      (omega arith)

abbrev container : Container
container = record { id = c1; names = text "/node" ∷ []; running = true; tty = false }

-- Docker does not answer twice, the container is found, and its stream ends.
abbrev rounds : List (Round Text)
rounds =
    record { list = err []; inspect = λ id. err []; ending = woken; goes_on = true }
    ∷ record { list = err []; inspect = λ id. err []; ending = woken; goes_on = true }
    ∷ record {
      list = ok (container ∷ []);
      inspect = λ id. ok container;
      ending = stream_ended;
      goes_on = true;
    }
    ∷ []

run_container-waits_example :
    (waits_of (run_container ascii_strings (pos 100) (pos 5000) node rounds)
      ≡ map pos (expected_waits ascii_strings 100 5000 node 0 rounds))
    × All (λ d. (100 ≤ d) × (d ≤ 5000)) (expected_waits ascii_strings 100 5000 node 0 rounds)
run_container-waits_example = run_container-waits ascii_strings 100 5000 node rounds (omega arith)

run_container-orderly_example :
    is_orderly node none (run_container ascii_strings (pos 100) (pos 5000) node rounds) ≡ true
run_container-orderly_example = run_container-orderly ascii_strings (pos 100) (pos 5000) node rounds

abbrev config : Config
config = record {
  has_api = true;
  containers = text "/node" ∷ text " other" ∷ [];
  has_output = true;
  replay_starts = [];
  initial_backoff = pos 0;
  max_backoff = pos 0;
  health_probe_interval = pos 0;
}

abbrev source : LogSource
source = record {
  containers = node ∷ text "other" ∷ [];
  replay_starts = [];
  initial = pos 100000000;
  max = pos 5000000000;
  probe_interval = pos 30000000000;
  wakes = (node, false) ∷ (text "other", false) ∷ [];
}

new-IsSource_example :
    (source.containers ≡ normalized_names ascii_strings config.containers) × IsSource source
unfolding new wakes_of normalize_name normalized_names text_eq lookup insert
new-IsSource_example = new-IsSource ascii_strings config source refl
