-- ===== src/ContextBuf/Tests.antt =====
-- The theorems on context at concrete entries.
use congraph_log_watcher.Common.{
  ℕ, suc, ◌+◌, ◌≤◌, ◌<◌, min, ◌≡◌, refl, ◌⊎◌, true, false, List, [], ◌∷◌, ◌++◌, map, reverse,
  length, take, take_last, All, none, some, pos, pos_part, is_nonpositive, text, arith,
  if◌then◌else◌,
}
use congraph_log_watcher.Entry.{LogEntry, raw_or_message}
use congraph_log_watcher.Samples.{sample_entry}
use congraph_log_watcher.ContextBuf.Buffer.{Buffer, new_buffer, last, len}
use congraph_log_watcher.ContextBuf.Buffer.Ring.Latest.{append_all, last-append_all}
use congraph_log_watcher.ContextBuf.Capture.{Capture, lines, is_utf8_boundary}
use congraph_log_watcher.ContextBuf.Capture.Lines.{
  line_bytes, lines_bytes, lines_window, lines_oversized,
}
use congraph_log_watcher.ContextBuf.Store.{new_store, last as last_of}
use congraph_log_watcher.ContextBuf.Store.Histories.{
  Call, appends, removes, apply_all, history, last-apply_all,
}
use congraph_log_watcher.ContextBuf.Collector.{
  System, Reach, here, next, adds, finishes, add, finish, new, new_collector,
}
use congraph_log_watcher.ContextBuf.Collector.Once.{done-Reach}

abbrev three : List LogEntry
three = sample_entry 1 ∷ sample_entry 2 ∷ sample_entry 3 ∷ []

last-append_all_example :
    ((pos_part (pos 2) ≡ 0) × (new_buffer (pos 2) ≡ none))
    ⊎ ((b : Buffer) × (new_buffer (pos 2) ≡ some b)
        × (last (some (append_all b three)) (pos 5)
            ≡ take_last (min (pos_part (pos 5)) (pos_part (pos 2))) three)
        × (len (some (append_all b three)) ≡ min (pos_part (pos 2)) (length three)))
last-append_all_example = last-append_all (pos 2) three (pos 5)

abbrev captured : Capture
captured = record {
  before = three;
  trigger = sample_entry 4;
  after = sample_entry 5 ∷ [];
  timed_out = false;
}

lines_bytes_example :
    ((is_nonpositive (pos 30) ≡ false)
      × (0 < line_bytes (lines captured (pos 30)))
      × (line_bytes (lines captured (pos 30)) ≤ suc (pos_part (pos 30))))
    ⊎ ((is_nonpositive (pos 30) ≡ true) × (lines captured (pos 30) ≡ []))
lines_bytes_example = lines_bytes captured (pos 30)

lines_oversized_example :
    (k : ℕ) × (lines captured (pos 4) ≡ take k (raw_or_message captured.trigger) ∷ [])
    × (k ≤ 4)
    × ((k ≡ 0) ⊎ (is_utf8_boundary (raw_or_message captured.trigger) k ≡ true))
    × ((j : ℕ) → k < j → j ≤ 4 → is_utf8_boundary (raw_or_message captured.trigger) j ≡ false)
unfolding raw_or_message
lines_oversized_example = lines_oversized captured 4 (omega arith) (omega arith)

abbrev added : System
added = record {
  collector = (add (new_collector three (sample_entry 4) (pos 1)) (sample_entry 5)).0;
  calls = false ∷ [];
  sends = [];
  done = [];
}

abbrev finished : System
finished = record {
  collector = (finish added.collector false).0;
  calls = [];
  sends = added.collector.capture ∷ [];
  done = [];
}

finished-Reach : Reach (new three (sample_entry 4) (pos 1)) finished
unfolding new add finish
finished-Reach =
    next (next here (adds (new three (sample_entry 4) (pos 1)) (sample_entry 5)))
      (finishes added [] [] false refl)

done-Reach_example :
    (length finished.sends + length finished.done ≡ (if finished.collector.finished then 1 else 0))
    × All (λ result. result ≡ finished.collector.capture) (finished.sends ++ finished.done)
done-Reach_example = done-Reach three (sample_entry 4) (pos 1) {t = finished} finished-Reach

abbrev later : System
later = record finished { collector = (add finished.collector (sample_entry 6)).0 }

lines_window_example :
    (far : List LogEntry) × (near : List LogEntry) × (next : List LogEntry) × (rest : List LogEntry)
    × (captured.before ≡ far ++ near)
    × (captured.after ≡ next ++ rest)
    × (lines captured (pos 30)
        ≡ map raw_or_message near ++ (raw_or_message captured.trigger ∷ map raw_or_message next))
    × ((y : LogEntry) (zs : List LogEntry)
        → reverse far ≡ y ∷ zs
        → 30
          < length (raw_or_message captured.trigger)
            + line_bytes (map raw_or_message near)
            + suc (length (raw_or_message y)))
    × ((y : LogEntry) (zs : List LogEntry)
        → rest ≡ y ∷ zs
        → 30
          < length (raw_or_message captured.trigger)
            + line_bytes (map raw_or_message near)
            + line_bytes (map raw_or_message next)
            + suc (length (raw_or_message y)))
unfolding raw_or_message
lines_window_example = lines_window captured 30 (omega arith)

abbrev calls : List Call
calls =
    appends (sample_entry 3)
    ∷ appends (sample_entry 2)
    ∷ removes (text "node")
    ∷ appends (sample_entry 1)
    ∷ []

last-apply_all_example :
    last_of (apply_all (record { capacity = pos 2; buffers = [] }) calls) (text "node") (pos 5)
    ≡ take_last (min (pos_part (pos 5)) (pos_part (pos 2))) (history (text "node") calls)
unfolding new_store
last-apply_all_example =
    last-apply_all (pos 2) {s = record { capacity = pos 2; buffers = [] }} calls (text "node")
      (pos 5) refl
