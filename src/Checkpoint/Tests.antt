-- ===== src/Checkpoint/Tests.antt =====
-- The replay gate and the store at concrete records, and a database that the store can stand on.
use congraph_log_watcher.Common.{
  ◌≡◌, refl, true, false, List, [], ◌∷◌, ◌++◌, none, some, pos, lebℤ, length, Text, text, text_eq,
  zero_time, ok, err, arith, if◌then◌else◌,
}
use congraph_log_watcher.Entry.{RawLog}
use congraph_log_watcher.Samples.{at_time, sample_raw}
use congraph_log_watcher.Samples.Memory.{memory}
use congraph_log_watcher.Checkpoint.Record.{ContainerCheckpoint}
use congraph_log_watcher.Checkpoint.Replay.{new_replay_gate}
use congraph_log_watcher.Checkpoint.Replay.Delivery.{
  deliver, Delivered, deliver-new_replay_gate, deliver-other_container,
}
use congraph_log_watcher.Checkpoint.Store.{
  Store, store_closed, validate, load, save, flush, end_close, begin_close, decoded, flush_locked,
}
use congraph_log_watcher.Checkpoint.Store.Reads.{IsOpen, load-save, end_close_lem}

-- The record's time is its hash.
abbrev hash : RawLog → Text
hash raw = raw.timestamp ∷ []

abbrev checkpoint : ContainerCheckpoint
checkpoint = record {
  container_name = text "node";
  container_id = text "c1";
  last_timestamp = at_time 3;
  last_event_hash = at_time 3 ∷ [];
}

abbrev stream : List RawLog
stream = sample_raw 2 ∷ sample_raw 3 ∷ sample_raw 4 ∷ []

deliver_example :
    Delivered hash checkpoint stream (deliver hash (new_replay_gate checkpoint) stream)
unfolding text_eq
deliver_example = deliver-new_replay_gate hash checkpoint stream (refl, (refl, (refl, tt)))

abbrev stranger : RawLog
stranger = record (sample_raw 1) { container_id = text "c2" }

other_container_example :
    deliver hash (new_replay_gate checkpoint) ((sample_raw 2 ∷ []) ++ stranger ∷ stream)
    ≡ stranger ∷ stream
unfolding new_replay_gate zero_time text_eq
other_container_example =
    deliver-other_container hash checkpoint (sample_raw 2 ∷ []) stream stranger refl (refl, tt) refl

abbrev opened : Store memory
opened = record {
  db = [];
  limit = pos 2;
  pending = (text "node", checkpoint) ∷ [];
  dirty = 1;
  last_err = none;
  closing = false;
  closed = false;
}

opened-IsOpen : IsOpen memory opened
opened-IsOpen = record {
  named = (refl, tt);
  counted = omega arith;
  not_closing = refl;
  not_closed = refl;
}

load-save_example :
    ((k : Text)
      → load memory (save memory opened checkpoint).0 k ≡ (
          if text_eq checkpoint.container_name k
          then ok (checkpoint, true)
          else load memory opened k))
    × IsOpen memory (save memory opened checkpoint).0
    × ((save memory opened checkpoint).1 ≡ none
        → lebℤ opened.limit (pos 0) ≡ false
        → lebℤ opened.limit (pos (length (save memory opened checkpoint).0.pending)) ≡ false)
unfolding validate zero_time
load-save_example = load-save memory opened checkpoint opened-IsOpen refl

end_close_example :
    ((k : Text)
      → decoded memory (memory.get (end_close memory opened).0.db k) ≡ load memory opened k)
    × ((k : Text) → load memory (end_close memory opened).0 k ≡ err store_closed)
    × ((flush memory (end_close memory opened).0).1 ≡ some store_closed)
    × ((begin_close memory (end_close memory opened).0).1 ≡ false)
unfolding end_close flush_locked
end_close_example = end_close_lem memory opened (refl, tt) refl refl
