-- ===== src/ContextBuf/Buffer.antt =====
-- internal/context/buffer.go: a ring of log entries. Entries are values here, so the deep copy that
-- `cloneEntry` makes is the entry itself; a mutex orders the calls.
pub mod Ring
use congraph_log_watcher.Common.{
  ℕ, zero, suc, ◌+◌, ◌-◌, ◌%◌, ◌==◌, ltb, min, List, [], ◌∷◌, get_or, set, replicate, Option, none,
  some, ℤ, pos, negsuc, pos_part, is_nonpositive, if◌then◌else◌, zero_time,
}
use congraph_log_watcher.Entry.{LogEntry}
use congraph_log_watcher.Entry.Level

pub record Buffer : Type 0 where
  pub entries : List LogEntry
  pub start : ℕ
  pub length : ℕ
  pub capacity : ℕ

-- The zero value, with which `make` fills the storage.
unfoldable pub zero_entry : LogEntry
zero_entry = record {
  container_id = [];
  container_name = [];
  timestamp = zero_time;
  stream = [];
  level = Level.LogLevel.unknown;
  message = [];
  fields = none;
  raw = [];
}

-- `none` is the error.
unfoldable pub new_buffer : ℤ → Option Buffer
new_buffer capacity =
    if is_nonpositive capacity
    then none
    else some (record {
      entries = replicate (pos_part capacity) zero_entry;
      start = 0;
      length = 0;
      capacity = pos_part capacity;
    })

-- `(*Buffer).Append` on a buffer that is not nil
unfoldable pub append : Buffer → LogEntry → Buffer
append b entry =
    if b.length == b.capacity
    then record b { entries = set b.entries b.start entry; start = (b.start + 1) % b.capacity }
    else record b {
      entries = set b.entries ((b.start + b.length) % b.capacity) entry;
      length = b.length + 1;
    }

-- The loop of `Last`: `count` entries from index `first` on, going round at `capacity`.
unfoldable pub read : List LogEntry → ℕ → ℕ → ℕ → List LogEntry
read entries capacity first zero = []
read entries capacity first (suc count) =
    get_or entries (first % capacity) zero_entry ∷ read entries capacity (first + 1) count

-- `(*Buffer).Last`; a nil buffer has no entries.
unfoldable pub last : Option Buffer → ℤ → List LogEntry
last none limit = []
last (some b) limit =
    if is_nonpositive limit
    then []
    else let n = if ltb b.length (pos_part limit) then b.length else pos_part limit in
      read b.entries b.capacity ((b.start + b.length - n) % b.capacity) n

unfoldable pub len : Option Buffer → ℕ
len none = 0
len (some b) = b.length
