-- ===== src/Entry.antt =====
-- internal/logentry/entry.go: one log record, raw and parsed.
pub mod Level
mod Tests
use congraph_log_watcher.Common.{
  Text, Time, List, ◌∷◌, Option, none, some, lookup, is_empty, if◌then◌else◌, [],
}
use Level.{LogLevel}

pub record RawLog : Type 0 where
  pub container_id : Text
  pub container_name : Text
  pub timestamp : Time
  pub stream : Text
  pub raw : Text

pub record LogEntry : Type 0 where
  pub container_id : Text
  pub container_name : Text
  pub timestamp : Time
  pub stream : Text
  pub level : LogLevel
  pub message : Text
  -- `none` is the nil map
  pub fields : Option (List (Text × Text))
  pub raw : Text

-- `entry.Fields[key]`: a missing key, and a nil map, give the empty string.
unfoldable pub field_value : LogEntry → Text → Text
field_value e key = elim e.fields [
  | none ↦ []
  | some m ↦ elim (lookup key m) [ none ↦ [] | some v ↦ v ]
]

-- `entry.Raw`, or the message where that is empty: `sampleOf`, `lineFor` and `rawIdentity`.
unfoldable pub raw_or_message : LogEntry → Text
raw_or_message e = if is_empty e.raw then e.message else e.raw

-- `containerKey` of the packages contextbuf and processor
unfoldable pub container_key : LogEntry → Text
container_key e = if is_empty e.container_name then e.container_id else e.container_name
