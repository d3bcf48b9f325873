-- ===== src/Samples.antt =====
-- Concrete data that the tests share.
pub mod Memory
use congraph_log_watcher.Common.{
  if◌then◌else◌, ℕ, ◌+◌, ◌*◌, ◌^◌, true, [], ◌∷◌, none, some, Text, text, text_eq, Time, pos,
  Regexp,
}
use congraph_log_watcher.Entry.{RawLog, LogEntry}
use congraph_log_watcher.Entry.Level.{error}
use congraph_log_watcher.Alert.{Alert}
use congraph_log_watcher.Rule.{Rule, exact}
use congraph_log_watcher.Aggregate.Incident.{Event}

-- Nanoseconds after the zero time
abbrev pub at_time : ℕ → Time
at_time n = 2 ^ 63 * 1000000000 + n

abbrev pub sample_raw : ℕ → RawLog
sample_raw n = record {
  container_id = text "c1";
  container_name = text "node";
  timestamp = at_time n;
  stream = text "stdout";
  raw = text "ERROR boom";
}

abbrev pub sample_entry : ℕ → LogEntry
sample_entry n = record {
  container_id = text "c1";
  container_name = text "node";
  timestamp = at_time n;
  stream = text "stdout";
  level = error;
  message = text "boom";
  fields = none;
  raw = text "ERROR boom";
}

-- A pattern is a text, and matches that text alone.
abbrev pub plain_regexp : Regexp
plain_regexp = record {
  Pattern = Text;
  compile = λ p. some p;
  match_string = λ p t. text_eq p t;
  replace_all_string = λ p t r. if text_eq p t then r else t;
  find_string_submatch = λ p t. none;
}

abbrev pub sample_rule : Rule Text
sample_rule = record {
  id = text "r";
  enabled = true;
  severity = text "high";
  threshold = pos 2;
  window = pos 10;
  cooldown = pos 20;
  stop_on_match = true;
  dedup = record { mode = exact; fields = []; normalizer = [] };
  context = record { before = pos 1; after = pos 0; after_wait = pos 0; max_bytes = pos 100 };
  containers = [];
  levels = error ∷ [];
  components = [];
  field_equals = [];
  pattern = none;
  excludes = [];
}

abbrev pub sample_event : ℕ → Event Text
sample_event n = record { rule = sample_rule; fingerprint = text "f"; entry = sample_entry n }

abbrev pub sample_alert : Alert
sample_alert = record {
  rule_id = text "r";
  severity = text "high";
  container_name = text "node";
  container_id = text "c1";
  level = error;
  component = [];
  subgraph_id = [];
  fingerprint = text "f";
  first_seen = at_time 1;
  last_seen = at_time 2;
  window = pos 10;
  window_count = 2;
  total_count = 2;
  suppressed_count = 0;
  samples = [];
  context = [];
}
