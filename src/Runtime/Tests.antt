-- ===== src/Runtime/Tests.antt =====
-- A configuration that is built, and a record that passes.
use congraph_log_watcher.Common.{
  ◌≡◌, Result, Option, List, some, refl, false, [], ◌∷◌, All, none, Text, text, text_eq, pos, ok,
  ascii_strings, arith,
}
use congraph_log_watcher.Samples.{at_time, sample_raw, sample_entry, sample_rule, plain_regexp}
use congraph_log_watcher.Samples.Memory.{memory}
use congraph_log_watcher.Entry.{RawLog, LogEntry}
use congraph_log_watcher.Entry.Level.{error, parse_log_level, level_eq}
use congraph_log_watcher.Health.{new_health}
use congraph_log_watcher.Checkpoint.Store.{load}
use congraph_log_watcher.Runtime.Records.{Watcher, filter, process_raw}
use congraph_log_watcher.Checkpoint.Record.{ContainerCheckpoint}
use congraph_log_watcher.Runtime.Records.Kept.{IsRunning, latest, process_raw_lem}
use congraph_log_watcher.Config.{Config as Settings, RuleConfig, NotificationChannelConfig}
use congraph_log_watcher.Config.Defaults.{default_config, apply_rule_defaults, rule_defaults}
use congraph_log_watcher.Processor.Failing.{IsSound}
use congraph_log_watcher.Aggregate.Invariant.{IsValid}
use congraph_log_watcher.Runtime.Build.{Parts, build_pipeline_parts}
use congraph_log_watcher.Runtime.Build.Loaded.{loaded_builds}
use congraph_log_watcher.Config.Load.{Placeholder, Extra, end_of_text, load as load_config}

abbrev rule : RuleConfig
rule = record {
  id = text "panic";
  enabled = none;
  severity = text "high";
  containers = [];
  match_config = record {
    levels = text "ERROR" ∷ [];
    pattern = text "panic";
    excludes = [];
    components = [];
    field_equals = none;
  };
  threshold = pos 1;
  window = pos 60;
  cooldown = pos 60;
  dedup = record { mode = text "exact"; fields = []; normalize = [] };
  context = record { before = pos 2; after = pos 0; after_wait = pos 0; max_bytes = pos 100 };
  stop_on_match = false;
}

abbrev channel : NotificationChannelConfig
channel = record {
  platform = text "dingtalk";
  webhook = text "https://example.org";
  secret = text "s";
  at_mobiles = [];
  is_at_all = false;
}

abbrev settings : Settings
unfolding default_config
settings = record default_config {
  containers = text "node" ∷ [];
  rules = rule ∷ [];
  alert = record { custom_tags = []; channels = (text "ops", channel) ∷ [] };
}

-- A text with one placeholder, which the decoder takes for the settings
abbrev file : Text → Result Text Text
file path = ok (text "${A}")

abbrev find_placeholders : Text → List Placeholder
find_placeholders t = record { start = 0; end = 4; name_start = 2; name_end = 3 } ∷ []

abbrev environment : Text → Option Text
environment name = some name

abbrev decode : Settings → Text → Result Text (Settings × Extra Text)
decode d t = ok (settings, end_of_text)

abbrev loaded : Settings
unfolding apply_rule_defaults
loaded = apply_rule_defaults settings

loaded_builds_example :
    (parts : Parts ascii_strings plain_regexp) × (build_pipeline_parts ascii_strings plain_regexp
        loaded
      ≡ ok parts)
    × All IsSound parts.rules
    × IsValid parts.aggregator
unfolding load_config default_config text_eq parse_log_level level_eq rule_defaults
loaded_builds_example =
    loaded_builds find_placeholders environment ascii_strings plain_regexp file decode [] loaded
      refl

abbrev digest : Text → Text
digest t = 0 ∷ t

abbrev parse : RawLog → LogEntry
parse raw = record (sample_entry 1) { timestamp = raw.timestamp; raw = raw.raw }

abbrev hash : RawLog → Text
hash raw = raw.timestamp ∷ []

abbrev third : ContainerCheckpoint
third = record {
  container_name = text "node";
  container_id = text "c1";
  last_timestamp = at_time 3;
  last_event_hash = at_time 3 ∷ [];
}

abbrev watcher : Watcher plain_regexp digest parse hash memory
watcher = record {
  processor = record {
    redactor = none;
    context = record { capacity = pos 5; buffers = [] };
    router = record { context_levels = []; alert_candidates = error ∷ [] };
    rules = sample_rule ∷ [];
    aggregator = record { max_groups = 4; group_ttl = pos 100; max_samples = 2; groups = [] };
    pending = [];
    closed = false;
  };
  store = record {
    db = [];
    limit = pos 2;
    pending = [];
    dirty = 0;
    last_err = none;
    closing = false;
    closed = false;
  };
  health = new_health (text "node" ∷ []) (pos 5) (pos 5) (at_time 1);
  overlap = pos 2;
  initial_replay_window = pos 5;
  gates = [];
  ids = [];
  initial_starts = [];
}

watcher-IsRunning : IsRunning plain_regexp digest parse hash memory watcher
watcher-IsRunning = record {
  open_processor = refl;
  sound = (record { threshold = refl; window = refl; cooldown = refl }, tt);
  open_store = record { named = tt; counted = omega arith; not_closing = refl; not_closed = refl };
}

process_raw_example :
    let after =
      process_raw plain_regexp digest parse hash memory (λ i j. at_time j) watcher (sample_raw 3) in
    (after.2 ≡ none)
    × IsRunning plain_regexp digest parse hash memory after.0
    × ((k : Text)
        → load memory after.0.store k
          ≡ latest plain_regexp digest parse hash memory k
              (filter hash watcher.gates (sample_raw 3)).1
              (load memory watcher.store k))
process_raw_example =
    process_raw_lem plain_regexp digest parse hash memory (λ i j. at_time j) watcher (sample_raw 3)
      (λ t. refl) watcher-IsRunning

-- The watcher after a checkpoint of the third record
abbrev resumed : Watcher plain_regexp digest parse hash memory
resumed = record watcher {
  store = record (watcher.store) { pending = (text "node", third) ∷ []; dirty = 1 };
}

abbrev log : List RawLog
log = sample_raw 2 ∷ sample_raw 3 ∷ sample_raw 4 ∷ []
