-- ===== src/Config/Defaults.antt =====
-- internal/config/config.go: the default configuration, and the defaults of a rule.
use congraph_log_watcher.Common.{
  ℕ, zero, suc, ◌*◌, Bool, true, [], ◌∷◌, map, none, some, text, is_empty, ℤ, pos, negsuc, Duration,
  if◌then◌else◌,
}
use congraph_log_watcher.Config.{Config, RuleConfig, DedupConfig}

-- A duration of seconds, in nanoseconds
abbrev seconds : ℕ → Duration
seconds n = pos (n * 1000000000)

-- `RuleConfig.IsEnabled`
unfoldable pub is_enabled : RuleConfig → Bool
is_enabled r = elim r.enabled [ none ↦ true | some b ↦ b ]

unfoldable pub default_config : Config
default_config = record {
  log_level = text "info";
  docker = record { socket = text "unix:///var/run/docker.sock" };
  containers = [];
  parser = record { kind = text "graph-node" };
  levels = record {
    context = text "INFO" ∷ text "WARN" ∷ text "ERROR" ∷ text "CRITICAL" ∷ [];
    alert_candidates = text "WARN" ∷ text "ERROR" ∷ text "CRITICAL" ∷ [];
  };
  checkpoint = record {
    path = text "/var/lib/graph-log-watcher/state.db";
    replay_overlap = seconds 2;
    initial_replay_window = seconds 300;
    flush_interval = seconds 1;
    flush_events = pos 100;
  };
  aggregation = record { max_groups = pos 10000; group_ttl = seconds 86400; max_samples = pos 3 };
  context = record { buffer_lines = pos 100 };
  redaction = record { rules = [] };
  rules = [];
  alert = record { custom_tags = []; channels = [] };
  notifier = record {
    queue_size = pos 100;
    max_alerts_per_minute = pos 20;
    storm_cooldown = seconds 60;
  };
  metrics = record { listen = text ":9108" };
  health = record {
    docker_unavailable_after = seconds 60;
    all_containers_detached_after = seconds 60;
  };
  runtime = record { log_channel_size = pos 10000 };
  shutdown = record { timeout = seconds 10 };
}

abbrev default_mode : DedupConfig → DedupConfig
default_mode d = if is_empty d.mode then record d { mode = text "normalized" } else d

abbrev max_bytes_or_default : ℤ → ℤ
max_bytes_or_default (pos zero) = pos 16384
max_bytes_or_default (pos (suc n)) = pos (suc n)
max_bytes_or_default (negsuc n) = negsuc n

-- One round of the loop of `applyRuleDefaults`
unfoldable pub rule_defaults : RuleConfig → RuleConfig
rule_defaults r = record r {
  enabled = elim r.enabled [ none ↦ some true | some b ↦ some b ];
  dedup = default_mode r.dedup;
  context = record (r.context) { max_bytes = max_bytes_or_default r.context.max_bytes };
}

unfoldable pub apply_rule_defaults : Config → Config
apply_rule_defaults c = record c { rules = map rule_defaults c.rules }
