-- ===== src/Config.antt =====
-- internal/config/config.go: the configuration. A pointer or a map that can be nil is an option; a
-- map is an association list; a duration of the package is a Go duration.
pub mod Defaults
pub mod Validate
pub mod Load
use congraph_log_watcher.Common.{Bool, List, Option, Text, ℤ, Duration}

pub record DockerConfig : Type 0 where
  pub socket : Text

pub record ParserConfig : Type 0 where
  pub kind : Text

pub record LevelsConfig : Type 0 where
  pub context : List Text
  pub alert_candidates : List Text

pub record CheckpointConfig : Type 0 where
  pub path : Text
  pub replay_overlap : Duration
  pub initial_replay_window : Duration
  pub flush_interval : Duration
  pub flush_events : ℤ

pub record AggregationConfig : Type 0 where
  pub max_groups : ℤ
  pub group_ttl : Duration
  pub max_samples : ℤ

pub record ContextConfig : Type 0 where
  pub buffer_lines : ℤ

pub record RedactionRuleConfig : Type 0 where
  pub pattern : Text
  pub replace : Text

pub record RedactionConfig : Type 0 where
  pub rules : List RedactionRuleConfig

pub record MatchConfig : Type 0 where
  pub levels : List Text
  pub pattern : Text
  pub excludes : List Text
  pub components : List Text
  pub field_equals : Option (List (Text × Text))

pub record NormalizationRuleConfig : Type 0 where
  pub pattern : Text
  pub replace : Text

pub record DedupConfig : Type 0 where
  pub mode : Text
  pub fields : List Text
  pub normalize : List NormalizationRuleConfig

pub record RuleContextConfig : Type 0 where
  pub before : ℤ
  pub after : ℤ
  pub after_wait : Duration
  pub max_bytes : ℤ

pub record RuleConfig : Type 0 where
  pub id : Text
  pub enabled : Option Bool
  pub severity : Text
  pub containers : List Text
  pub match_config : MatchConfig
  pub threshold : ℤ
  pub window : Duration
  pub cooldown : Duration
  pub dedup : DedupConfig
  pub context : RuleContextConfig
  pub stop_on_match : Bool

pub record NotificationChannelConfig : Type 0 where
  pub platform : Text
  pub webhook : Text
  pub secret : Text
  pub at_mobiles : List Text
  pub is_at_all : Bool

pub record AlertConfig : Type 0 where
  pub custom_tags : List Text
  pub channels : List (Text × NotificationChannelConfig)

pub record NotifierConfig : Type 0 where
  pub queue_size : ℤ
  pub max_alerts_per_minute : ℤ
  pub storm_cooldown : Duration

pub record MetricsConfig : Type 0 where
  pub listen : Text

pub record HealthConfig : Type 0 where
  pub docker_unavailable_after : Duration
  pub all_containers_detached_after : Duration

pub record RuntimeConfig : Type 0 where
  pub log_channel_size : ℤ

pub record ShutdownConfig : Type 0 where
  pub timeout : Duration

pub record Config : Type 0 where
  pub log_level : Text
  pub docker : DockerConfig
  pub containers : List Text
  pub parser : ParserConfig
  pub levels : LevelsConfig
  pub checkpoint : CheckpointConfig
  pub aggregation : AggregationConfig
  pub context : ContextConfig
  pub redaction : RedactionConfig
  pub rules : List RuleConfig
  pub alert : AlertConfig
  pub notifier : NotifierConfig
  pub metrics : MetricsConfig
  pub health : HealthConfig
  pub runtime : RuntimeConfig
  pub shutdown : ShutdownConfig
