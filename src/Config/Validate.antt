-- ===== src/Config/Validate.antt =====
-- internal/config/validate.go: the constraints on a configuration.
--
-- An error is the place that it names, and what is wrong there: the source prints both. The closure
-- `add` appends to one list, so that a function's errors are a list that its caller appends.
pub mod Values
pub mod Rules
pub mod Meaning
unfoldable pub use Values.*
unfoldable pub use Rules.*
use congraph_log_watcher.Common.{
  ℕ, suc, Bool, true, false, not, ◌&&◌, ◌||◌, List, [], ◌∷◌, ◌++◌, Option, none, some, Text, text,
  text_eq, has_text, is_nil, is_empty, ℤ, is_negative, is_nonpositive, Strings, Regexp, Result, ok,
  err, if◌then◌else◌,
}
use congraph_log_watcher.Entry.Level.{LogLevel, LevelError, parse_log_level, contains}
use congraph_log_watcher.Config.{
  Config, RuleConfig, RedactionRuleConfig, NormalizationRuleConfig, DedupConfig, RuleContextConfig,
  NotificationChannelConfig,
}

-- The parts of `Validate` on the checkpoint, on the sizes, and on the rest of the service
unfoldable pub validate_checkpoint : Strings → Config → List Issue
validate_checkpoint strings c =
    issue_if (is_blank strings c.checkpoint.path) (at_field (text "checkpoint.path")) empty
    ++ (issue_if (is_negative c.checkpoint.replay_overlap)
          (at_field (text "checkpoint.replay_overlap")) negative
        ++ (issue_if (is_negative c.checkpoint.initial_replay_window)
              (at_field (text "checkpoint.initial_replay_window")) negative
            ++ (issue_if (is_nonpositive c.checkpoint.flush_interval)
                  (at_field (text "checkpoint.flush_interval")) not_positive
                ++ issue_if (is_nonpositive c.checkpoint.flush_events)
                    (at_field (text "checkpoint.flush_events")) not_positive)))

unfoldable pub limit_parts : Config → List (List Issue)
limit_parts c =
    issue_if (is_nonpositive c.aggregation.max_groups) (at_field (text "aggregation.max_groups"))
      not_positive
    ∷ issue_if (is_nonpositive c.aggregation.group_ttl) (at_field (text "aggregation.group_ttl"))
        not_positive
    ∷ issue_if (is_nonpositive c.aggregation.max_samples)
        (at_field (text "aggregation.max_samples")) not_positive
    ∷ issue_if (is_nonpositive c.context.buffer_lines) (at_field (text "context.buffer_lines"))
        not_positive
    ∷ issue_if (is_nonpositive c.notifier.queue_size) (at_field (text "notifier.queue_size"))
        not_positive
    ∷ issue_if (is_nonpositive c.notifier.max_alerts_per_minute)
        (at_field (text "notifier.max_alerts_per_minute")) not_positive
    ∷ issue_if (is_negative c.notifier.storm_cooldown) (at_field (text "notifier.storm_cooldown"))
        negative
    ∷ []

unfoldable pub validate_limits : Config → List Issue
unfolding limit_parts
validate_limits c = concat (limit_parts c)

unfoldable pub validate_service : Strings → Config → List Issue
validate_service strings c =
    issue_if (is_blank strings c.metrics.listen) (at_field (text "metrics.listen")) empty
    ++ (issue_if (is_nonpositive c.health.docker_unavailable_after)
          (at_field (text "health.docker_unavailable_after")) not_positive
        ++ (issue_if (is_nonpositive c.health.all_containers_detached_after)
              (at_field (text "health.all_containers_detached_after")) not_positive
            ++ (issue_if (is_nonpositive c.runtime.log_channel_size)
                  (at_field (text "runtime.log_channel_size")) not_positive
                ++ issue_if (is_nonpositive c.shutdown.timeout) (at_field (text "shutdown.timeout"))
                    not_positive)))

module _ (strings : Strings) (regexp : Regexp) where
  open strings use {trim_space, to_lower}

  -- The issues of each part of a configuration
  unfoldable pub config_parts : Config → List (List Issue)
  unfolding validate_names validate_levels validate_regex_rules validate_rules validate_channels
      validate_checkpoint validate_limits validate_service
  config_parts c =
      issue_if (not (has_text allowed_log_levels (to_lower (trim_space c.log_level))))
        (at_field (text "log_level")) (unsupported c.log_level)
      ∷ issue_if (is_blank strings c.docker.socket) (at_field (text "docker.socket")) empty
      ∷ issue_if (not (text_eq c.parser.kind (text "graph-node"))) (at_field (text "parser.type"))
          (unsupported c.parser.kind)
      ∷ validate_names strings (at_field (text "containers")) c.containers true
      ∷ validate_levels strings (at_field (text "levels.context")) c.levels.context true
      ∷ validate_levels strings (at_field (text "levels.alert_candidates"))
          c.levels.alert_candidates true
      ∷ validate_checkpoint strings c
      ∷ validate_limits c
      ∷ validate_service strings c
      ∷ validate_regex_rules strings regexp (at_field (text "redaction.rules")) c.redaction.rules
      ∷ validate_rules strings regexp c.rules
      ∷ validate_channels strings c.alert.channels
      ∷ []

  -- `Validate`: no issues stand for the nil error.
  unfoldable pub validate : Config → List Issue
  unfolding config_parts
  validate c = concat (config_parts c)
