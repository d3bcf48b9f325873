-- ===== src/Runtime/Build.antt =====
-- internal/runtime/runtime.go: the parts of the pipeline are built from the configuration.
pub mod Valid
pub mod Loaded
use congraph_log_watcher.Common.{
  true, false, List, [], ◌∷◌, Option, none, some, Text, text_lt, Strings, Regexp, Result, ok, err,
  ◌>>=◌,
}
use congraph_log_watcher.Config.{
  Config as Settings, RedactionRuleConfig, RuleConfig, AlertConfig, NotificationChannelConfig,
}
use congraph_log_watcher.Redact.{RedactionRule, RedactError, Redactor, new_from}
use congraph_log_watcher.Rule.{Rule}
use congraph_log_watcher.Rule.Compile.{CompileError, compile_rule}
use congraph_log_watcher.Router.{Router, RouterError, new_from_names}
use congraph_log_watcher.ContextBuf.Store
use congraph_log_watcher.ContextBuf.Store.{new_store}
use congraph_log_watcher.Aggregate
use congraph_log_watcher.Aggregate.{Aggregator, AggregateError}
use congraph_log_watcher.Notify.Worker
use congraph_log_watcher.Notify.Worker.{Worker, WorkerError, new_worker}

pub data BuildError : Type 0 where
  bad_redaction : RedactError → BuildError
  bad_rule : CompileError → BuildError
  bad_levels : RouterError → BuildError
  bad_capacity : BuildError
  bad_aggregation : AggregateError → BuildError

abbrev pub or_else {ℓ κ} :
    {E : Type ℓ} {A : Type κ} → (E → BuildError) → Result E A → Result BuildError A
or_else f (ok a) = ok a
or_else f (err e) = err (f e)

abbrev pub or_capacity {ℓ} : {A : Type ℓ} → Option A → Result BuildError A
or_capacity none = err bad_capacity
or_capacity (some a) = ok a

unfoldable pub redaction_rules : List RedactionRuleConfig → List RedactionRule
redaction_rules [] = []
redaction_rules (r ∷ rs) = record { pattern = r.pattern; replace = r.replace } ∷ redaction_rules rs

module _ (strings : Strings) (regexp : Regexp) where
  open regexp use {Pattern}

  unfoldable pub compile_rules : List RuleConfig → Result CompileError (List (Rule Pattern))
  compile_rules [] = ok []
  compile_rules (r ∷ rs) =
      compile_rule strings regexp r >>= λ x. compile_rules rs >>= λ xs. ok (x ∷ xs)

  pub record Parts : Type 0 where
    pub redactor : Redactor regexp
    pub rules : List (Rule Pattern)
    pub gate : Router
    pub contexts : Store.Store
    pub aggregator : Aggregator

  -- `buildPipelineParts`
  unfoldable pub build_pipeline_parts : Settings → Result BuildError Parts
  unfolding redaction_rules compile_rules
  build_pipeline_parts cfg = do
    redactor ← or_else bad_redaction (new_from regexp 0 (redaction_rules cfg.redaction.rules))
    compiled ← or_else bad_rule (compile_rules cfg.rules)
    gate ←
        or_else bad_levels (new_from_names strings cfg.levels.context cfg.levels.alert_candidates)
    contexts ← or_capacity (new_store cfg.context.buffer_lines)
    aggregator ← or_else bad_aggregation (
        Aggregate.new (record {
          max_groups = cfg.aggregation.max_groups;
          group_ttl = cfg.aggregation.group_ttl;
          max_samples = cfg.aggregation.max_samples;
        }))
    ok (record {
      redactor = redactor;
      rules = compiled;
      gate = gate;
      contexts = contexts;
      aggregator = aggregator;
    })

-- `sort.Strings` on the channels' IDs, each with its channel
unfoldable pub insert_channel :
    Text × NotificationChannelConfig
    → List (Text × NotificationChannelConfig)
    → List (Text × NotificationChannelConfig)
insert_channel c [] = c ∷ []
insert_channel c (d ∷ ds) = elim (text_lt d.0 c.0) [
  | true ↦ d ∷ insert_channel c ds
  | false ↦ c ∷ d ∷ ds
]

unfoldable pub sort_channels :
    List (Text × NotificationChannelConfig) → List (Text × NotificationChannelConfig)
unfolding insert_channel
sort_channels [] = []
sort_channels (c ∷ cs) = insert_channel c (sort_channels cs)

-- `NewDingTalkNotifier` (Notify/DingTalk) is a parameter of `buildNotifier`.
module _ {Notifier Error : Type 0}
    (new_notifier : Text → NotificationChannelConfig → List Text → Result Error Notifier) where
  pub data NotifierError : Type 0 where
    bad_channel : Error → NotifierError
    bad_worker : WorkerError → NotifierError

  unfoldable pub new_notifiers :
      List (Text × NotificationChannelConfig) → List Text → Result Error (List Notifier)
  new_notifiers [] tags = ok []
  new_notifiers ((id, channel) ∷ channels) tags =
      new_notifier id channel tags >>= λ n. new_notifiers channels tags >>= λ ns. ok (n ∷ ns)

  abbrev worker_of : Settings → Result Error (List Notifier) → Result NotifierError Worker
  worker_of cfg (err e) = err (bad_channel e)
  worker_of cfg (ok notifiers) =
      elim (new_worker (record {
        notifier = some notifiers;
        queue_size = cfg.notifier.queue_size;
        max_alerts_per_minute = cfg.notifier.max_alerts_per_minute;
        storm_cooldown = cfg.notifier.storm_cooldown;
        retry_delays = [];
      })) [ ok w ↦ ok w | err e ↦ err (bad_worker e) ]

  -- `buildNotifier`
  unfoldable pub build_notifier : Settings → Result NotifierError Worker
  unfolding sort_channels new_notifiers
  build_notifier cfg =
      worker_of cfg (new_notifiers (sort_channels cfg.alert.channels) cfg.alert.custom_tags)
