-- ===== src/Notify/DingTalk.antt =====
-- internal/notify/dingtalk.go: the adapter of the DingTalk channel.
--
-- The formatter and the channel are those of go-conflux-util, and parameters, as is the printing of
-- numbers and durations.
use congraph_log_watcher.Common.{
  ℕ, ltb, Bool, true, false, ◌||◌, List, [], ◌∷◌, ◌++◌, Text, text, text_eq, is_empty, is_nil,
  Duration, Strings, Result, ok, err, if◌then◌else◌,
}
use congraph_log_watcher.Alert.{Alert}

pub record DingTalkConfig : Type 0 where
  pub id : Text
  pub webhook : Text
  pub secret : Text
  pub at_mobiles : List Text
  pub is_at_all : Bool
  pub custom_tags : List Text

pub data Severity : Type 0 where
  severity_low severity_medium severity_high severity_critical : Severity

pub record Notification : Type 0 where
  pub title : Text
  pub content : Text
  pub severity : Severity

pub data DingTalkError (E : Type 0) : Type 0 where
  empty_id_or_webhook : DingTalkError E
  bad_formatter : E → DingTalkError E

-- `strings.Join(lines, sep)`
unfoldable pub join_with : Text → List Text → Text
join_with sep [] = []
join_with sep (line ∷ lines) = if is_nil lines then line else line ++ (sep ++ join_with sep lines)

-- The lines of an optional part
abbrev given : Bool → Text → List Text
given true line = line ∷ []
given false line = []

-- `NewDingTalkNotifier`, with `NewDingtalkMarkdownFormatter` and `NewDingTalkChannel`
unfoldable pub new_dingtalk_notifier :
    {E Formatter Channel : Type 0}
    → (List Text → List Text → Result E Formatter)
    → (DingTalkConfig → Formatter → Channel)
    → DingTalkConfig
    → Result (DingTalkError E) Channel
new_dingtalk_notifier new_formatter new_channel c =
    if is_empty c.id || is_empty c.webhook
    then err empty_id_or_webhook
    else elim (new_formatter c.custom_tags c.at_mobiles) [
      | err e ↦ err (bad_formatter e)
      | ok formatter ↦ ok (new_channel c formatter)
    ]

module _ (strings : Strings) (decimal : ℕ → Text) (duration_string : Duration → Text) where
  open strings use {to_upper, to_lower}

  unfoldable pub format_markdown : Alert → Text
  unfolding join_with
  format_markdown alert =
      let newline = 10 ∷ [] in
      join_with (10 ∷ 10 ∷ []) (
        (text "**Node:** " ++ alert.container_name)
        ∷ (text "**Rule:** " ++ alert.rule_id)
        ∷ ((if is_empty alert.component
              then []
              else (text "**Component:** " ++ alert.component) ∷ [])
            ++ ((if is_empty alert.subgraph_id
                  then []
                  else (text "**Subgraph:** " ++ alert.subgraph_id) ∷ [])
                ++ ((text "**Count:** "
                      ++ (decimal alert.window_count
                          ++ (text " / " ++ duration_string alert.window)))
                    ∷ (text "**Total:** " ++ decimal alert.total_count)
                    ∷ (given (ltb 0 alert.suppressed_count) (
                          text "**Suppressed since previous alert:** "
                          ++ decimal alert.suppressed_count)
                        ++ ((if is_nil alert.samples
                              then []
                              else (text "**Samples:**"
                                  ++ (newline ++ join_with newline alert.samples))
                                ∷ [])
                            ++ ((if is_nil alert.context
                                  then []
                                  else (text "**Context:**"
                                      ++ (newline
                                          ++ (text "```"
                                              ++ (newline
                                                  ++ (join_with newline alert.context
                                                      ++ (newline ++ text "```"))))))
                                    ∷ [])
                                ++ (text "**Fingerprint:** `" ++ (alert.fingerprint ++ text "`"))
                                  ∷ [])))))))

  unfoldable pub map_severity : Text → Severity
  map_severity value =
      let v = to_lower value in
      if text_eq v (text "low")
      then severity_low
      else if text_eq v (text "medium")
      then severity_medium
      else if text_eq v (text "critical")
      then severity_critical
      else severity_high

  -- What `Notify` sends
  unfoldable pub notification_of : Alert → Notification
  unfolding format_markdown map_severity
  notification_of alert = record {
    title = text "[" ++ (to_upper alert.severity ++ text "] graph-node log alert");
    content = format_markdown alert;
    severity = map_severity alert.severity;
  }
