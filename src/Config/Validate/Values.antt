-- ===== src/Config/Validate/Values.antt =====
-- internal/config/validate.go: issues, and the checks of lists of names, levels and channels.
use congraph_log_watcher.Common.{
  ℕ, suc, Bool, true, false, not, ◌&&◌, List, [], ◌∷◌, ◌++◌, Option, none, some, Text, text,
  text_eq, has_text, is_nil, is_empty, Strings, Result, ok, err, if◌then◌else◌,
}
use congraph_log_watcher.Entry.Level.{LogLevel, LevelError, parse_log_level, contains}
use congraph_log_watcher.Config.{NotificationChannelConfig}

-- `item p i` is printed `p[i]`, `entry p k` is `p["k"]`, and `under p t` is `p.t`.
pub data Place : Type 0 where
  at_field : Text → Place
  item : Place → ℕ → Place
  entry : Place → Text → Place
  under : Place → Text → Place

pub data Fault : Type 0 where
  missing empty negative not_positive invalid_regexp : Fault
  unsupported duplicate : Text → Fault
  bad_level : LevelError → Fault
  duplicate_level : LogLevel → Fault

abbrev pub Issue : Type 0
Issue = Place × Fault

abbrev pub issue_if : Bool → Place → Fault → List Issue
issue_if true place fault = (place, fault) ∷ []
issue_if false place fault = []

abbrev pub concat : List (List Issue) → List Issue
concat [] = []
concat (xs ∷ xss) = xs ++ concat xss

abbrev pub allowed_severities : List Text
allowed_severities = text "low" ∷ text "medium" ∷ text "high" ∷ text "critical" ∷ []

abbrev pub allowed_dedup_modes : List Text
allowed_dedup_modes = text "exact" ∷ text "normalized" ∷ text "fields" ∷ text "rule" ∷ []

abbrev pub allowed_log_levels : List Text
allowed_log_levels = text "debug" ∷ text "info" ∷ text "warn" ∷ text "error" ∷ []

abbrev pub name_fault : List Text → Text → Option Fault
name_fault seen trimmed =
    if is_empty trimmed
    then some empty
    else if has_text seen trimmed
    then some (duplicate trimmed)
    else none

abbrev pub with_name : List Text → Text → List Text
with_name seen trimmed =
    if is_empty trimmed then seen else if has_text seen trimmed then seen else trimmed ∷ seen

abbrev pub level_fault : List LogLevel → Result LevelError LogLevel → Option Fault
level_fault seen (err e) = some (bad_level e)
level_fault seen (ok level) = if contains seen level then some (duplicate_level level) else none

abbrev pub with_level : List LogLevel → Result LevelError LogLevel → List LogLevel
with_level seen (err e) = seen
with_level seen (ok level) = if contains seen level then seen else level ∷ seen

abbrev pub issue_of : Place → Option Fault → List Issue
issue_of place none = []
issue_of place (some fault) = (place, fault) ∷ []

module _ (strings : Strings) where
  open strings use {trim_space, to_lower}

  abbrev pub is_blank : Text → Bool
  is_blank value = is_empty (trim_space value)

  -- The loop of `validateNames` from an index on
  unfoldable pub validate_names_from : Place → ℕ → List Text → List Text → List Issue
  validate_names_from path index seen [] = []
  validate_names_from path index seen (value ∷ values) =
      let fault = name_fault seen (trim_space value) in
      issue_of (item path index) fault
      ++ validate_names_from path (suc index) (with_name seen (trim_space value)) values

  unfoldable pub validate_names : Place → List Text → Bool → List Issue
  unfolding validate_names_from
  validate_names path values required =
      if required && is_nil values
      then (path, missing) ∷ []
      else validate_names_from path 0 [] values

  -- The loop of `validateLevels` from an index on
  unfoldable pub validate_levels_from : Place → ℕ → List LogLevel → List Text → List Issue
  validate_levels_from path index seen [] = []
  validate_levels_from path index seen (value ∷ values) =
      let level = parse_log_level strings value in
      issue_of (item path index) (level_fault seen level)
      ++ validate_levels_from path (suc index) (with_level seen level) values

  unfoldable pub validate_levels : Place → List Text → Bool → List Issue
  unfolding validate_levels_from
  validate_levels path values required =
      if required && is_nil values
      then (path, missing) ∷ []
      else validate_levels_from path 0 [] values

  -- The loop of `validateChannels`; Go visits the map in any order.
  unfoldable pub validate_channels_from : List (Text × NotificationChannelConfig) → List Issue
  validate_channels_from [] = []
  validate_channels_from ((id, channel) ∷ channels) =
      let path = entry (at_field (text "alert.channels")) id in
      issue_if (is_blank id) (at_field (text "alert.channels")) empty
      ++ (issue_if (not (text_eq (to_lower (trim_space channel.platform)) (text "dingtalk")))
            (under path (text "platform")) (unsupported channel.platform)
          ++ (issue_if (is_blank channel.webhook) (under path (text "webhook")) empty
              ++ validate_channels_from channels))

  unfoldable pub validate_channels : List (Text × NotificationChannelConfig) → List Issue
  unfolding validate_channels_from
  validate_channels channels =
      if is_nil channels
      then (at_field (text "alert.channels"), missing) ∷ []
      else validate_channels_from channels

  unfoldable pub validate_field_equals : Place → List (Text × Text) → List Issue
  validate_field_equals path [] = []
  validate_field_equals path ((field, value) ∷ fields) =
      issue_if (is_blank field) path empty
      ++ (issue_if (is_blank value) (entry path field) empty ++ validate_field_equals path fields)
