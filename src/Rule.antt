-- ===== src/Rule.antt =====
-- internal/rule/rule.go: compiled alert rules. The patterns are those of the interface `Regexp`.
pub mod Compile
pub mod Matcher
pub mod Fingerprint
mod Tests
use congraph_log_watcher.Common.{Bool, List, Option, Text, text, ℤ, Duration}
use congraph_log_watcher.Entry.Level.{LogLevel}

pub data DedupMode : Type 0 where
  exact normalized fields rule_only : DedupMode

-- The string behind a mode
unfoldable pub mode_text : DedupMode → Text
mode_text exact = text "exact"
mode_text normalized = text "normalized"
mode_text fields = text "fields"
mode_text rule_only = text "rule"

pub record Context : Type 0 where
  pub before : ℤ
  pub after : ℤ
  pub after_wait : Duration
  pub max_bytes : ℤ

module _ (Pattern : Type 0) where
  pub record Replacement : Type 0 where
    pub pattern : Pattern
    pub replace : Text

  pub record Dedup : Type 0 where
    pub mode : DedupMode
    pub fields : List Text
    pub normalizer : List Replacement

  -- The maps `containers`, `levels` and `components` are sets.
  pub record Rule : Type 0 where
    pub id : Text
    pub enabled : Bool
    pub severity : Text
    pub threshold : ℤ
    pub window : Duration
    pub cooldown : Duration
    pub stop_on_match : Bool
    pub dedup : Dedup
    pub context : Context
    pub containers : List Text
    pub levels : List LogLevel
    pub components : List Text
    pub field_equals : List (Text × Text)
    pub pattern : Option Pattern
    pub excludes : List Pattern
