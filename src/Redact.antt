-- ===== src/Redact.antt =====
-- internal/redact/redact.go: replacement rules applied to what an entry holds.
pub mod Fields
mod Tests
use congraph_log_watcher.Common.{
  ℕ, suc, ◌+◌, ◌==◌, Bool, List, [], ◌∷◌, ◌++◌, Option, none, some, Text, text, text_eq, is_empty,
  Regexp, Result, ok, err, if◌then◌else◌,
}
use congraph_log_watcher.Entry.{LogEntry}

-- `Rule`
pub record RedactionRule : Type 0 where
  pub pattern : Text
  pub replace : Text

pub data RedactError : Type 0 where
  empty_pattern bad_pattern : ℕ → RedactError

-- The rest after the first `": "`, as `strings.Cut` gives it
unfoldable pub after_colon : Text → Option Text
after_colon [] = none
after_colon (a ∷ []) = none
after_colon (a ∷ b ∷ rest) =
    let later = after_colon (b ∷ rest) in
    if (a == 58) then (if (b == 32) then some rest else later) else later

module _ (regexp : Regexp) where
  open regexp use {Pattern, compile, replace_all_string}

  pub record CompiledRule : Type 0 where
    pub pattern : Pattern
    pub replace : Text

  -- `Redactor`
  abbrev pub Redactor : Type 0
  Redactor = List CompiledRule

  abbrev compiled :
      ℕ → RedactionRule → Option Pattern → Result RedactError Redactor → Result RedactError Redactor
  compiled index rule none rest = err (bad_pattern index)
  compiled index rule (some p) (err e) = err e
  compiled index rule (some p) (ok rs) = ok (record { pattern = p; replace = rule.replace } ∷ rs)

  -- The loop of `New` from an index on
  unfoldable pub new_from : ℕ → List RedactionRule → Result RedactError Redactor
  new_from index [] = ok []
  new_from index (rule ∷ rules) =
      let rest = new_from (index + 1) rules in
      if is_empty rule.pattern
      then err (empty_pattern index)
      else compiled index rule (compile rule.pattern) rest

  unfoldable pub replace_all : Redactor → Text → Text
  replace_all [] value = value
  replace_all (r ∷ rs) value = replace_all rs (replace_all_string r.pattern value r.replace)

  -- `RedactString`; a nil redactor changes nothing.
  unfoldable pub redact_string : Option Redactor → Text → Text
  unfolding replace_all
  redact_string none value = value
  redact_string (some rules) value = replace_all rules value

  unfoldable pub redact_field : Option Redactor → Text → Text → Text
  unfolding redact_string after_colon
  redact_field r key value =
      let redacted = redact_string r value in
      let combined = key ++ text ": " ++ value in
      let redacted_combined = redact_string r combined in
      if text_eq redacted_combined combined
      then redacted
      else elim (after_colon redacted_combined) [ some v ↦ v | none ↦ redacted_combined ]

  -- The loop of `Redact`
  unfoldable pub redact_fields : Option Redactor → List (Text × Text) → List (Text × Text)
  redact_fields r [] = []
  redact_fields r ((key, value) ∷ fields) = (key, redact_field r key value) ∷ redact_fields r fields

  unfoldable pub redact : Option Redactor → LogEntry → LogEntry
  redact r entry =
      let sanitized = record entry {
        raw = redact_string r entry.raw;
        message = redact_string r entry.message;
      } in
      elim entry.fields [
        | none ↦ sanitized
        | some fields ↦ record sanitized { fields = some (redact_fields r fields) }
      ]
