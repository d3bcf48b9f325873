-- ===== src/Redact/Tests.antt =====
-- Redaction at a concrete entry, whose field a rule masks as a line.
use congraph_log_watcher.Common.{◌≡◌, Option, some, [], ◌∷◌, Text, text, lookup, text_eq, refl}
use congraph_log_watcher.Entry.{LogEntry}
use congraph_log_watcher.Samples.{plain_regexp, sample_entry}
use congraph_log_watcher.Redact.{
  Redactor, redact, redact_string, redact_field, redact_fields, replace_all, after_colon,
}
use congraph_log_watcher.Redact.Fields.{Rewrites, SameField, rules_of, fields_of, redact_lem}

abbrev redactor : Option (Redactor plain_regexp)
redactor = some (
    record { pattern = text "boom"; replace = text "***" }
    ∷ record { pattern = text "component: boom"; replace = text "component: +++" }
    ∷ [])

abbrev entry : LogEntry
entry = record (sample_entry 1) { fields = some ((text "component", text "boom") ∷ []) }

abbrev sanitized : LogEntry
sanitized = redact plain_regexp redactor entry

masked_component : lookup (text "component") (fields_of sanitized) ≡ some (text "+++")
unfolding redact redact_fields redact_field redact_string replace_all after_colon text_eq lookup
masked_component = refl

redact_example :
    Rewrites plain_regexp (rules_of plain_regexp redactor) entry.raw sanitized.raw
    × Rewrites plain_regexp (rules_of plain_regexp redactor) entry.message sanitized.message
    × ((key : Text)
        → SameField plain_regexp
            (rules_of plain_regexp redactor)
            key
            (lookup key (fields_of entry))
            (lookup key (fields_of sanitized)))
    × (sanitized.container_id ≡ entry.container_id)
    × (sanitized.container_name ≡ entry.container_name)
    × (sanitized.stream ≡ entry.stream)
    × (sanitized.timestamp ≡ entry.timestamp)
    × (sanitized.level ≡ entry.level)
redact_example = redact_lem plain_regexp redactor entry
