-- ===== src/Rule/Fingerprint.antt =====
-- internal/rule/fingerprint.go: the identity of the incident that an entry belongs to. SHA-256 and
-- the hexadecimal form of its sum are one parameter, `digest`.
pub mod Identity
use congraph_log_watcher.Common.{
  ℕ, zero, suc, ◌/◌, ◌%◌, Bool, List, [], ◌∷◌, ◌++◌, Text, text, text_eq, text_lt, length, Regexp,
  if◌then◌else◌,
}
use congraph_log_watcher.Entry.{LogEntry, field_value, raw_or_message}
use congraph_log_watcher.Rule.{
  Rule, Replacement, Dedup, DedupMode, exact, normalized, fields, rule_only, mode_text,
}

-- The loop of `writePart`: the bytes of a length, the last one first.
unfoldable pub size_loop : ℕ → ℕ → List ℕ → List ℕ
size_loop zero length size = size
size_loop (suc k) length size = size_loop k (length / 256) ((length % 256) ∷ size)

-- What `writePart` writes
unfoldable pub write_part : Text → Text
unfolding size_loop
write_part value = size_loop 8 (length value) [] ++ value

unfoldable pub write_parts : List Text → Text
unfolding write_part
write_parts [] = []
write_parts (p ∷ ps) = write_part p ++ write_parts ps

unfoldable pub insert_text : Text → List Text → List Text
insert_text t [] = t ∷ []
insert_text t (u ∷ us) = if text_lt u t then u ∷ insert_text t us else t ∷ u ∷ us

-- `sort.Strings`
unfoldable pub sort_texts : List Text → List Text
unfolding insert_text
sort_texts [] = []
sort_texts (t ∷ ts) = insert_text t (sort_texts ts)

-- `fieldValue`
unfoldable pub field_of : Text → LogEntry → Text → Text
field_of rule_id entry field =
    if text_eq field (text "rule")
    then rule_id
    else if text_eq field (text "container")
    then entry.container_name
    else field_value entry field

unfoldable pub field_parts : Text → LogEntry → List Text → List Text
unfolding field_of
field_parts rule_id entry [] = []
field_parts rule_id entry (f ∷ fs) = f ∷ field_of rule_id entry f ∷ field_parts rule_id entry fs

module _ (regexp : Regexp) where
  open regexp use {Pattern, replace_all_string}

  -- `(Normalizer).Normalize`
  unfoldable pub normalize : List (Replacement Pattern) → Text → Text
  normalize [] value = value
  normalize (r ∷ rs) value = normalize rs (replace_all_string r.pattern value r.replace)

  unfoldable pub mode_parts : DedupMode → Rule Pattern → LogEntry → List Text
  unfolding normalize sort_texts field_parts
  mode_parts exact r entry = text "raw" ∷ raw_or_message entry ∷ []
  mode_parts normalized r entry = text "message" ∷ normalize r.dedup.normalizer entry.message ∷ []
  mode_parts fields r entry = field_parts r.id entry (sort_texts r.dedup.fields)
  mode_parts rule_only r entry = []

  -- What is written to the hash, in order
  unfoldable pub fingerprint_parts : Rule Pattern → LogEntry → List Text
  unfolding mode_parts mode_text
  fingerprint_parts r entry =
      text "rule"
      ∷ r.id
      ∷ text "container"
      ∷ entry.container_name
      ∷ text "mode"
      ∷ mode_text r.dedup.mode
      ∷ mode_parts r.dedup.mode r entry

  unfoldable pub fingerprint : (Text → Text) → Rule Pattern → LogEntry → Text
  unfolding fingerprint_parts write_parts
  fingerprint digest r entry = digest (write_parts (fingerprint_parts r entry))
