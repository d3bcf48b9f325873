-- ===== src/Parser.antt =====
-- internal/parser/graphnode.go: graph-node's log lines.
--
-- The two compiled patterns are parameters. A group that is missing from a match would be a panic in
-- the source; the patterns have all the groups that are read.
pub mod Sections
mod Tests
use congraph_log_watcher.Common.{
  Bool, true, false, not, ◌&&◌, List, [], ◌∷◌, ◌++◌, Option, none, some, Text, is_empty, is_nil,
  get_or, lookup, insert, Strings, Regexp, ok, err, if◌then◌else◌, ◌==◌, ℕ,
}
use congraph_log_watcher.Entry.{RawLog, LogEntry}
use congraph_log_watcher.Entry.Level.{LogLevel, unknown, parse_log_level}

-- `strings.Split(value, ",")`
abbrev first_part : ℕ → List Text → List Text
first_part c [] = (c ∷ []) ∷ []
first_part c (part ∷ parts) = (c ∷ part) ∷ parts

unfoldable pub split_comma : Text → List Text
split_comma [] = [] ∷ []
split_comma (c ∷ s) =
    let parts = split_comma s in if c == b',' then [] ∷ parts else first_part c parts

-- `strings.Join(parts, ", ")`
unfoldable pub join_comma : List Text → Text
join_comma [] = []
join_comma (part ∷ parts) = if is_nil parts then part else part ++ b',' ∷ b' ' ∷ join_comma parts

-- The variables of the loop of `parseMessageAndFields`
pub record Parse : Type 0 where
  pub message_parts : List Text
  pub fields : List (Text × Text)
  pub last_field : Text
  pub field_section_started : Bool

abbrev pub value_of : List (Text × Text) → Text → Text
value_of fields name = elim (lookup name fields) [ none ↦ [] | some v ↦ v ]

module _ (strings : Strings) (regexp : Regexp) (line_pattern field_pattern : regexp.Pattern) where
  open strings use {trim_space}
  open regexp use {find_string_submatch}

  -- A round of the loop
  unfoldable pub parse_part : Parse → Text → Parse
  parse_part p part = elim (find_string_submatch field_pattern (trim_space part)) [
    | some groups ↦ record p {
      fields = insert (get_or groups 1 []) (get_or groups 2 []) p.fields;
      last_field = get_or groups 1 [];
      field_section_started = true;
    }
    | none ↦
        if p.field_section_started && not (is_empty p.last_field)
        then record p {
          fields = insert p.last_field (value_of p.fields p.last_field ++ b',' ∷ part) p.fields;
        }
        else record p { message_parts = p.message_parts ++ trim_space part ∷ [] }
  ]

  unfoldable pub parse_parts : Parse → List Text → Parse
  unfolding parse_part
  parse_parts p [] = p
  parse_parts p (part ∷ parts) = parse_parts (parse_part p part) parts

  -- `parseMessageAndFields`
  unfoldable pub parse_message_and_fields : Text → Text × Option (List (Text × Text))
  unfolding parse_parts split_comma join_comma
  parse_message_and_fields value =
      let start : Parse = record {
        message_parts = [];
        fields = [];
        last_field = [];
        field_section_started = false;
      } in
      let p = parse_parts start (split_comma value) in
      (join_comma p.message_parts, if is_nil p.fields then none else some p.fields)

  -- `Parse`
  unfoldable pub parse : RawLog → LogEntry
  unfolding parse_message_and_fields
  parse raw =
      let entry : LogEntry = record {
        container_id = raw.container_id;
        container_name = raw.container_name;
        timestamp = raw.timestamp;
        stream = raw.stream;
        level = unknown;
        message = raw.raw;
        fields = none;
        raw = raw.raw;
      } in
      elim (find_string_submatch line_pattern raw.raw) [
        | none ↦ entry
        | some groups ↦ elim (parse_log_level strings (get_or groups 1 [])) [
          | err e ↦ entry
          | ok level ↦
              let (message, fields) = parse_message_and_fields (get_or groups 2 []) in
              record entry { level = level; message = message; fields = fields }
        ]
      ]
