-- ===== src/Parser/Tests.antt =====
-- The parser with a pattern of a field that is a name, a colon and a value.
use congraph_log_watcher.Common.{
  ◌≡◌, ◌==◌, arith, List, [], ◌∷◌, Option, Option-cases, inl, inr, none, some, Text, text, is_nil,
  Regexp, ascii_strings, if◌then◌else◌,
}
use congraph_log_watcher.Samples.{plain_regexp}
use congraph_log_watcher.Docker.Frames.{cut}
use congraph_log_watcher.Parser.{split_comma, join_comma, parse_message_and_fields}
use congraph_log_watcher.Parser.Sections.{
  insert_all, message_of, sections, IsNamed, parse_message_and_fields_lem,
}

abbrev colon_match : Text → Option (List Text)
colon_match [] = none
colon_match (c ∷ s) =
    if c == b':'
    then none
    else elim (cut b':' s) [ none ↦ none | some p ↦ some ((c ∷ s) ∷ (c ∷ p.0) ∷ p.1 ∷ []) ]

abbrev colon_regexp : Regexp
colon_regexp = record plain_regexp { find_string_submatch = λ p t. colon_match t }

colon-IsNamed : IsNamed ascii_strings colon_regexp [] []
colon-IsNamed [] groups h = cc
colon-IsNamed (c ∷ s) groups h = elim (Option-cases (cut b':' s)) [
  | inl e ↦ absurd (ground (arith, h, e))
  | inr (p, e) ↦ ground (arith, h, e)
]

abbrev line : Text
line = text "sync failed, again, code:7, or 8,block: 2"

parse_message_and_fields_example :
    parse_message_and_fields ascii_strings colon_regexp [] [] line ≡ (
      join_comma (message_of ascii_strings colon_regexp [] [] (split_comma line)),
      if is_nil (insert_all [] (sections ascii_strings colon_regexp [] [] (split_comma line)))
          then none
          else some (insert_all [] (sections ascii_strings colon_regexp [] [] (split_comma line))),
    )
parse_message_and_fields_example =
    parse_message_and_fields_lem ascii_strings colon_regexp [] [] line colon-IsNamed
