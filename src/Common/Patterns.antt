-- ===== src/Common/Patterns.antt =====
-- What the program uses of Go's package regexp: its matching is not modelled.
use mathlib.Core.Bool.{Bool}
use mathlib.Core.List.{List}
use mathlib.Core.Option.{Option}
use congraph_log_watcher.Common.Bytes.{Text}

pub record Regexp : Type 1 where
  -- a compiled pattern
  pub Pattern : Type 0
  -- `regexp.Compile`; `none` is its error
  pub compile : Text → Option Pattern
  pub match_string : Pattern → Text → Bool
  -- `ReplaceAllString`: the text, then the replacement
  pub replace_all_string : Pattern → Text → Text → Text
  -- `FindStringSubmatch`: the match and its groups, or nil
  pub find_string_submatch : Pattern → Text → Option (List Text)
