-- ===== src/Entry/Level.antt =====
-- internal/logentry/level.go: the severity of a log entry and its text forms.
pub mod RoundTrip
use congraph_log_watcher.Common.{
  ℕ, ◌==◌, Bool, true, false, ◌&&◌, ◌||◌, Text, text, text_eq, ℤ, pos, negsuc, Option, none, some,
  List, [], ◌∷◌, any, Result, ok, err, Strings, if◌then◌else◌,
}

-- `LogLevel` is an int: the constants, and every other value.
pub data LogLevel : Type 0 where
  unknown trace debug info warn error critical : LogLevel
  other : ℤ → LogLevel

-- The int behind a level. (`other` stands for ints that no constant has.)
abbrev pub code_of : LogLevel → ℤ
code_of unknown = pos 0
code_of trace = pos 1
code_of debug = pos 2
code_of info = pos 3
code_of warn = pos 4
code_of error = pos 5
code_of critical = pos 6
code_of (other n) = n

-- `levelNames[l]`
unfoldable pub level_name : LogLevel → Option Text
level_name unknown = some (text "UNKNOWN")
level_name trace = some (text "TRACE")
level_name debug = some (text "DEBUG")
level_name info = some (text "INFO")
level_name warn = some (text "WARN")
level_name error = some (text "ERROR")
level_name critical = some (text "CRITICAL")
level_name (other n) = none

unfoldable pub level_string : LogLevel → Text
unfolding level_name
level_string l = elim (level_name l) [ some name ↦ name | none ↦ text "UNKNOWN" ]

pub data LevelError : Type 0 where
  unknown_level : Text → LevelError
  invalid_level : LogLevel → LevelError
  nil_receiver : LevelError

module _ (strings : Strings) where
  open strings use {trim_space, to_upper}

  unfoldable pub parse_log_level : Text → Result LevelError LogLevel
  parse_log_level value =
      let v = to_upper (trim_space value) in
      if text_eq v (text "UNKNOWN")
      then ok unknown
      else if text_eq v (text "TRCE") || text_eq v (text "TRACE")
      then ok trace
      else if text_eq v (text "DEBG") || text_eq v (text "DEBUG")
      then ok debug
      else if text_eq v (text "INFO")
      then ok info
      else if text_eq v (text "WARN")
      then ok warn
      else if text_eq v (text "ERRO") || text_eq v (text "ERROR")
      then ok error
      else if text_eq v (text "CRIT") || text_eq v (text "CRITICAL")
      then ok critical
      else err (unknown_level value)

  -- The receiver is `none` if it is nil; the new receiver is the answer.
  unfoldable pub unmarshal_text : Option LogLevel → Text → Result LevelError LogLevel
  unfolding parse_log_level
  unmarshal_text none value = err nil_receiver
  unmarshal_text (some old) value = parse_log_level value

unfoldable pub marshal_text : LogLevel → Result LevelError Text
unfolding level_name level_string
marshal_text l = elim (level_name l) [
  | none ↦ err (invalid_level l)
  | some name ↦ ok (level_string l)
]

-- `a == b` on levels
unfoldable pub level_eq : LogLevel → LogLevel → Bool
level_eq (other (pos m)) (other (pos n)) = m == n
level_eq (other (negsuc m)) (other (negsuc n)) = m == n
level_eq unknown unknown = true
level_eq trace trace = true
level_eq debug debug = true
level_eq info info = true
level_eq warn warn = true
level_eq error error = true
level_eq critical critical = true
level_eq _ _ = false

-- A set of levels: a Go map to `struct{}`.
abbrev pub contains : List LogLevel → LogLevel → Bool
contains set l = any (λ m. level_eq m l) set

-- `set[level] = struct{}{}`
abbrev pub set_add : List LogLevel → LogLevel → List LogLevel
set_add set l = if contains set l then set else l ∷ set
