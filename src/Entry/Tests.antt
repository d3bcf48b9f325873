-- ===== src/Entry/Tests.antt =====
-- The level names at a concrete level.
use congraph_log_watcher.Common.{◌≡◌, refl, ok, Text, text, ascii_strings}
use congraph_log_watcher.Entry.Level.{warn, level_name, parse_log_level, level_string, marshal_text}
use congraph_log_watcher.Entry.Level.RoundTrip.{parse-marshal}

parse-marshal_example :
    (parse_log_level ascii_strings (text "WARN") ≡ ok warn)
    × (level_string warn ≡ text "WARN")
    × ((s : Text)
        → ascii_strings.to_upper (ascii_strings.trim_space s) ≡ text "WARN"
        → parse_log_level ascii_strings s ≡ ok warn)
unfolding marshal_text level_name
parse-marshal_example = parse-marshal ascii_strings warn (text "WARN") refl
