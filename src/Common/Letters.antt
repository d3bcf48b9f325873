-- ===== src/Common/Letters.antt =====
-- What the program uses of Go's package strings. On text beyond ASCII these functions follow the
-- Unicode tables, so they are parameters, known by what they do to ASCII.
use Prim.Native.Nat.{ℕ, ◌+◌, ◌-◌, ◌<◌}
use mathlib.Core.Path.{◌≡◌, refl}
use mathlib.Core.Bool.{Bool, ◌&&◌, ◌||◌}
use mathlib.Core.List.{[], ◌∷◌, map, reverse}
use congraph_log_watcher.Common.Tests.{leb, ◌==◌, if◌then◌else◌}
use congraph_log_watcher.Common.Lists.{All}
use congraph_log_watcher.Common.Bytes.{Text}

abbrev pub ascii_upper : ℕ → ℕ
ascii_upper c = if leb b'a' c && leb c b'z' then c - 32 else c

abbrev pub ascii_lower : ℕ → ℕ
ascii_lower c = if leb b'A' c && leb c b'Z' then c + 32 else c

abbrev pub ascii_space : ℕ → Bool
ascii_space c = (leb 9 c && leb c 13) || (c == 32)

abbrev pub skip_space : Text → Text
skip_space [] = []
skip_space (c ∷ s) = if ascii_space c then skip_space s else c ∷ s

abbrev pub ascii_trim : Text → Text
ascii_trim s = reverse (skip_space (reverse (skip_space s)))

abbrev pub IsAscii : Text → Type 0
IsAscii s = All (λ c. c < 128) s

-- `strings.TrimSpace`, `strings.ToUpper` and `strings.ToLower`
pub record Strings : Type 0 where
  pub trim_space : Text → Text
  pub to_upper : Text → Text
  pub to_lower : Text → Text
  pub trim_space_ascii : (s : Text) → IsAscii s → trim_space s ≡ ascii_trim s
  pub to_upper_ascii : (s : Text) → IsAscii s → to_upper s ≡ map ascii_upper s
  pub to_lower_ascii : (s : Text) → IsAscii s → to_lower s ≡ map ascii_lower s

abbrev pub ascii_strings : Strings
ascii_strings = record {
  trim_space = ascii_trim;
  to_upper = map ascii_upper;
  to_lower = map ascii_lower;
  trim_space_ascii = λ s h. refl;
  to_upper_ascii = λ s h. refl;
  to_lower_ascii = λ s h. refl;
}
