-- ===== src/ContextBuf/Capture.antt =====
-- internal/context/capture.go: the context captured round a trigger, and its bounded lines.
-- Entries are values, so the copies that `Entries` makes are the entries themselves.
pub mod Lines
use Prim.Native.Nat.{bit_and}
use congraph_log_watcher.Common.{
  ℕ, zero, suc, ◌+◌, ◌-◌, ◌==◌, ltb, leb, ◌||◌, not, Bool, List, [], ◌∷◌, ◌++◌, map, reverse,
  length, get_or, take, Text, ℤ, is_nonpositive, pos_part, if◌then◌else◌,
}
use congraph_log_watcher.Entry.{LogEntry, raw_or_message}

pub record Capture : Type 0 where
  pub before : List LogEntry
  pub trigger : LogEntry
  pub after : List LogEntry
  pub timed_out : Bool

unfoldable pub entries : Capture → List LogEntry
entries c = c.before ++ (c.trigger ∷ c.after)

-- A byte that does not continue a UTF-8 sequence, or the end
unfoldable pub is_utf8_boundary : Text → ℕ → Bool
is_utf8_boundary value index =
    (index == length value) || not (bit_and (get_or value index 0) 0xc0 == 0x80)

-- The loop of `truncateUTF8`: the bound that it stops at.
unfoldable pub boundary_below : Text → ℕ → ℕ
boundary_below value zero = zero
boundary_below value (suc n) =
    if is_utf8_boundary value (suc n) then suc n else boundary_below value n

unfoldable pub truncate_utf8 : Text → ℕ → Text
truncate_utf8 value max_bytes =
    if leb (length value) max_bytes then value else take (boundary_below value max_bytes) value

-- The loops of `Lines` over the nearest entries: the lines that fit, and the bytes then left.
unfoldable pub fit : ℕ → List LogEntry → List Text × ℕ
fit remaining [] = ([], remaining)
fit remaining (entry ∷ es) =
    let line = raw_or_message entry in
    let rest = fit (remaining - (length line + 1)) es in
    if ltb remaining (length line + 1) then ([], remaining) else (line ∷ rest.0, rest.1)

unfoldable pub lines : Capture → ℤ → List Text
lines c max_bytes =
    let limit = pos_part max_bytes in
    let trigger = raw_or_message c.trigger in
    if is_nonpositive max_bytes
    then []
    else if leb limit (length trigger)
    then truncate_utf8 trigger limit ∷ []
    else let (before, remaining) = fit (limit - length trigger) (reverse c.before) in
      reverse before ++ (trigger ∷ (fit remaining c.after).0)
