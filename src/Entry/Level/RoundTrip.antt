-- ===== src/Entry/Level/RoundTrip.antt =====
-- Levels and their text forms: what is written is read back, and how spelling may vary.
use congraph_log_watcher.Common.{
  ◌≡◌, refl, sym, ap, ◌∙◌, ◌↔◌, true, Text, text, pos, negsuc, some, ok, Strings, IsAscii,
  ascii_trim, ascii_upper, map, arith, some_inj, subst, text_eq,
}
use congraph_log_watcher.Entry.Level.{
  LogLevel, unknown, trace, debug, info, warn, error, critical, other, parse_log_level,
  marshal_text, level_name, level_string, level_eq,
}

pub level_eq→eq : (a b : LogLevel) → level_eq a b ≡ true → a ≡ b
unfolding level_eq
level_eq→eq (other (pos m)) (other (pos n)) h = ground arith
level_eq→eq (other (negsuc m)) (other (negsuc n)) h = ground arith
level_eq→eq unknown unknown h = refl
level_eq→eq trace trace h = refl
level_eq→eq debug debug h = refl
level_eq→eq info info h = refl
level_eq→eq warn warn h = refl
level_eq→eq error error h = refl
level_eq→eq critical critical h = refl
level_eq→eq _ _ h = cc

pub level_eq_refl : (a : LogLevel) → level_eq a a ≡ true
unfolding level_eq
level_eq_refl (other (pos m)) = ground arith
level_eq_refl (other (negsuc m)) = ground arith
level_eq_refl _ = refl

pub level_eq_iff : (a b : LogLevel) → (level_eq a b ≡ true) ↔ (a ≡ b)
level_eq_iff a b = (level_eq→eq a b, λ e. rw e (level_eq_refl b))

module _ (strings : Strings) where
  -- An ASCII text is read by its trimmed upper case.
  canonical :
      (s t : Text)
      → IsAscii s
      → IsAscii (ascii_trim s)
      → map ascii_upper (ascii_trim s) ≡ t
      → strings.to_upper (strings.trim_space s) ≡ t
  canonical s t h k e =
      ap strings.to_upper (strings.trim_space_ascii s h)
      ∙ strings.to_upper_ascii (ascii_trim s) k
      ∙ e

  parse_canonical :
      (s : Text) (l : LogLevel)
      → some (strings.to_upper (strings.trim_space s)) ≡ level_name l
      → parse_log_level strings s ≡ ok l
  unfolding parse_log_level text_eq level_name
  parse_canonical s unknown e =
      let e' : strings.to_upper (strings.trim_space s) ≡ text "UNKNOWN" = some_inj e in rw e' refl
  parse_canonical s trace e =
      let e' : strings.to_upper (strings.trim_space s) ≡ text "TRACE" = some_inj e in rw e' refl
  parse_canonical s debug e =
      let e' : strings.to_upper (strings.trim_space s) ≡ text "DEBUG" = some_inj e in rw e' refl
  parse_canonical s info e =
      let e' : strings.to_upper (strings.trim_space s) ≡ text "INFO" = some_inj e in rw e' refl
  parse_canonical s warn e =
      let e' : strings.to_upper (strings.trim_space s) ≡ text "WARN" = some_inj e in rw e' refl
  parse_canonical s error e =
      let e' : strings.to_upper (strings.trim_space s) ≡ text "ERROR" = some_inj e in rw e' refl
  parse_canonical s critical e =
      let e' : strings.to_upper (strings.trim_space s) ≡ text "CRITICAL" = some_inj e in rw e' refl
  parse_canonical s (other n) e = cc

  -- The texts of the levels are upper case with no space around them.
  name_canonical :
      (l : LogLevel) (t : Text)
      → level_name l ≡ some t
      → strings.to_upper (strings.trim_space t) ≡ t
  unfolding level_name
  name_canonical unknown t e =
      subst (λ u. strings.to_upper (strings.trim_space u) ≡ u) (some_inj e)
        (canonical (text "UNKNOWN") _ (omega arith) (omega arith) refl)
  name_canonical trace t e =
      subst (λ u. strings.to_upper (strings.trim_space u) ≡ u) (some_inj e)
        (canonical (text "TRACE") _ (omega arith) (omega arith) refl)
  name_canonical debug t e =
      subst (λ u. strings.to_upper (strings.trim_space u) ≡ u) (some_inj e)
        (canonical (text "DEBUG") _ (omega arith) (omega arith) refl)
  name_canonical info t e =
      subst (λ u. strings.to_upper (strings.trim_space u) ≡ u) (some_inj e)
        (canonical (text "INFO") _ (omega arith) (omega arith) refl)
  name_canonical warn t e =
      subst (λ u. strings.to_upper (strings.trim_space u) ≡ u) (some_inj e)
        (canonical (text "WARN") _ (omega arith) (omega arith) refl)
  name_canonical error t e =
      subst (λ u. strings.to_upper (strings.trim_space u) ≡ u) (some_inj e)
        (canonical (text "ERROR") _ (omega arith) (omega arith) refl)
  name_canonical critical t e =
      subst (λ u. strings.to_upper (strings.trim_space u) ≡ u) (some_inj e)
        (canonical (text "CRITICAL") _ (omega arith) (omega arith) refl)
  name_canonical (other n) t e = cc

  -- A text that trimming and upper-casing turns into what a level is written as is read as that
  -- level, whatever its case and the space around it; the level's own text is such a text, and an
  -- int that names no level is not written at all.
  pub parse-marshal :
      (l : LogLevel) (t : Text)
      → marshal_text l ≡ ok t
      → (parse_log_level strings t ≡ ok l)
        × (level_string l ≡ t)
        × ((s : Text)
            → strings.to_upper (strings.trim_space s) ≡ t
            → parse_log_level strings s ≡ ok l)
  unfolding marshal_text level_string
  parse-marshal l t h =
      let named : level_name l ≡ some t = ground arith in
      (
        parse_canonical t l (ap some (name_canonical l t named) ∙ sym named),
        ground arith,
        λ s e. parse_canonical s l (ap some e ∙ sym named),
      )
