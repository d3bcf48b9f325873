-- ===== src/Redact/Fields.antt =====
-- What redaction does to an entry and to its fields.
use congraph_log_watcher.Common.{
  ℕ, suc, ◌≤◌, ◌≡◌, ◌==◌, ◌&&◌, ◌≢◌, refl, ap, subst, List, [], ◌∷◌, ◌++◌, length, Option, none,
  some, Option-cases, Bool-cases, ◌⊎◌, inl, inr, Text, text, text_eq, text_eq_iff, text_eq→eq,
  lookup, Regexp, arith,
}
use congraph_log_watcher.Entry.{LogEntry}
use congraph_log_watcher.Redact.{
  Redactor, after_colon, replace_all, redact, redact_string, redact_field, redact_fields,
}

-- The text has `": "` after `head`, and no earlier.
abbrev pub FirstColon : Text → Text → Text → Type 0
FirstColon t head rest =
    (t ≡ head ++ 58 ∷ 32 ∷ rest)
    × ((xs ys : Text) → t ≡ xs ++ 58 ∷ 32 ∷ ys → length head ≤ length xs)

abbrev pub NoColon : Text → Type 0
NoColon t = (xs ys : Text) → t ≢ xs ++ 58 ∷ 32 ∷ ys

-- What `strings.Cut` finds
abbrev Cut : Text → Option Text → Type 0
Cut t none = NoColon t
Cut t (some rest) = (head : Text) × FirstColon t head rest

NoColon-nil : NoColon []
NoColon-nil [] ys e = cc
NoColon-nil (x ∷ xs) ys e = cc

NoColon-one : (a : ℕ) → NoColon (a ∷ [])
NoColon-one a [] ys e = cc
NoColon-one a (x ∷ xs) ys e = NoColon-nil xs ys (cc)

Cut-cons :
    (a : ℕ) (t : Text) (found : Option Text)
    → ((ys : Text) → a ∷ t ≢ 58 ∷ 32 ∷ ys)
    → Cut t found
    → Cut (a ∷ t) found
Cut-cons a t none n h = no_colon
  where
    no_colon : NoColon (a ∷ t)
    no_colon [] ys e = n ys e
    no_colon (x ∷ xs) ys e = h xs ys cc
Cut-cons a t (some rest) n (head, (e, first)) = (a ∷ head, (ap (λ l. a ∷ l) e, no_earlier))
  where
    no_earlier : (xs ys : Text) → a ∷ t ≡ xs ++ 58 ∷ 32 ∷ ys → suc (length head) ≤ length xs
    no_earlier [] ys q = absurd (n ys q)
    no_earlier (x ∷ xs) ys q = omega (arith, first xs ys cc)

after_colon-Cut : (t : Text) → Cut t (after_colon t)
unfolding after_colon
after_colon-Cut [] = NoColon-nil
after_colon-Cut (a ∷ []) = NoColon-one a
after_colon-Cut (a ∷ b ∷ rest) = elim (Bool-cases ((a == 58) && (b == 32))) [
  | inl h ↦
      subst (Cut (a ∷ b ∷ rest)) {x = some rest} (ground (arith, h))
        ([], (ground (arith, h), λ xs ys e. omega arith))
  | inr h ↦ subst (Cut (a ∷ b ∷ rest)) {x = after_colon (b ∷ rest)} (ground (arith, h)) (
      Cut-cons a (b ∷ rest) (after_colon (b ∷ rest)) (λ ys e. ground (arith, h, e))
        (after_colon-Cut (b ∷ rest)))
]

abbrev value_or : Text → Option Text → Text
value_or line none = line
value_or line (some v) = v

Cut-value :
    (line : Text) (found : Option Text)
    → Cut line found
    → let value = value_or line found in
      ((head : Text) × FirstColon line head value) ⊎ (NoColon line × (value ≡ line))
Cut-value line none h = inr (h, refl)
Cut-value line (some rest) h = inl h

-- The fields of an entry; a nil map has none.
abbrev pub fields_of : LogEntry → List (Text × Text)
fields_of entry = elim entry.fields [ none ↦ [] | some fields ↦ fields ]

module _ (regexp : Regexp) where
  open regexp use {replace_all_string}

  -- The rules of a redactor; a nil one has none.
  abbrev pub rules_of : Option (Redactor regexp) → Redactor regexp
  rules_of none = []
  rules_of (some rules) = rules

  -- The rules, in their order, each replacing in what the one before it left, turn one text into the
  -- other.
  abbrev pub Rewrites : Redactor regexp → Text → Text → Type 0
  Rewrites [] before after = before ≡ after
  Rewrites (rule ∷ rules) before after =
      (next : Text) × (replace_all_string rule.pattern before rule.replace ≡ next)
      × Rewrites rules next after

  Rewrites-replace_all :
      (rules : Redactor regexp) (t : Text) → Rewrites rules t (replace_all regexp rules t)
  unfolding replace_all
  Rewrites-replace_all [] t = refl
  Rewrites-replace_all (rule ∷ rules) t = (
    replace_all_string rule.pattern t rule.replace,
    refl,
    Rewrites-replace_all rules (replace_all_string rule.pattern t rule.replace),
  )

  Rewrites-redact_string :
      (r : Option (Redactor regexp)) (t : Text) → Rewrites (rules_of r) t (redact_string regexp r t)
  unfolding redact_string
  Rewrites-redact_string none t = refl
  Rewrites-redact_string (some rules) t = Rewrites-replace_all rules t

  -- What becomes of the value of a field: the rules are tried on the line `key: value`. If they leave
  -- it alone, they apply to the value itself; else the value is what follows the first `": "` of the
  -- line that they make, or that whole line if it has none.
  abbrev pub Value : Redactor regexp → Text → Text → Text → Type 0
  Value rules key old new =
      let line = key ++ text ": " ++ old in
      (Rewrites rules line line × Rewrites rules old new)
      ⊎ ((line' : Text) × Rewrites rules line line'
          × (line' ≢ line)
          × (((head : Text) × FirstColon line' head new) ⊎ (NoColon line' × (new ≡ line'))))

  redact_field-Value :
      (r : Option (Redactor regexp)) (key old : Text)
      → Value (rules_of r) key old (redact_field regexp r key old)
  unfolding redact_field
  redact_field-Value r key old =
      let line = key ++ text ": " ++ old in
      let line' = redact_string regexp r line in
      elim (Bool-cases (text_eq line' line)) [
        | inl same ↦ inl (
          subst (Rewrites (rules_of r) line) (text_eq→eq line' line same)
              (Rewrites-redact_string r line),
          rw same (Rewrites-redact_string r old),
        )
        | inr differs ↦ inr (
          line',
          Rewrites-redact_string r line,
          ground (arith, text_eq_iff line' line, differs),
          rw differs (Cut-value line' (after_colon line') (after_colon-Cut line')),
        )
      ]

  abbrev pub SameField : Redactor regexp → Text → Option Text → Option Text → Type 0
  SameField rules key none new = new ≡ none
  SameField rules key (some old) found = (new : Text) × (found ≡ some new) × Value rules key old new

  lookup-redact_fields :
      (r : Option (Redactor regexp)) (key : Text) (fields : List (Text × Text))
      → SameField (rules_of r) key (lookup key fields) (lookup key (redact_fields regexp r fields))
  unfolding lookup redact_fields
  lookup-redact_fields r key [] = refl
  lookup-redact_fields r key ((k, v) ∷ fields) = elim (Bool-cases (text_eq k key)) [
    | inl own ↦ rw own (
      redact_field regexp r k v,
      refl,
      subst (λ l. Value (rules_of r) l v (redact_field regexp r k v)) (text_eq→eq k key own)
          (redact_field-Value r k v),
    )
    | inr other ↦ rw other (lookup-redact_fields r key fields)
  ]

  -- Redaction turns the raw line and the message into what the rules, in order, make of them. It
  -- adds and removes no field, and each keeps its key. If the rules leave the line `key: value` alone,
  -- the field's new value is what they make of the value itself; else it is what follows the first `": "`
  -- of the line that they make, or that whole line if it has none. A nil redactor has no rules. The
  -- container's id and name, the stream, the time and the level stay.
  pub redact_lem :
      (r : Option (Redactor regexp)) (entry : LogEntry)
      → let sanitized = redact regexp r entry in
        Rewrites (rules_of r) entry.raw sanitized.raw
        × Rewrites (rules_of r) entry.message sanitized.message
        × ((key : Text)
            → SameField
                (rules_of r)
                key
                (lookup key (fields_of entry))
                (lookup key (fields_of sanitized)))
        × (sanitized.container_id ≡ entry.container_id)
        × (sanitized.container_name ≡ entry.container_name)
        × (sanitized.stream ≡ entry.stream)
        × (sanitized.timestamp ≡ entry.timestamp)
        × (sanitized.level ≡ entry.level)
  unfolding redact lookup
  redact_lem r entry = elim (Option-cases entry.fields) [
    | inl n ↦ rw n (
      Rewrites-redact_string r entry.raw,
      Rewrites-redact_string r entry.message,
      λ key. refl,
      refl,
      refl,
      refl,
      refl,
      refl,
    )
    | inr (fields, n) ↦ rw n (
      Rewrites-redact_string r entry.raw,
      Rewrites-redact_string r entry.message,
      λ key. lookup-redact_fields r key fields,
      refl,
      refl,
      refl,
      refl,
      refl,
    )
  ]
