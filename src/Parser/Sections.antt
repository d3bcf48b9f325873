-- ===== src/Parser/Sections.antt =====
-- What the one pass of `parseMessageAndFields` finds.
use congraph_log_watcher.Common.{
  ◌≡◌, refl, sym, ap, ap₂, ◌∙◌, true, false, Option-cases, inl, inr, List, [], ◌∷◌, ◌++◌,
  append-nil, append_assoc, arith, Option, none, some, Text, text_eq_refl, text_eq_iff, is_empty,
  is_nil, get_or, insert, lookup-insert_self, Strings, Regexp, if◌then◌else◌,
}
use congraph_log_watcher.Parser.{
  Parse, split_comma, join_comma, value_of, parse_part, parse_parts, parse_message_and_fields,
}

abbrev pub insert_all : List (Text × Text) → List (Text × Text) → List (Text × Text)
insert_all m [] = m
insert_all m ((k, v) ∷ more) = insert_all (insert k v m) more

insert-insert : (k v w : Text) (m : List (Text × Text)) → insert k w (insert k v m) ≡ insert k w m
unfolding insert
insert-insert k v w [] = rw (text_eq_refl k) refl
insert-insert k v w ((j, u) ∷ m) =
    ground (arith, text_eq_refl k, text_eq_iff j k, insert-insert k v w m)

value_of-insert : (k v : Text) (m : List (Text × Text)) → value_of (insert k v m) k ≡ v
value_of-insert k v m = rw (value_of, lookup-insert_self k v m) refl

module _ (strings : Strings) (regexp : Regexp) (line_pattern field_pattern : regexp.Pattern) where
  open strings use {trim_space}
  open regexp use {find_string_submatch}

  -- The part's match of the pattern of a field
  abbrev pub field_in : Text → Option (List Text)
  field_in part = find_string_submatch field_pattern (trim_space part)

  -- The parts before the first field, trimmed
  abbrev pub message_of : List Text → List Text
  message_of [] = []
  message_of (part ∷ parts) =
      let rest = message_of parts in
      elim (field_in part) [ none ↦ trim_space part ∷ rest | some groups ↦ [] ]

  -- The parts up to the next field, as they continue a value
  abbrev pub continuation : List Text → Text
  continuation [] = []
  continuation (part ∷ parts) =
      let rest = continuation parts in
      elim (field_in part) [ none ↦ (b',' ∷ part) ++ rest | some groups ↦ [] ]

  -- The fields in order, each with its own value and what continues it
  abbrev pub sections : List Text → List (Text × Text)
  sections [] = []
  sections (part ∷ parts) =
      let rest = sections parts in
      elim (field_in part) [
        | none ↦ rest
        | some groups ↦ (get_or groups 1 [], get_or groups 2 [] ++ continuation parts) ∷ rest
      ]

  -- The pattern of a field gives it a name.
  abbrev pub IsNamed : Type 0
  IsNamed =
      (t : Text) (groups : List Text)
      → find_string_submatch field_pattern t ≡ some groups
      → is_empty (get_or groups 1 []) ≡ false

  abbrev in_section : List Text → Text → List (Text × Text) → Parse
  in_section message k m = record {
    message_parts = message;
    fields = m;
    last_field = k;
    field_section_started = true;
  }

  abbrev parse : Parse → Text → Parse
  parse p part = parse_part strings regexp line_pattern field_pattern p part

  abbrev parses : Parse → List Text → Parse
  parses p parts = parse_parts strings regexp line_pattern field_pattern p parts

  parts_started :
      (message : List Text) (k v : Text) (m : List (Text × Text)) (parts : List Text)
      → IsNamed
      → is_empty k ≡ false
      → let p = parses (in_section message k (insert k v m)) parts in
        (p.message_parts ≡ message)
        × (p.fields ≡ insert_all (insert k (v ++ continuation parts) m) (sections parts))
  unfolding parse_parts parse_part
  parts_started message k v m [] n h = (refl, rw (append-nil v) refl)
  parts_started message k v m (part ∷ parts) n h = elim (Option-cases (field_in part)) [
    | inr (groups, e) ↦
        let name = get_or groups 1 [] in
        let value = get_or groups 2 [] in
        let step : parse (in_section message k (insert k v m)) part
            ≡ in_section message name (insert name value (insert k v m)) =
          ground (arith, e) in
        let next =
          parts_started message name value (insert k v m) parts n (n (trim_space part) groups e) in
        (
          ap (λ q. (parses q parts).message_parts) step ∙ next.0,
          ap (λ q. (parses q parts).fields) step ∙ next.1 ∙ ground (arith, e, append-nil v),
        )
    | inl e ↦
        let longer = v ++ b',' ∷ part in
        let step : parse (in_section message k (insert k v m)) part
            ≡ in_section message k (insert k longer m) =
          ground (arith, e, h, value_of-insert k v m, insert-insert k v longer m) in
        let next = parts_started message k longer m parts n h in
        (
          ap (λ q. (parses q parts).message_parts) step ∙ next.0,
          ap (λ q. (parses q parts).fields) step
              ∙ next.1
              ∙ ground (arith, e, append_assoc v (b',' ∷ part) (continuation parts)),
        )
  ]

  abbrev before_fields : List Text → Parse
  before_fields message = record {
    message_parts = message;
    fields = [];
    last_field = [];
    field_section_started = false;
  }

  parts_fresh :
      (message : List Text) (parts : List Text)
      → IsNamed
      → let p = parses (before_fields message) parts in
        (p.message_parts ≡ message ++ message_of parts)
        × (p.fields ≡ insert_all [] (sections parts))
  unfolding parse_parts parse_part insert
  parts_fresh message [] n = (sym (append-nil message), refl)
  parts_fresh message (part ∷ parts) n = elim (Option-cases (field_in part)) [
    | inr (groups, e) ↦
        let name = get_or groups 1 [] in
        let value = get_or groups 2 [] in
        let step : parse (before_fields message) part
            ≡ in_section message name (insert name value []) =
          ground (arith, e) in
        let next = parts_started message name value [] parts n (n (trim_space part) groups e) in
        (
          ap (λ q. (parses q parts).message_parts) step
              ∙ next.0
              ∙ ground (arith, e, append-nil message),
          ap (λ q. (parses q parts).fields) step ∙ next.1 ∙ ground (arith, e),
        )
    | inl e ↦
        let longer = message ++ trim_space part ∷ [] in
        let step : parse (before_fields message) part ≡ before_fields longer = ground (arith, e) in
        let next = parts_fresh longer parts n in
        (
          ap (λ q. (parses q parts).message_parts) step
              ∙ next.0
              ∙ ground (arith, e, append_assoc message (trim_space part ∷ []) (message_of parts)),
          ap (λ q. (parses q parts).fields) step ∙ next.1 ∙ ground (arith, e),
        )
  ]

  -- `parseMessageAndFields` cuts at the commas: the parts before the first field, trimmed, are the
  -- message; each field has its own value and, with their commas, the parts up to the next field; of
  -- fields of one name the last counts; and no fields are the nil map.
  pub parse_message_and_fields_lem :
      (value : Text)
      → IsNamed
      → let parts = split_comma value in
        let fields = insert_all [] (sections parts) in
        parse_message_and_fields strings regexp line_pattern field_pattern value
        ≡ (join_comma (message_of parts), if is_nil fields then none else some fields)
  unfolding parse_message_and_fields
  parse_message_and_fields_lem value n =
      let (m, f) = parts_fresh [] (split_comma value) n in
      ap₂ (λ ms fs. (join_comma ms, if is_nil fs then none else some fs)) m f
