-- ===== src/Rule/Fingerprint/Identity.antt =====
-- The encoding that is hashed tells all identities apart.
use congraph_log_watcher.Common.{
  ℕ, ◌^◌, ◌<◌, ◌≡◌, refl, sym, ap, ap₂, ◌∙◌, ◌↔◌, List, [], ◌∷◌, ◌++◌, map, Text, text, length,
  Regexp, All, arith, append_assoc,
}
use congraph_log_watcher.Entry.{LogEntry, raw_or_message}
use congraph_log_watcher.Rule.{Rule, DedupMode, exact, normalized, fields, rule_only, mode_text}
use congraph_log_watcher.Rule.Fingerprint.{
  size_loop, write_part, write_parts, sort_texts, field_of, field_parts, normalize, mode_parts,
  fingerprint_parts, fingerprint,
}

size_loop-injective :
    (m n : ℕ)
    → m < 2 ^ 64
    → n < 2 ^ 64
    → (x y : List ℕ) → size_loop 8 m [] ++ x ≡ size_loop 8 n [] ++ y
    → (m ≡ n) × (x ≡ y)
unfolding size_loop
size_loop-injective m n p q x y e = ground arith

append-injective : (a b x y : Text) → length a ≡ length b → a ++ x ≡ b ++ y → (a ≡ b) × (x ≡ y)
append-injective [] [] x y l e = (refl, e)
append-injective [] (d ∷ b) x y l e = absurd (omega arith)
append-injective (c ∷ a) [] x y l e = absurd (omega arith)
append-injective (c ∷ a) (d ∷ b) x y l e = ground (arith, append-injective a b x y (omega arith))

-- A string that Go can hold
abbrev pub IsShort : Text → Type 0
IsShort t = length t < 2 ^ 64

write_part-injective :
    (a b x y : Text)
    → IsShort a
    → IsShort b
    → write_part a ++ x ≡ write_part b ++ y
    → (a ≡ b) × (x ≡ y)
unfolding write_part
write_part-injective a b x y p q e =
    let assoc = λ (t z : Text). append_assoc (size_loop 8 (length t) []) t z in
    let (l, rest) =
      size_loop-injective (length a) (length b) p q (a ++ x) (b ++ y)
        (sym (assoc a x) ∙ e ∙ assoc b y) in
    append-injective a b x y l rest

write_parts-injective :
    (ps qs : List Text)
    → All IsShort ps
    → All IsShort qs
    → write_parts ps ≡ write_parts qs
    → ps ≡ qs
unfolding write_parts
write_parts-injective [] [] p q e = refl
write_parts-injective [] (b ∷ qs) p q e = cc
write_parts-injective (a ∷ ps) [] p q e = cc
write_parts-injective (a ∷ ps) (b ∷ qs) p q e =
    let (same, rest) = write_part-injective a b (write_parts ps) (write_parts qs) p.0 q.0 e in
    ap₂ ◌∷◌ same (write_parts-injective ps qs p.1 q.1 rest)

-- What distinguishes incidents of one rule and container
pub data Kind : Type 0 where
  by_raw : Text → Kind
  by_message : Text → Kind
  by_fields : List (Text × Text) → Kind
  by_rule : Kind

abbrev pairs_text : List (Text × Text) → List Text
pairs_text [] = []
pairs_text ((k, v) ∷ ps) = k ∷ v ∷ pairs_text ps

abbrev kind_parts : Kind → List Text
kind_parts (by_raw t) = text "exact" ∷ text "raw" ∷ t ∷ []
kind_parts (by_message t) = text "normalized" ∷ text "message" ∷ t ∷ []
kind_parts (by_fields ps) = text "fields" ∷ pairs_text ps
kind_parts by_rule = text "rule" ∷ []

-- A rule, a container and a kind
abbrev pub Identity : Type 0
Identity = Text × Text × Kind

abbrev identity_parts : Identity → List Text
identity_parts (id, container, kind) =
    text "rule" ∷ id ∷ text "container" ∷ container ∷ text "mode" ∷ kind_parts kind

pairs_text-injective : (ps qs : List (Text × Text)) → pairs_text ps ≡ pairs_text qs → ps ≡ qs
pairs_text-injective [] [] e = refl
pairs_text-injective [] ((k, v) ∷ qs) e = cc
pairs_text-injective ((k, v) ∷ ps) [] e = cc
pairs_text-injective ((k, v) ∷ ps) ((l, w) ∷ qs) e = ground (arith, pairs_text-injective ps qs)

kind_parts-injective : (a b : Kind) → kind_parts a ≡ kind_parts b → a ≡ b
kind_parts-injective (by_raw t) (by_raw u) e = cc
kind_parts-injective (by_message t) (by_message u) e = cc
kind_parts-injective (by_fields ps) (by_fields qs) e =
    ap by_fields (pairs_text-injective ps qs (cc))
kind_parts-injective by_rule by_rule e = refl
kind_parts-injective a b e = cc

identity_parts-injective : (a b : Identity) → identity_parts a ≡ identity_parts b → a ≡ b
identity_parts-injective (i, c, k) (j, d, l) e = ground (arith, kind_parts-injective k l)

module _ (regexp : Regexp) where
  open regexp use {Pattern}

  abbrev kind : DedupMode → Rule Pattern → LogEntry → Kind
  kind exact r entry = by_raw (raw_or_message entry)
  kind normalized r entry = by_message (normalize regexp r.dedup.normalizer entry.message)
  kind fields r entry =
      by_fields (map (λ f. (f, field_of r.id entry f)) (sort_texts r.dedup.fields))
  kind rule_only r entry = by_rule

  -- The incident that an entry belongs to: the rule, the container, and by the rule's mode the raw
  -- line, the normalised message, the rule's fields in order with their values, or nothing more.
  abbrev pub identity : Rule Pattern → LogEntry → Identity
  identity r entry = (r.id, entry.container_name, kind r.dedup.mode r entry)

  field_parts-pairs :
      (id : Text) (entry : LogEntry) (fs : List Text)
      → field_parts id entry fs ≡ pairs_text (map (λ f. (f, field_of id entry f)) fs)
  unfolding field_parts
  field_parts-pairs id entry [] = refl
  field_parts-pairs id entry (f ∷ fs) = rw (field_parts-pairs id entry fs) refl

  mode_parts-kind :
      (m : DedupMode) (r : Rule Pattern) (entry : LogEntry)
      → mode_text m ∷ mode_parts regexp m r entry ≡ kind_parts (kind m r entry)
  unfolding mode_parts mode_text
  mode_parts-kind exact r entry = refl
  mode_parts-kind normalized r entry = refl
  mode_parts-kind fields r entry =
      ap (λ l. text "fields" ∷ l) (field_parts-pairs r.id entry (sort_texts r.dedup.fields))
  mode_parts-kind rule_only r entry = refl

  fingerprint_parts-identity :
      (r : Rule Pattern) (entry : LogEntry)
      → fingerprint_parts regexp r entry ≡ identity_parts (identity r entry)
  unfolding fingerprint_parts
  fingerprint_parts-identity r entry =
      ap (λ l. text "rule" ∷ r.id ∷ text "container" ∷ entry.container_name ∷ text "mode" ∷ l)
        (mode_parts-kind r.dedup.mode r entry)

  -- Two entries, each with a rule, have one fingerprint exactly when they belong to one incident,
  -- provided that the digest tells the two encodings apart and that each string that is hashed is
  -- shorter than 2^64 bytes.
  pub fingerprint-identity :
      (digest : Text → Text) (r s : Rule Pattern) (d e : LogEntry)
      → (digest (write_parts (fingerprint_parts regexp r d))
            ≡ digest (write_parts (fingerprint_parts regexp s e))
          → write_parts (fingerprint_parts regexp r d) ≡ write_parts (fingerprint_parts regexp s e))
      → All IsShort (fingerprint_parts regexp r d)
      → All IsShort (fingerprint_parts regexp s e)
      → (fingerprint regexp digest r d ≡ fingerprint regexp digest s e)
        ↔ (identity r d ≡ identity s e)
  unfolding fingerprint
  fingerprint-identity digest r s d e distinct p q = (
    λ h. identity_parts-injective (identity r d) (identity s e) (
        sym (fingerprint_parts-identity r d)
        ∙ write_parts-injective (fingerprint_parts regexp r d) (fingerprint_parts regexp s e) p q
            (distinct h)
        ∙ fingerprint_parts-identity s e),
    λ h.
        ap (λ ps. digest (write_parts ps))
          (fingerprint_parts-identity r d
            ∙ ap identity_parts h
            ∙ sym (fingerprint_parts-identity s e)),
  )
