-- ===== src/Docker/Frames/Lines.antt =====
-- The lines of a byte stream, and what the loops over a buffer make of them.
use congraph_log_watcher.Common.{
  ℕ, zero, suc, ◌-◌, ◌<◌, leb, ◌==◌, ◌≡◌, refl, sym, inl, inr, List, [], ◌∷◌, ◌++◌, length,
  length-append, take, append-nil, append_assoc, arith, Option, none, some, Option-cases,
  Bool-cases, take_all, Text, if◌then◌else◌, false,
}
use congraph_log_watcher.Entry.{RawLog}
use congraph_log_watcher.Docker.Frames.{
  cut, trim_return, Run, DecodeError, context_done, before_run,
}

-- The lines that end in a newline, each without one carriage return at its end, of what was read
-- since the last newline and what follows
unfoldable pub complete_from : Text → Text → List Text
complete_from acc [] = []
complete_from acc (c ∷ s) =
    if c == 10 then trim_return acc ∷ complete_from [] s else complete_from (acc ++ c ∷ []) s

-- What follows the last newline
unfoldable pub remainder_from : Text → Text → Text
remainder_from acc [] = acc
remainder_from acc (c ∷ s) =
    if c == 10 then remainder_from [] s else remainder_from (acc ++ c ∷ []) s

pub complete_from-append :
    (acc s t : Text)
    → complete_from acc (s ++ t) ≡ complete_from acc s ++ complete_from (remainder_from acc s) t
unfolding complete_from remainder_from
complete_from-append acc [] t = refl
complete_from-append acc (c ∷ s) t =
    ground (arith, complete_from-append [] s t, complete_from-append (acc ++ c ∷ []) s t)

pub remainder_from-append :
    (acc s t : Text) → remainder_from acc (s ++ t) ≡ remainder_from (remainder_from acc s) t
unfolding remainder_from
remainder_from-append acc [] t = refl
remainder_from-append acc (c ∷ s) t =
    ground (arith, remainder_from-append [] s t, remainder_from-append (acc ++ c ∷ []) s t)

-- A text with no newline
abbrev pub IsLine : Text → Type 0
IsLine s = cut 10 s ≡ none

pub cut-line :
    (acc s : Text) → IsLine s → (complete_from acc s ≡ []) × (remainder_from acc s ≡ acc ++ s)
unfolding cut complete_from remainder_from
cut-line acc [] h = (refl, sym (append-nil acc))
cut-line acc (c ∷ s) h = elim (Option-cases (cut 10 s)) [
  | inl n ↦ ground (arith, cut-line (acc ++ c ∷ []) s n, append_assoc acc (c ∷ []) s)
  | inr (p, n) ↦ ground arith
]

pub cut-some :
    (acc s a b : Text)
    → cut 10 s ≡ some (a, b)
    → (complete_from acc s ≡ trim_return (acc ++ a) ∷ complete_from [] b)
      × (remainder_from acc s ≡ remainder_from [] b)
      × (length b < length s)
unfolding cut complete_from remainder_from
cut-some acc [] a b h = cc
cut-some acc (c ∷ s) a b h = elim (Option-cases (cut 10 s)) [
  | inl n ↦ ground (arith, append-nil acc)
  | inr ((x, y), n) ↦
      ground (arith, cut-some (acc ++ c ∷ []) s x y n, append_assoc acc (c ∷ []) x, append-nil acc)
]

cut-snoc : (acc : Text) (c : ℕ) → IsLine acc → (c == 10) ≡ false → IsLine (acc ++ c ∷ [])
unfolding cut
cut-snoc [] c h n = rw n refl
cut-snoc (x ∷ acc) c h n = elim (Option-cases (cut 10 acc)) [
  | inl e ↦ ground (arith, cut-snoc acc c e n)
  | inr (p, e) ↦ ground arith
]

pub cut-remainder_from : (acc s : Text) → IsLine acc → IsLine (remainder_from acc s)
unfolding cut remainder_from
cut-remainder_from acc [] h = h
cut-remainder_from acc (c ∷ s) h =
    ground
      (arith, cut-remainder_from [] s refl, cut-remainder_from (acc ++ c ∷ []) s, cut-snoc acc c)

-- Of a line and what follows it, the complete lines and the rest
pub append-line :
    (l s : Text)
    → IsLine l
    → (complete_from [] (l ++ s) ≡ complete_from l s)
      × (remainder_from [] (l ++ s) ≡ remainder_from l s)
append-line l s h =
    rw
      (
        complete_from-append [] l s,
        remainder_from-append [] l s,
        (cut-line [] l h).0,
        (cut-line [] l h).1,
      )
      (refl, refl)

-- What a loop that has these records to send, and then ends so, sends with this much room
pub record Sends {E : Type 0} (budget : ℕ) (records : List RawLog) (last : Option (DecodeError E))
    (sent : Run E) : Type 0 where
  pub out : sent.out ≡ take budget records
  pub room : sent.room ≡ budget - length records
  pub error : sent.error ≡ (if leb (length records) budget then last else some context_done)

take-append {ℓ} :
    {A : Type ℓ} (n : ℕ) (xs ys : List A) → take n (xs ++ ys) ≡ take n xs ++ take (n - length xs) ys
take-append zero [] ys = refl
take-append zero (x ∷ xs) ys = ground arith
take-append (suc n) [] ys = ground arith
take-append (suc n) (x ∷ xs) ys = ground (arith, take-append n xs ys)

module _ {E : Type 0} where
  pub Sends-append :
      (budget : ℕ) (xs ys : List RawLog) (last : Option (DecodeError E)) (first second : Run E)
      → Sends budget xs none first
      → Sends first.room ys last second
      → Sends budget
          (xs ++ ys)
          last
          (elim first.error [ some e ↦ first | none ↦ before_run first.out second ])
  Sends-append budget xs ys last first second f s = elim (Bool-cases (leb (length xs) budget)) [
    | inl h ↦
        rw (f.error, h)
          (record {
            out =
                ground (arith, f.out, f.room, s.out, take-append budget xs ys, take_all xs budget);
            room = ground (arith, f.room, s.room, length-append xs ys);
            error = ground (arith, f.room, s.error, length-append xs ys);
          })
    | inr h ↦
        rw (f.error, h)
          (record {
            out = ground (arith, f.out, take-append budget xs ys, append-nil (take budget xs));
            room = ground (arith, f.room, length-append xs ys);
            error = ground (arith, f.error, length-append xs ys);
          })
  ]

  -- A loop goes on where all was sent.
  pub Sends-next :
      (budget : ℕ) (xs ys : List RawLog) (last : Option (DecodeError E)) (first second : Run E)
      → first.error ≡ none
      → Sends budget xs none first
      → Sends first.room ys last second
      → Sends budget (xs ++ ys) last (before_run first.out second)
  Sends-next budget xs ys last first second n f s =
      rw n at (Sends-append budget xs ys last first second f s)

  -- A loop that stops had no room for more.
  pub Sends-stop :
      (budget : ℕ) (xs ys : List RawLog) (last : Option (DecodeError E)) (first : Run E)
      (e : DecodeError E)
      → first.error ≡ some e
      → Sends budget xs none first
      → Sends budget (xs ++ ys) last first
  Sends-stop budget xs ys last first e n f =
      let rest : Run E = record {
        out = take first.room ys;
        room = first.room - length ys;
        error = if leb (length ys) first.room then last else some context_done;
      } in
      rw n at (
        Sends-append budget xs ys last first rest f
          (record { out = refl; room = refl; error = refl }))
