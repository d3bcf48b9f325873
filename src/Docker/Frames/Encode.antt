-- ===== src/Docker/Frames/Encode.antt =====
-- Docker's frames, and how one is read back.
use congraph_log_watcher.Common.{
  ℕ, ◌/◌, ◌%◌, ◌^◌, ◌<◌, ◌≡◌, refl, ap, List, [], ◌∷◌, ◌++◌, length, length-append, take, drop,
  arith, Option, Text, ok,
}
use congraph_log_watcher.Docker.Frames.{Reader, read_full, frame_length}

-- A frame of the documented format: its stream, three zero bytes, the payload's length as four bytes,
-- the first the highest, and the payload
pub record Frame : Type 0 where
  pub stream : ℕ
  pub payload : Text

abbrev pub header_of : ℕ → ℕ → Text
header_of stream n =
    stream ∷ 0 ∷ 0 ∷ 0 ∷ n / 2 ^ 24 % 256 ∷ n / 2 ^ 16 % 256 ∷ n / 2 ^ 8 % 256 ∷ n % 256 ∷ []

unfoldable pub encode : List Frame → Text
encode [] = []
encode (f ∷ fs) = header_of f.stream (length f.payload) ++ f.payload ++ encode fs

-- The payload's length is one of four bytes.
abbrev pub IsFrame : Frame → Type 0
IsFrame f = length f.payload < 2 ^ 32

frame_length-header_of : (stream n : ℕ) → n < 2 ^ 32 → frame_length (header_of stream n) ≡ n
unfolding frame_length
frame_length-header_of stream n h = omega (arith, h)

take-length-append {ℓ} : {A : Type ℓ} (xs ys : List A) → take (length xs) (xs ++ ys) ≡ xs
take-length-append [] ys = refl
take-length-append (x ∷ xs) ys = ap (λ l. x ∷ l) (take-length-append xs ys)

drop-length-append {ℓ} : {A : Type ℓ} (xs ys : List A) → drop (length xs) (xs ++ ys) ≡ ys
drop-length-append [] ys = refl
drop-length-append (x ∷ xs) ys = drop-length-append xs ys

module _ {E : Type 0} where
  abbrev pub reader : Text → Option E → Reader E
  reader bytes ends = record { bytes = bytes; ends = ends }

  -- A reader that has all the bytes gives them.
  read_full-append :
      (xs ys : Text) (ends : Option E)
      → read_full (reader (xs ++ ys) ends) (length xs) ≡ ok (xs, reader ys ends)
  unfolding read_full
  read_full-append xs ys ends =
      ground (arith, length-append xs ys, take-length-append xs ys, drop-length-append xs ys)

  -- A frame at the head of what a reader gives is read as what was encoded.
  pub read_full-encode :
      (f : Frame) (rest : Text) (ends : Option E)
      → IsFrame f
      → let header = header_of f.stream (length f.payload) in
        (read_full (reader (header ++ f.payload ++ rest) ends) 8
          ≡ ok (header, reader (f.payload ++ rest) ends))
        × (read_full (reader (f.payload ++ rest) ends) (frame_length header)
            ≡ ok (f.payload, reader rest ends))
  read_full-encode f rest ends h =
      let header = header_of f.stream (length f.payload) in
      (
        read_full-append header (f.payload ++ rest) ends,
        rw (frame_length-header_of f.stream (length f.payload) h)
            (read_full-append f.payload rest ends),
      )
