-- ===== src/Mcp/Reader/Framing.antt =====
-- `boundedLineReader` of internal/mcpserver/server.go refines a reader of whole lines.
use counterpoint.Prelude.{
  All, is_some, ℕ, zero, suc, ◌<◌, ◌≡◌, refl, sym, ap, ◌∙◌, Bool, true, false, List, [], ◌∷◌, ◌++◌,
  append_assoc, Option, none, some, is_empty, length, length-append, take, drop, arith,
  if◌then◌else◌, Result, ok, err, Bool-cases, inl, inr,
}
use counterpoint.Prelude.Text.{Bytes}
use counterpoint.Prelude.Trim.{trim_space}
use counterpoint.Mcp.Reader.{
  new_bounded_line_reader, Slice, line_end, buffer_full, Input, ReadError, request_too_large,
  request_framing, BoundedLineReader, is_blank, too_long, last_line, next_line, deliver, fill,
  read_open, read,
}

-- The physical lines of the input, wherever the buffer divided them, and the unterminated rest.
unfoldable pub lines : Bytes → List Slice → Bytes → List Bytes × Bytes
lines line [] tail = ([], line ++ tail)
lines line (buffer_full s ∷ slices) tail = lines (line ++ s) slices tail
lines line (line_end s ∷ slices) tail =
    let (ls, rest) = lines [] slices tail in ((line ++ s) ∷ ls, rest)

-- What an ideal reader delivers, and the error that ends it: the lines that are no blank, up to the
-- first one that is too long or no JSON value.
unfoldable pub framed : (Bytes → Bool) → ℕ → Bool → List Bytes → Bytes → Bytes × ReadError
unfolding too_long
framed valid limit eof [] rest = ([], last_line limit eof rest)
framed valid limit eof (l ∷ ls) rest =
    let (out, e) = framed valid limit eof ls rest in
    if too_long limit l
    then ([], request_too_large)
    else if is_blank l
    then (out, e)
    else if valid (trim_space l)
    then (l ++ out, e)
    else ([], request_framing)

module _ (valid : Bytes → Bool) (limit : ℕ) (tail : Bytes) (eof : Bool) where
  abbrev ideal : Bytes → List Slice → Bytes × ReadError
  ideal line slices = let (ls, rest) = lines line slices tail in framed valid limit eof ls rest

  abbrev IsNext : Bytes × ReadError → Result ReadError Bytes × List Slice → Type 0
  IsNext whole (err e, slices) = whole ≡ ([], e)
  IsNext whole (ok l, slices) =
      (whole ≡ (l ++ (ideal [] slices).0, (ideal [] slices).1)) × (is_empty l ≡ false)

  -- A line whose beginning is too long is too long.
  long_line :
      (line : Bytes) (slices : List Slice)
      → too_long limit line ≡ true
      → ideal line slices ≡ ([], request_too_large)
  unfolding lines framed too_long last_line
  long_line line [] h = ground (arith, h, length-append line tail)
  long_line line (buffer_full s ∷ slices) h =
      long_line (line ++ s) slices (ground (arith, h, length-append line s))
  long_line line (line_end s ∷ slices) h = ground (arith, h, length-append line s)

  blank_empty : (l : Bytes) → is_blank l ≡ false → is_empty l ≡ false
  unfolding is_blank trim_space
  blank_empty [] h = absurd (cc)
  blank_empty (b ∷ l) h = refl

  next_line-IsNext :
      (line : Bytes) (slices : List Slice)
      → IsNext (ideal line slices) (next_line valid limit tail eof line slices)
  unfolding next_line lines framed
  next_line-IsNext line [] = refl
  next_line-IsNext line (buffer_full s ∷ slices) = elim (Bool-cases (too_long limit (line ++ s))) [
    | inl q ↦ rw q (long_line (line ++ s) slices q)
    | inr q ↦ rw q (next_line-IsNext (line ++ s) slices)
  ]
  next_line-IsNext line (line_end s ∷ slices) = elim (Bool-cases (too_long limit (line ++ s))) [
    | inl q ↦ rw q refl
    | inr q ↦ elim (Bool-cases (is_blank (line ++ s))) [
      | inl z ↦ rw (q, z) (next_line-IsNext [] slices)
      | inr z ↦ elim (Bool-cases (valid (trim_space (line ++ s)))) [
        | inl y ↦ rw (q, z, y) (refl, blank_empty (line ++ s) z)
        | inr y ↦ rw (q, z, y) refl
      ]
    ]
  ]

-- What a reader has still to deliver, and the error that ends it.
unfoldable pub remaining : (Bytes → Bool) → BoundedLineReader → Bytes × ReadError
remaining valid b = elim b.failed [
  | some e ↦ ([], e)
  | none ↦
      let (out, e) = ideal valid b.limit b.input.tail b.input.eof [] b.input.slices in
      (b.buf ++ out, e)
]

-- One Read against the ideal reader: it delivers the next bytes, and some of them when it has room;
-- an error comes when nothing is left, and it stays.
abbrev pub Refines :
    (Bytes → Bool) → ℕ → BoundedLineReader → Result ReadError Bytes → BoundedLineReader → Type 0
Refines valid n b (ok out) b' =
    (remaining valid b ≡ (out ++ (remaining valid b').0, (remaining valid b').1))
    × (0 < n → is_empty out ≡ false)
Refines valid n b (err e) b' = (remaining valid b ≡ ([], e)) × (remaining valid b' ≡ ([], e))

take-drop : (n : ℕ) (s : Bytes) → take n s ++ drop n s ≡ s
take-drop zero s = refl
take-drop (suc n) [] = refl
take-drop (suc n) (x ∷ s) = ap (◌∷◌ x) (take-drop n s)

take_some : (n : ℕ) (s : Bytes) → is_empty s ≡ false → 0 < n → is_empty (take n s) ≡ false
take_some zero s h p = absurd (omega (arith, p))
take_some (suc n) [] h p = absurd (cc)
take_some (suc n) (x ∷ s) h p = refl

abbrev reading : Input → ℕ → Bytes → BoundedLineReader
reading input limit buf = record { input = input; limit = limit; buf = buf; failed = none }

deliver-Refines :
    (valid : Bytes → Bool) (n : ℕ) (input : Input) (limit : ℕ) (buf : Bytes)
    → is_empty buf ≡ false
    → let (r, b) = deliver n (reading input limit buf) in
      Refines valid n (reading input limit buf) r b
unfolding deliver remaining
deliver-Refines valid n input limit buf h =
    let (out, e) = ideal valid limit input.tail input.eof [] input.slices in
    let parts : buf ++ out ≡ take n buf ++ (drop n buf ++ out) =
      ap (λ (s : Bytes). s ++ out) (sym (take-drop n buf))
      ∙ append_assoc (take n buf) (drop n buf) out in
    (ap (λ (s : Bytes). (s, e)) parts, take_some n buf h)

fill-Refines :
    (valid : Bytes → Bool) (n : ℕ) (input : Input) (limit : ℕ)
    (next : Result ReadError Bytes × List Slice)
    → IsNext valid limit input.tail input.eof
        (ideal valid limit input.tail input.eof [] input.slices)
        next
    → let (r, b) = fill n (reading input limit []) next in
      Refines valid n (reading input limit []) r b
unfolding fill remaining
fill-Refines valid n input limit (err e, slices) h = (h, refl)
fill-Refines valid n input limit (ok l, slices) (whole, some_left) =
    let after : Input = record { slices = slices; tail = input.tail; eof = input.eof } in
    let (a, b) = deliver-Refines valid n after limit l some_left in (whole ∙ a, b)

read-Refines :
    (valid : Bytes → Bool) (n : ℕ) (input : Input) (limit : ℕ) (buf : Bytes)
    (failed : Option ReadError)
    → let b : BoundedLineReader = record {
      input = input;
      limit = limit;
      buf = buf;
      failed = failed;
    } in
      Refines valid n b (read valid n b).0 (read valid n b).1
unfolding read read_open remaining
read-Refines valid n input limit buf (some e) = (refl, refl)
read-Refines valid n input limit [] none =
    fill-Refines valid n input limit (next_line valid limit input.tail input.eof [] input.slices)
      (next_line-IsNext valid limit input.tail input.eof [] input.slices)
read-Refines valid n input limit (x ∷ buf) none = deliver-Refines valid n input limit (x ∷ buf) refl

-- Reads into buffers of the given sizes, up to the first error: the bytes and the error.
then_all : Result ReadError Bytes → Bytes × Option ReadError → Bytes × Option ReadError
then_all (ok bytes) (out, e) = (bytes ++ out, e)
then_all (err e) rest = ([], some e)

unfoldable pub read_all : (Bytes → Bool) → List ℕ → BoundedLineReader → Bytes × Option ReadError
unfolding then_all
read_all valid [] b = ([], none)
read_all valid (n ∷ sizes) b = let (r, b') = read valid n b in then_all r (read_all valid sizes b')

-- What a client of the reader has seen, against the whole: all of it and its error, or a part.
abbrev pub IsPrefix : Bytes × ReadError → Bytes × Option ReadError → Type 0
IsPrefix (whole, end) (out, some e) = (out ≡ whole) × (e ≡ end)
IsPrefix (whole, end) (out, none) = (rest : Bytes) × (whole ≡ out ++ rest)

step_lem :
    (valid : Bytes → Bool) (n : ℕ) (b b' : BoundedLineReader) (r : Result ReadError Bytes)
    (seen : Bytes × Option ReadError)
    → Refines valid n b r b'
    → IsPrefix (remaining valid b') seen
    → IsPrefix (remaining valid b) (then_all r seen)
unfolding then_all
step_lem valid n b b' (err e) seen (p, q) h = rw p (refl, refl)
step_lem valid n b b' (ok bytes) (out, some e) (p, q) (h, k) = rw p (ap (bytes ++◌) h, k)
step_lem valid n b b' (ok bytes) (out, none) (p, q) (rest, h) = (
  rest,
  ap (λ (x : Bytes × ReadError). x.0) p ∙ (ap (bytes ++◌) h ∙ sym (append_assoc bytes out rest)),
)

IsPrefix-read_all :
    (valid : Bytes → Bool) (sizes : List ℕ) (b : BoundedLineReader)
    → IsPrefix (remaining valid b) (read_all valid sizes b)
unfolding read_all
IsPrefix-read_all valid [] b = ((remaining valid b).0, refl)
IsPrefix-read_all valid (n ∷ sizes) b =
    let (r, b') = read valid n b in
    step_lem valid n b b' r (read_all valid sizes b')
      (read-Refines valid n b.input b.limit b.buf b.failed) (IsPrefix-read_all valid sizes b')

abbrev pub IsRoomy : List ℕ → Type 0
IsRoomy = All (λ (n : ℕ). 0 < n)

not_empty_length : (s : Bytes) → is_empty s ≡ false → 0 < length s
not_empty_length [] h = absurd (cc)
not_empty_length (x ∷ s) h = omega arith

ends_lem :
    (valid : Bytes → Bool) (n k : ℕ) (b b' : BoundedLineReader) (r : Result ReadError Bytes)
    (seen : Bytes × Option ReadError)
    → Refines valid n b r b'
    → 0 < n
    → length (remaining valid b).0 < suc k
    → (length (remaining valid b').0 < k → is_some seen.1 ≡ true)
    → is_some (then_all r seen).1 ≡ true
unfolding then_all
ends_lem valid n k b b' (err e) seen p h l f = refl
ends_lem valid n k b b' (ok bytes) (out, o) (p, q) h l f =
    let some_bytes = not_empty_length bytes (q h) in
    let whole : length (remaining valid b).0 ≡ length (bytes ++ (remaining valid b').0) =
      ap (λ (x : Bytes × ReadError). length x.0) p in
    f (omega (arith, l, some_bytes, whole, length-append bytes (remaining valid b').0))

read_all_ends :
    (valid : Bytes → Bool) (sizes : List ℕ) (b : BoundedLineReader)
    → IsRoomy sizes
    → length (remaining valid b).0 < length sizes
    → is_some (read_all valid sizes b).1 ≡ true
unfolding read_all
read_all_ends valid [] b h l = absurd (omega (arith, l))
read_all_ends valid (n ∷ sizes) b (h, hs) l =
    let (r, b') = read valid n b in
    ends_lem valid n (length sizes) b b' r (read_all valid sizes b')
      (read-Refines valid n b.input b.limit b.buf b.failed) h (omega (arith, l))
      (read_all_ends valid sizes b' hs)

-- The bounded reader refines an ideal one of whole lines. However the input is divided into slices
-- and whatever the sizes of the reads, the bytes that come out are those of the lines that are JSON
-- values within the limit, blank lines left out, up to the first line that is too long or no JSON
-- value or to the end of the input; an error comes only after all of them, and it is the ideal one's.
-- Reads with room, more than there are such bytes, come to that error.
pub read_all_refines :
    (valid : Bytes → Bool) (sizes : List ℕ) (input : Input) (limit : ℕ)
    → let (ls, rest) = lines [] input.slices input.tail in
      let whole = framed valid limit input.eof ls rest in
      let seen = read_all valid sizes (new_bounded_line_reader input limit) in
      IsPrefix whole seen × (IsRoomy sizes → length whole.0 < length sizes → is_some seen.1 ≡ true)
unfolding remaining
read_all_refines valid sizes input limit = (
  IsPrefix-read_all valid sizes (new_bounded_line_reader input limit),
  read_all_ends valid sizes (new_bounded_line_reader input limit),
)
