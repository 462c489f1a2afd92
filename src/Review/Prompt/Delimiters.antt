-- ===== src/Review/Prompt/Delimiters.antt =====
-- `delimiters` of internal/review/prompt.go: the markers around a quoted text. The hex SHA-256 of the
-- standard library is the argument `hex_sum`.
use counterpoint.Prelude.{
  ℕ, zero, suc, ◌+◌, ◌-◌, ◌≤◌, ◌<◌, ◌≡◌, refl, Bool, true, false, not, ◌&&◌, List, [], ◌∷◌, ◌++◌,
  Option, none, some, length, length-append, take, leb, arith, if◌then◌else◌, Bool-cases, inl, inr,
}
use counterpoint.Prelude.Text.{Bytes, codes, has_prefix, contains}

-- strings.Repeat("0", n)
unfoldable pub zeros : ℕ → Bytes
zeros zero = []
zeros (suc n) = b'0' ∷ zeros n

unfoldable pub tag : Bytes → ℕ → Bytes
unfolding zeros
tag full n = if leb n (length full) then take n full else full ++ zeros (n - length full)

-- The markers with this text between "<<<" or "<<<END " and ">>>".
unfoldable pub opening : Bytes → Bytes
opening name = codes "<<<" ++ (name ++ codes ">>>")

unfoldable pub closing : Bytes → Bytes
closing name = codes "<<<END " ++ (name ++ codes ">>>")

unfoldable pub free : Bytes → Bytes → Bool
free notes name = not (contains notes (opening name)) && not (contains notes (closing name))

abbrev tagged : Bytes → Bytes → ℕ → Bytes
tagged label full n = label ++ (codes " " ++ tag full n)

-- The loop from a tag of n characters, for at most `fuel` turns.
unfoldable pub lengthen : Bytes → Bytes → Bytes → ℕ → ℕ → Option (Bytes × Bytes)
lengthen label notes full n zero = none
lengthen label notes full n (suc fuel) =
    let longer = lengthen label notes full (suc n) fuel in
    let name = tagged label full n in
    if free notes name then some (opening name, closing name) else longer

unfoldable pub delimiters : (Bytes → Bytes) → Bytes → Bytes → ℕ → Option (Bytes × Bytes)
delimiters hex_sum label notes fuel =
    if free notes label
    then some (opening label, closing label)
    else lengthen label notes (hex_sum notes) 16 fuel

has_prefix_short : (s p : Bytes) → length s < length p → has_prefix s p ≡ false
unfolding has_prefix
has_prefix_short s [] h = absurd (omega arith)
has_prefix_short [] (b ∷ p) h = refl
has_prefix_short (a ∷ s) (b ∷ p) h = ground (arith, has_prefix_short s p)

contains_short : (s t : Bytes) → length s < length t → contains s t ≡ false
unfolding contains
contains_short [] t h = has_prefix_short [] t h
contains_short (a ∷ s) t h = ground (arith, has_prefix_short (a ∷ s) t, contains_short s t)

length-zeros : (n : ℕ) → length (zeros n) ≡ n
unfolding zeros
length-zeros zero = refl
length-zeros (suc n) = omega (arith, length-zeros n)

length-take : {A : Type 0} (n : ℕ) (xs : List A) → n ≤ length xs → length (take n xs) ≡ n
length-take zero xs h = refl
length-take (suc n) [] h = absurd (omega arith)
length-take (suc n) (x ∷ xs) h = omega (arith, length-take n xs)

length-tag : (full : Bytes) (n : ℕ) → length (tag full n) ≡ n
unfolding tag
length-tag full n = ground (
  arith,
  length-take n full,
  length-append full (zeros (n - length full)),
  length-zeros (n - length full),
)

free_long : (notes name : Bytes) → length notes < length name → free notes name ≡ true
unfolding free opening closing
free_long notes name h =
    let o = contains_short notes (opening name) (
      omega (
        arith,
        length-append name (codes ">>>"),
        length-append (codes "<<<") (name ++ codes ">>>"),
      )) in
    let c = contains_short notes (closing name) (
      omega (
        arith,
        length-append name (codes ">>>"),
        length-append (codes "<<<END ") (name ++ codes ">>>"),
      )) in
    ground (arith, o, c)

length-tagged : (label full : Bytes) (n : ℕ) → n < length (tagged label full n)
length-tagged label full n =
    omega (arith, length-append label (codes " " ++ tag full n), length-tag full n)

-- A pair of markers that the notes do not hold.
abbrev pub Safe : Bytes → Option (Bytes × Bytes) → Type 0
Safe notes none = ⊥
Safe notes (some (begin, end)) = (contains notes begin ≡ false) × (contains notes end ≡ false)

free-Safe :
    (notes name : Bytes) → free notes name ≡ true → Safe notes (some (opening name, closing name))
unfolding free
free-Safe notes name h = ground arith

lengthen-Safe :
    (label notes full : Bytes) (n fuel : ℕ)
    → 0 < fuel
    → length notes < n + fuel
    → Safe notes (lengthen label notes full n fuel)
unfolding lengthen
lengthen-Safe label notes full n zero p h = absurd (omega arith)
lengthen-Safe label notes full n (suc fuel) p h =
    elim (Bool-cases (free notes (tagged label full n))) [
      | inl ready ↦ rw ready (free-Safe notes (tagged label full n) ready)
      | inr taken ↦
          let short : n < length notes =
            ground
              (arith, taken, free_long notes (tagged label full n), length-tagged label full n) in
          rw taken (lengthen-Safe label notes full (suc n) fuel (omega arith) (omega arith))
    ]

-- For any label and notes, whatever the hash is, the loop ends within one turn for each byte of the
-- notes and one more, and neither marker that it returns occurs in the notes.
pub delimiters-Safe :
    (hex_sum : Bytes → Bytes) (label notes : Bytes)
    → Safe notes (delimiters hex_sum label notes (suc (length notes)))
unfolding delimiters
delimiters-Safe hex_sum label notes = elim (Bool-cases (free notes label)) [
  | inl plain ↦ rw plain (free-Safe notes label plain)
  | inr taken ↦ rw taken (
      lengthen-Safe label notes (hex_sum notes) 16 (suc (length notes)) (omega arith) (omega arith))
]
