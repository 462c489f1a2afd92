-- ===== src/AppServer/Toml/RoundTrip.antt =====
-- A TOML reader gets back the text that tomlString quoted, and stops at its closing quote.
use counterpoint.Prelude.{
  ℕ, zero, suc, ◌+◌, ◌-◌, ◌*◌, ◌/◌, ◌%◌, ◌<◌, ◌≡◌, refl, ap, ◌∙◌, ◌||◌, [], ◌∷◌, ◌++◌, Option, none,
  some, ltb, ◌==◌, arith, if◌then◌else◌, append_assoc,
}
use counterpoint.Prelude.Text.{Bytes}
use counterpoint.AppServer.Toml.{hex_digit, escape, toml_rune, toml_runes, toml_string}

-- The grammar of TOML's basic strings, for the escapes \" \\ and \uXXXX: where a reader stands after
-- the opening quote. `unicode k v` wants k more digits after the value v.
data Mode : Type 0 where
  plain escaped : Mode
  unicode : ℕ → ℕ → Mode

data Next : Type 0 where
  stop refuse : Next
  move : Mode → Next
  emit : ℕ → Next

hex_value : ℕ → ℕ
hex_value c = if ltb c 65 then c - 48 else c - 55

read_one : Mode → ℕ → Next
unfolding hex_value
read_one plain c =
    if c == b'"'
    then stop
    else if c == b'\\'
    then move escaped
    else if ltb c 0x20 || (c == 0x7f)
    then refuse
    else emit c
read_one escaped c =
    if (c == b'"') || (c == b'\\') then emit c else if c == b'u' then move (unicode 3 0) else refuse
read_one (unicode zero v) c = emit (v * 16 + hex_value c)
read_one (unicode (suc k) v) c = move (unicode k (v * 16 + hex_value c))

abbrev prepend : ℕ → Option (Bytes × Bytes) → Option (Bytes × Bytes)
prepend r none = none
prepend r (some (s, rest)) = some (r ∷ s, rest)

-- The text up to the closing quote, and what follows it.
read : Mode → Bytes → Option (Bytes × Bytes)
read m [] = none
read m (c ∷ cs) = elim (read_one m c) [
  | stop ↦ some ([], cs)
  | refuse ↦ none
  | move m' ↦ read m' cs
  | emit r ↦ prepend r (read plain cs)
]

-- A value: an opening quote, the text, the closing quote.
pub read_basic_string : Bytes → Option (Bytes × Bytes)
unfolding read read_one
read_basic_string [] = none
read_basic_string (c ∷ cs) = if c == b'"' then read plain cs else none

hex_value-hex_digit : (d : ℕ) → d < 16 → hex_value (hex_digit d) ≡ d
unfolding hex_value hex_digit
hex_value-hex_digit d h = ground arith

-- The value of four hex digits.
abbrev four : ℕ → ℕ → ℕ → ℕ → ℕ
four a b c d = (((0 + a) * 16 + b) * 16 + c) * 16 + d

four_digits :
    (r : ℕ)
    → r < 65536
    → four
        (hex_value (hex_digit (r / 4096 % 16)))
        (hex_value (hex_digit (r / 256 % 16)))
        (hex_value (hex_digit (r / 16 % 16)))
        (hex_value (hex_digit (r % 16)))
      ≡ r
four_digits r h = omega (
  arith,
  hex_value-hex_digit (r / 4096 % 16) (omega arith),
  hex_value-hex_digit (r / 256 % 16) (omega arith),
  hex_value-hex_digit (r / 16 % 16) (omega arith),
  hex_value-hex_digit (r % 16) (omega arith),
)

read-escape :
    (r : ℕ) (rest : Bytes) → r < 65536 → read plain (escape r ++ rest) ≡ prepend r (read plain rest)
unfolding read read_one escape
read-escape r rest h = ap (λ (v : ℕ). prepend v (read plain rest)) (four_digits r h)

-- `toml_rune` on its three branches.
read-toml_rune :
    (r : ℕ) (rest : Bytes) → read plain (toml_rune r ++ rest) ≡ prepend r (read plain rest)
unfolding read read_one toml_rune
read-toml_rune r rest = ground (arith, read-escape r rest)

read-toml_runes : (s rest : Bytes) → read plain (toml_runes s ++ (b'"' ∷ rest)) ≡ some (s, rest)
unfolding toml_runes
read-toml_runes [] rest = unfold read read_one in refl
read-toml_runes (r ∷ s) rest = rw append_assoc (read-toml_rune r _ ∙ rw (read-toml_runes s rest))

-- A TOML reader takes a quoted text for that text, whatever runes are in it, and goes on behind its
-- closing quote, so no text can end its own value.
pub read_basic_string-toml_string :
    (s rest : Bytes) → read_basic_string (toml_string s ++ rest) ≡ some (s, rest)
unfolding read_basic_string toml_string
read_basic_string-toml_string s rest = rw append_assoc (read-toml_runes s rest)
