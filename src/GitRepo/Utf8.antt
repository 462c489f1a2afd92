-- ===== src/GitRepo/Utf8.antt =====
-- utf8.ValidString, as internal/gitrepo/instructions.go uses it.
use counterpoint.Prelude.{
  ℕ, Bool, true, false, ◌&&◌, List, [], ◌∷◌, Option, none, some, ltb, leb, ◌==◌, if◌then◌else◌,
}
use counterpoint.Prelude.Text.{Bytes}

abbrev Range : Type 0
Range = ℕ × ℕ

abbrev tail_byte : Range
tail_byte = (128, 191)

-- The bytes that a first byte wants after it: no surrogates, nothing overlong or above U+10FFFF.
starts : ℕ → Option (List Range)
starts b =
    if ltb b 128
    then some []
    else if ltb b 194
    then none
    else if ltb b 224
    then some (tail_byte ∷ [])
    else if b == 224
    then some ((160, 191) ∷ tail_byte ∷ [])
    else if b == 237
    then some ((128, 159) ∷ tail_byte ∷ [])
    else if ltb b 240
    then some (tail_byte ∷ tail_byte ∷ [])
    else if b == 240
    then some ((144, 191) ∷ tail_byte ∷ tail_byte ∷ [])
    else if ltb b 244
    then some (tail_byte ∷ tail_byte ∷ tail_byte ∷ [])
    else if b == 244
    then some ((128, 143) ∷ tail_byte ∷ tail_byte ∷ [])
    else none

valid_after : Option (List Range) → Bytes → Bool
unfolding starts
valid_after none s = false
valid_after (some []) [] = true
valid_after (some (_ ∷ _)) [] = false
valid_after (some []) (b ∷ s) = valid_after (starts b) s
valid_after (some ((lo, hi) ∷ rs)) (b ∷ s) = leb lo b && leb b hi && valid_after (some rs) s

unfoldable pub valid_string : Bytes → Bool
unfolding valid_after
valid_string s = valid_after (some []) s
