-- ===== src/Report/Grouping.antt =====
-- cmd/counterpoint/usage.go: the separators that `group` writes.
use counterpoint.Prelude.{
  ap, ℕ, zero, suc, ◌+◌, ◌-◌, ◌/◌, ◌%◌, ◌≤◌, ◌≡◌, ◌≢◌, refl, Bool, true, false, [], ◌∷◌, All, arith,
  ltb, ◌==◌, if◌then◌else◌, length, Bool-cases, inl, inr,
}
use counterpoint.Prelude.Int.{ℤ, pos, negsuc}
use counterpoint.Prelude.Text.{Bytes}
use counterpoint.Prelude.Decimal.{digits, format_nat, format_int}
use counterpoint.Report.{group_digits, group}

-- The text without its commas.
unfoldable pub ungrouped : Bytes → Bytes
ungrouped [] = []
ungrouped (c ∷ s) = let rest = ungrouped s in if c == b',' then rest else c ∷ rest

abbrev IsPlain : Bytes → Type 0
IsPlain = All (λ (c : ℕ). c ≢ b',')

ungrouped-group_digits :
    (first : Bool) (s : Bytes) → IsPlain s → ungrouped (group_digits first s) ≡ s
unfolding ungrouped group_digits
ungrouped-group_digits first [] h = refl
ungrouped-group_digits first (c ∷ s) (p, ps) = ground (arith, ungrouped-group_digits false s ps, p)

-- A separator for every three digits, but none before the first.
abbrev separators : Bool → ℕ → ℕ
separators true n = (n - 1) / 3
separators false n = n / 3

length-group_digits :
    (first : Bool) (s : Bytes)
    → length (group_digits first s) ≡ length s + separators first (length s)
unfolding group_digits
length-group_digits first [] = ground arith
length-group_digits true (c ∷ s) = ground (arith, length-group_digits false s)
length-group_digits false (c ∷ s) = ground (arith, length-group_digits false s)

-- Each separator has whole groups behind it: groups of three digits with separators between them.
unfoldable pub IsPlaced : Bytes → Type 0
IsPlaced [] = Unit {0}
IsPlaced (c ∷ s) = (c ≡ b',' → length s % 4 ≡ 3) × IsPlaced s

IsPlaced-group_digits : (first : Bool) (s : Bytes) → IsPlain s → IsPlaced (group_digits first s)
unfolding IsPlaced group_digits
IsPlaced-group_digits first [] h = tt
IsPlaced-group_digits first (c ∷ s) (p, ps) =
    ground (arith, IsPlaced-group_digits false s ps, length-group_digits false s, p)

IsPlain-digits : (fuel n : ℕ) (rest : Bytes) → IsPlain rest → IsPlain (digits fuel n rest)
unfolding digits
IsPlain-digits zero n rest h = h
IsPlain-digits (suc fuel) n rest h = elim (Bool-cases (ltb n 10)) [
  | inl q ↦ rw q (plain (48 + n) (omega arith), h)
  | inr q ↦
      rw q
        (IsPlain-digits fuel (n / 10) ((48 + n % 10) ∷ rest) (plain (48 + n % 10) (omega arith), h))
]
  where
    plain : (c : ℕ) → 48 ≤ c → c ≢ b','
    plain c le e = omega (arith, le, e)

IsPlain-format_nat : (n : ℕ) → IsPlain (format_nat n)
unfolding format_nat
IsPlain-format_nat n = IsPlain-digits (suc n) n [] tt

abbrev magnitude : ℤ → ℕ
magnitude (pos n) = n
magnitude (negsuc n) = suc n

-- group writes the digits of FormatInt in groups of three from the right: without the separators it
-- is FormatInt's text, behind each separator stand only whole groups of three digits with separators
-- between them, and there is a separator for every three digits after the first one.
pub ungrouped-group :
    (n : ℤ)
    → (ungrouped (group n) ≡ format_int n)
      × IsPlaced (group n)
      × (length (group n) ≡ length (format_int n) + (length (format_nat (magnitude n)) - 1) / 3)
unfolding group format_int ungrouped IsPlaced
ungrouped-group (pos n) = (
  ungrouped-group_digits true (format_nat n) (IsPlain-format_nat n),
  IsPlaced-group_digits true (format_nat n) (IsPlain-format_nat n),
  length-group_digits true (format_nat n),
)
ungrouped-group (negsuc n) = (
  ap (◌∷◌ b'-') (ungrouped-group_digits true (format_nat (suc n)) (IsPlain-format_nat (suc n))),
  (
    λ e. absurd (omega (arith, e)),
    IsPlaced-group_digits true (format_nat (suc n)) (IsPlain-format_nat (suc n)),
  ),
  omega (arith, length-group_digits true (format_nat (suc n))),
)
