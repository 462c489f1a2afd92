-- ===== src/Prelude/Trim.antt =====
-- The trimming of Go's strings and bytes packages: Unicode white space, in UTF-8, at both ends, and
-- one byte at the end.
use Prim.Native.Nat.{ℕ, zero, suc}
use mathlib.Core.Bool.{Bool, true, ◌&&◌, ◌||◌}
use mathlib.Core.List.{[], ◌∷◌}
use counterpoint.Prelude.Tests.{leb, ◌==◌, if◌then◌else◌}
use counterpoint.Prelude.Text.{Bytes}

unfoldable pub is_space : ℕ → Bool
is_space b = b == 32 || leb 9 b && leb b 13

-- U+0085 and U+00A0.
is_space_2 : ℕ → ℕ → Bool
is_space_2 a b = a == 194 && (b == 133 || b == 160)

-- U+1680, U+2000 to U+200A, U+2028, U+2029, U+202F, U+205F and U+3000.
is_space_3 : ℕ → ℕ → ℕ → Bool
is_space_3 a b c =
    (a == 225 && (b == 154 && c == 128))
    || ((a == 226
          && ((b == 128 && ((leb 128 c && leb c 138) || (c == 168 || (c == 169 || c == 175))))
              || (b == 129 && c == 159)))
        || (a == 227 && (b == 128 && c == 128)))

-- How many bytes the white space at the start of the text has; 0 when another rune is there.
unfoldable pub space_size : Bytes → ℕ
unfolding is_space is_space_2 is_space_3
space_size [] = 0
space_size (a ∷ []) = if is_space a then 1 else 0
space_size (a ∷ b ∷ []) = if is_space a then 1 else if is_space_2 a b then 2 else 0
space_size (a ∷ b ∷ c ∷ s) =
    if is_space a then 1 else if is_space_2 a b then 2 else if is_space_3 a b c then 3 else 0

-- The same at the end of the text, whose bytes come in reverse order.
last_space_size : Bytes → ℕ
unfolding is_space is_space_2 is_space_3
last_space_size [] = 0
last_space_size (a ∷ []) = if is_space a then 1 else 0
last_space_size (b ∷ a ∷ []) = if is_space b then 1 else if is_space_2 a b then 2 else 0
last_space_size (c ∷ b ∷ a ∷ s) =
    if is_space c then 1 else if is_space_2 b c then 2 else if is_space_3 a b c then 3 else 0

-- The first argument says how a rune to be dropped is recognised; the second, how many bytes of it
-- are still to be dropped.
trim_by : (Bytes → ℕ) → ℕ → Bytes → Bytes
trim_by size k [] = []
trim_by size (suc k) (b ∷ s) = trim_by size k s
trim_by size zero (b ∷ s) = elim (size (b ∷ s)) [ zero ↦ b ∷ s | suc k ↦ trim_by size k s ]

reversed : Bytes → Bytes → Bytes
reversed out [] = out
reversed out (b ∷ s) = reversed (b ∷ out) s

unfoldable pub trim_space : Bytes → Bytes
unfolding trim_by space_size last_space_size reversed
trim_space s = reversed [] (trim_by last_space_size 0 (reversed [] (trim_by space_size 0 s)))

unfoldable pub only : (ℕ → Bool) → Bytes → Bool
only test [] = true
only test (b ∷ s) = test b && only test s

-- Without the bytes at the end that pass the test.
unfoldable pub trim_right_by : (ℕ → Bool) → Bytes → Bytes
unfolding only
trim_right_by test [] = []
trim_right_by test (b ∷ s) =
    let rest = trim_right_by test s in if only test (b ∷ s) then [] else b ∷ rest

unfoldable pub trim_right : ℕ → Bytes → Bytes
unfolding trim_right_by
trim_right c s = trim_right_by (λ b. b == c) s
