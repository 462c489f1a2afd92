-- ===== src/Prelude/Text.antt =====
-- Go strings as byte lists: comparison, prefixes and occurrence.
use Prim.Native.Char.{code}
use Prim.Native.String.{String}
use Prim.Native.Nat.{ℕ}
use mathlib.Core.Path.{◌≡◌, refl}
use mathlib.Core.Bool.{Bool, true, false, ◌&&◌, ◌||◌}
use mathlib.Core.Logic.{◌↔◌}
use mathlib.Core.List.{List, [], ◌∷◌, ◌++◌}
use native.Mathlib.Omega.{arith}
use counterpoint.Prelude.Tests.{◌==◌}

abbrev pub Bytes : Type 0
Bytes = List ℕ

-- The bytes of an ASCII literal.
abbrev pub codes : String → Bytes
codes String.[] = []
codes (String.◌∷◌ c s) = code c ∷ codes s

-- s == t
unfoldable pub eq_text : Bytes → Bytes → Bool
eq_text [] [] = true
eq_text [] (_ ∷ _) = false
eq_text (_ ∷ _) [] = false
eq_text (a ∷ s) (b ∷ t) = a == b && eq_text s t

eq_text→eq : (s t : Bytes) → eq_text s t ≡ true → s ≡ t
unfolding eq_text
eq_text→eq [] [] h = refl
eq_text→eq [] (b ∷ t) h = cc
eq_text→eq (a ∷ s) [] h = cc
eq_text→eq (a ∷ s) (b ∷ t) h = ground (arith, eq_text→eq s t)

pub eq_text_refl : (s : Bytes) → eq_text s s ≡ true
unfolding eq_text
eq_text_refl [] = refl
eq_text_refl (a ∷ s) = ground (arith, eq_text_refl s)

pub eq_text_iff : (s t : Bytes) → (eq_text s t ≡ true) ↔ (s ≡ t)
eq_text_iff s t = (eq_text→eq s t, λ e. rw e (eq_text_refl t))

-- strings.HasPrefix(s, p)
unfoldable pub has_prefix : Bytes → Bytes → Bool
has_prefix s [] = true
has_prefix [] (_ ∷ _) = false
has_prefix (a ∷ s) (b ∷ p) = a == b && has_prefix s p

-- strings.Contains(s, t)
unfoldable pub contains : Bytes → Bytes → Bool
unfolding has_prefix
contains [] t = has_prefix [] t
contains (a ∷ s) t = has_prefix (a ∷ s) t || contains s t

pub has_prefix_lem : (s p : Bytes) → has_prefix s p ≡ true → (r : Bytes) × (s ≡ p ++ r)
unfolding has_prefix
has_prefix_lem s [] h = (s, refl)
has_prefix_lem [] (b ∷ p) h = absurd (cc)
has_prefix_lem (a ∷ s) (b ∷ p) h =
    let (r, e) = has_prefix_lem s p (ground arith) in (r, ground arith)

pub has_prefix-append : (p r : Bytes) → has_prefix (p ++ r) p ≡ true
unfolding has_prefix
has_prefix-append [] r = refl
has_prefix-append (a ∷ p) r = ground (arith, has_prefix-append p r)

pub has_prefix→contains : (s t : Bytes) → has_prefix s t ≡ true → contains s t ≡ true
unfolding contains
has_prefix→contains [] t h = h
has_prefix→contains (a ∷ s) t h = rw h

pub contains-append : (s t r : Bytes) → contains (s ++ (t ++ r)) t ≡ true
unfolding contains
contains-append [] t r = has_prefix→contains (t ++ r) t (has_prefix-append t r)
contains-append (a ∷ s) t r = ground (arith, contains-append s t r)
