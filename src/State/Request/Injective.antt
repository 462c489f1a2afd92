-- ===== src/State/Request/Injective.antt =====
-- Length prefixes make the hashed stream of a request unambiguous.
use counterpoint.Prelude.{ℕ, ◌^◌, ◌<◌, ◌≡◌, refl, List, [], ◌∷◌, ◌++◌, length, arith, All}
use counterpoint.Prelude.Text.{Bytes}
use counterpoint.State.Request.{Request, put_uint64, fields, stream}

-- Texts that memory can hold: a length is an `int`, and so is below 2 ^ 64.
abbrev pub Addressable : List Bytes → Type 0
Addressable = All (λ (f : Bytes). length f < 2 ^ 64)

put_uint64_injective : (a b : ℕ) → a < 2 ^ 64 → b < 2 ^ 64 → put_uint64 a ≡ put_uint64 b → a ≡ b
unfolding put_uint64
put_uint64_injective a b h k e = ground arith

append_injective : (f g x y : Bytes) → length f ≡ length g → f ++ x ≡ g ++ y → (f ≡ g) × (x ≡ y)
append_injective [] [] x y l e = (refl, e)
append_injective [] (b ∷ g) x y l e = absurd (omega arith)
append_injective (a ∷ f) [] x y l e = absurd (omega arith)
append_injective (a ∷ f) (b ∷ g) x y l e = ground (arith, append_injective f g x y)

prefix_injective :
    (a b : ℕ) (x y : Bytes)
    → put_uint64 a ++ x ≡ put_uint64 b ++ y
    → (put_uint64 a ≡ put_uint64 b) × (x ≡ y)
prefix_injective a b x y e =
    append_injective (put_uint64 a) (put_uint64 b) x y (unfold put_uint64 in refl) e

stream_injective :
    (fs gs : List Bytes) → Addressable fs → Addressable gs → stream fs ≡ stream gs → fs ≡ gs
unfolding stream
stream_injective [] [] h k e = refl
stream_injective [] (g ∷ gs) h k e = absurd (unfold put_uint64 in cc)
stream_injective (f ∷ fs) [] h k e = absurd (unfold put_uint64 in cc)
stream_injective (f ∷ fs) (g ∷ gs) h k e =
    let (p, rest) = prefix_injective (length f) (length g) _ _ e in
    let l = put_uint64_injective (length f) (length g) h.0 k.0 p in
    let (same, tails) = append_injective f g (stream fs) (stream gs) l rest in
    ground (arith, stream_injective fs gs)

-- Two requests that feed the same bytes to the hash are the same request.
pub stream-fields_injective :
    (r s : Request)
    → Addressable (fields r)
    → Addressable (fields s)
    → stream (fields r) ≡ stream (fields s)
    → r ≡ s
unfolding fields
stream-fields_injective r s h k e = ground (arith, stream_injective (fields r) (fields s) h k e)
