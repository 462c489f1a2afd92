-- ===== src/GitRepo/Buffer.antt =====
-- `boundedBuffer` of internal/gitrepo/git.go: what it retains of a stream of writes.
use native.Mathlib.Decide.{dec_le}
use counterpoint.Prelude.{
  sym, ◌∙◌, append-nil, zero, ℕ, suc, ◌-◌, ◌≤◌, ◌<◌, ◌≡◌, refl, ap, is_empty, Bool, true, false,
  List, [], ◌∷◌, ◌++◌, length, take, ltb, leb, length-append, append_assoc, arith, if◌then◌else◌,
  All,
}
use counterpoint.Prelude.Text.{Bytes}

pub record BoundedBuffer : Type 0 where
  pub buf : Bytes
  pub limit : ℕ
  pub overflow : Bool

abbrev pub bounded_buffer : ℕ → BoundedBuffer
bounded_buffer limit = record { buf = []; limit = limit; overflow = false }

unfoldable pub write : BoundedBuffer → Bytes → BoundedBuffer
write b p =
    let room = b.limit - length b.buf in
    if leb b.limit (length b.buf)
    then record b { overflow = true }
    else if ltb room (length p)
    then record b { buf = b.buf ++ take room p; overflow = true }
    else record b { buf = b.buf ++ p }

unfoldable pub write_all : BoundedBuffer → List Bytes → BoundedBuffer
unfolding write
write_all b [] = b
write_all b (p ∷ ps) = write_all (write b p) ps

unfoldable pub concat : List Bytes → Bytes
concat [] = []
concat (p ∷ ps) = p ++ concat ps

take_long : (n : ℕ) (xs : Bytes) → length xs ≤ n → take n xs ≡ xs
take_long zero [] h = refl
take_long (suc n) [] h = refl
take_long zero (x ∷ xs) h = absurd (omega arith)
take_long (suc n) (x ∷ xs) h = ap (◌∷◌ x) (take_long n xs (omega arith))

take_append_le : (n : ℕ) (xs ys : Bytes) → n ≤ length xs → take n (xs ++ ys) ≡ take n xs
take_append_le zero xs ys h = ground arith
take_append_le (suc n) [] ys h = absurd (omega arith)
take_append_le (suc n) (x ∷ xs) ys h = ap (◌∷◌ x) (take_append_le n xs ys (omega arith))

take_append_ge :
    (n : ℕ) (xs ys : Bytes) → length xs ≤ n → take n (xs ++ ys) ≡ xs ++ take (n - length xs) ys
take_append_ge n [] ys h = ground arith
take_append_ge zero (x ∷ xs) ys h = absurd (omega arith)
take_append_ge (suc n) (x ∷ xs) ys h =
    let same : suc n - suc (length xs) ≡ n - length xs = omega arith in
    rw same (ap (◌∷◌ x) (take_append_ge n xs ys (omega arith)))

-- The buffer after the text `seen` was offered.
record Retains (b : BoundedBuffer) (seen : Bytes) : Type 0 where
  kept : b.buf ≡ take b.limit seen
  lost : b.overflow ≡ ltb b.limit (length seen)

filled : (b : BoundedBuffer) (seen : Bytes) → Retains b seen → length seen ≤ b.limit → b.buf ≡ seen
filled b seen h le = rw h.kept (take_long b.limit seen le)

length-take : (n : ℕ) (xs : Bytes) → n ≤ length xs → length (take n xs) ≡ n
length-take zero xs h = ground arith
length-take (suc n) [] h = absurd (omega arith)
length-take (suc n) (x ∷ xs) h = omega (arith, length-take n xs (omega arith))

nonempty : (p : Bytes) → is_empty p ≡ false → 0 < length p
nonempty [] h = absurd (cc)
nonempty (x ∷ p) h = omega arith

write-Retains :
    (b : BoundedBuffer) (seen p : Bytes)
    → is_empty p ≡ false
    → Retains b seen
    → Retains (write b p) (seen ++ p)
unfolding write
write-Retains b seen p e h = elim (dec_le b.limit (length seen)) [
  | yes over ↦
      let full : length b.buf ≡ b.limit = rw h.kept (length-take b.limit seen over) in
      record {
        kept = ground (arith, full, h.kept, take_append_le b.limit seen p over);
        lost = ground (arith, full, length-append seen p, nonempty p e);
      }
  | no room ↦
      let same = filled b seen h (omega arith) in
      record {
        kept = ground (
          arith,
          same,
          take_append_ge b.limit seen p (omega arith),
          take_long (b.limit - length seen) p,
        );
        lost = ground (arith, same, h.lost, length-append seen p, nonempty p e);
      }
]

abbrev pub IsWritten : List Bytes → Type 0
IsWritten = All (λ (p : Bytes). is_empty p ≡ false)

write_all-Retains :
    (b : BoundedBuffer) (seen : Bytes) (writes : List Bytes)
    → IsWritten writes
    → Retains b seen
    → Retains (write_all b writes) (seen ++ concat writes)
unfolding write_all concat
write_all-Retains b seen [] n h = rw (append-nil seen) h
write_all-Retains b seen (p ∷ writes) (n, ns) h =
    rw⁻¹ (append_assoc seen p (concat writes))
      (write_all-Retains (write b p) (seen ++ p) writes ns (write-Retains b seen p n h))

pub limit-write_all :
    (b : BoundedBuffer) (writes : List Bytes) → (write_all b writes).limit ≡ b.limit
unfolding write_all write
limit-write_all b [] = refl
limit-write_all b (p ∷ writes) = ground (arith, limit-write_all (write b p) writes)

-- Of any sequence of writes, none of them empty, the buffer retains the first `limit` bytes of the
-- whole text, wherever the writes divide it, and reports an overflow exactly when there was more.
pub write_all_bounds :
    (limit : ℕ) (writes : List Bytes)
    → IsWritten writes
    → let b = write_all (bounded_buffer limit) writes in
      (b.buf ≡ take limit (concat writes)) × (b.overflow ≡ ltb limit (length (concat writes)))
write_all_bounds limit writes n =
    let first : Retains (bounded_buffer limit) [] = record {
      kept = sym (take_long limit [] (omega arith));
      lost = ground arith;
    } in
    let h = write_all-Retains (bounded_buffer limit) [] writes n first in
    let l = limit-write_all (bounded_buffer limit) writes in
    (
      h.kept ∙ ap (λ (n : ℕ). take n (concat writes)) l,
      h.lost ∙ ap (λ (n : ℕ). ltb n (length (concat writes))) l,
    )
