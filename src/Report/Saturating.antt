-- ===== src/Report/Saturating.antt =====
-- cmd/counterpoint/usage.go: the sum of the reports.
use counterpoint.Prelude.{
  ap, ◌∙◌, Option-cases, subst, ℕ, ◌+◌, ◌-◌, ◌≤◌, ◌≡◌, refl, Bool, ◌||◌, List, [], ◌∷◌, Option,
  none, some, All, arith, ltb, leb, if◌then◌else◌, Bool-cases, inl, inr,
}
use counterpoint.Prelude.Int.{pos_part, ℤ, pos, negsuc, ◌+ℤ◌, ◌-ℤ◌, wrap64, max_int}
use counterpoint.State.Record.{Usage}
use counterpoint.Report.{Round, Tally, no_tally, add_saturating, count_round, count_rounds}

abbrev amount : Round → ℕ
amount r = elim r.usage [ none ↦ 0 | some u ↦ pos_part u.last.total ]

abbrev counted : Round → ℕ
counted r = elim r.usage [ none ↦ 0 | some _ ↦ 1 ]

-- The exact sum of the last reports, over numbers without a bound, and their count.
unfoldable pub exact_sum : List Round → ℕ
exact_sum [] = 0
exact_sum (r ∷ rs) = amount r + exact_sum rs

unfoldable pub exact_count : List Round → ℕ
exact_count [] = 0
exact_count (r ∷ rs) = counted r + exact_count rs

-- What the validation of the state file guarantees of a counter.
abbrev pub IsCounter : ℤ → Type 0
IsCounter (pos n) = n ≤ max_int
IsCounter (negsuc n) = ⊥

abbrev pub HasCounters : Round → Type 0
HasCounters r = elim r.usage [ none ↦ Unit | some u ↦ IsCounter u.last.total ]

abbrev pub capped : ℕ → ℕ
capped n = if leb n max_int then n else max_int

wrap_small : (n : ℕ) → n ≤ max_int → wrap64 (pos n) ≡ pos n
wrap_small n h = ground arith

room_lem : (a : ℕ) → a ≤ max_int → wrap64 (pos max_int -ℤ pos a) ≡ pos (max_int - a)
room_lem a h = ground arith

sum_lem : (a b : ℕ) → a + b ≤ max_int → wrap64 (pos a +ℤ pos b) ≡ pos (a + b)
sum_lem a b h = ground arith

add_small :
    (a n : ℕ) (already : Bool)
    → a ≤ max_int
    → add_saturating (pos a) (pos n) already
      ≡ (pos (capped (a + n)), ltb max_int (a + n) || already)
unfolding add_saturating
add_small a n already h = elim (Bool-cases (ltb max_int (a + n))) [
  | inl q ↦ ground (arith, q, room_lem a h)
  | inr q ↦ ground (arith, q, room_lem a h, sum_lem a n)
]

-- Adding a counter to a clamped sum clamps the exact sum.
add_lem :
    (total n : ℕ)
    → n ≤ max_int
    → add_saturating (pos (capped total)) (pos n) (ltb max_int total)
      ≡ (pos (capped (total + n)), ltb max_int (total + n))
add_lem total n h = ground (arith, add_small (capped total) n (ltb max_int total))

abbrev pub tally : ℕ → ℕ → Tally
tally total n = record { sum = pos (capped total); saturated = ltb max_int total; recorded = n }

counter_lem : (z : ℤ) → IsCounter z → (pos (pos_part z) ≡ z) × (pos_part z ≤ max_int)
counter_lem (pos n) h = (refl, h)
counter_lem (negsuc n) h = absurd h

count_one :
    (total n : ℕ) (r : Round)
    → HasCounters r
    → count_round (tally total n) r ≡ tally (total + amount r) (n + counted r)
unfolding count_round
count_one total n r h = elim (Option-cases r.usage) [
  | inl q ↦ ground (arith, q)
  | inr (u, q) ↦
      let given : IsCounter u.last.total = counter_of q in
      let (same, le) = counter_lem u.last.total given in
      ground (arith, q, same, add_lem total (pos_part u.last.total) le)
]
  where
    counter_of : {u : Usage} → r.usage ≡ some u → IsCounter u.last.total
    counter_of {u} q =
        subst (λ (o : Option Usage). elim o [ none ↦ Unit | some u ↦ IsCounter u.last.total ]) q h

count_from :
    (total n : ℕ) (rs : List Round)
    → All HasCounters rs
    → count_rounds (tally total n) rs ≡ tally (total + exact_sum rs) (n + exact_count rs)
unfolding count_rounds exact_sum exact_count
count_from total n [] h = ground arith
count_from total n (r ∷ rs) (c, cs) =
    let rest = count_from (total + amount r) (n + counted r) rs cs in
    let one = count_one total n r c in
    let sums : total + amount r + exact_sum rs ≡ total + (amount r + exact_sum rs) = omega arith in
    let counts : n + counted r + exact_count rs ≡ n + (counted r + exact_count rs) = omega arith in
    rw (one, rest, sums, counts) refl

-- For rounds whose reports are counters of the state file, the running sum is the exact sum clamped
-- at the largest int64, it is called clamped exactly when the exact sum is above that, and every
-- recorded round is counted.
pub count_rounds_exact :
    (rs : List Round)
    → All HasCounters rs
    → count_rounds no_tally rs ≡ record {
      sum = pos (if leb (exact_sum rs) max_int then exact_sum rs else max_int);
      saturated = ltb max_int (exact_sum rs);
      recorded = exact_count rs;
    }
count_rounds_exact rs h =
    let a : 0 + exact_sum rs ≡ exact_sum rs = omega arith in
    let b : 0 + exact_count rs ≡ exact_count rs = omega arith in
    count_from 0 0 rs h
    ∙ ap (λ (n : ℕ). tally n (0 + exact_count rs)) a
    ∙ ap (tally (exact_sum rs)) b
