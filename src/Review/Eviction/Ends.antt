-- ===== src/Review/Eviction/Ends.antt =====
-- The eviction loop ends: each pass evicts a record, and the fuel covers every record there is.
use counterpoint.Prelude.{
  Result-cases, ℕ, zero, suc, ◌+◌, ◌-◌, ◌≤◌, ◌<◌, ◌≡◌, ◌≢◌, refl, ap, Bool, true, false, List, [],
  ◌∷◌, Option, none, some, length, arith, ltb, Result, Bool-cases, Option-cases, inl, inr, ◌⊎◌,
}
use counterpoint.Prelude.Text.{Bytes}
use counterpoint.State.Record.{HistoryRecord, Workflow}
use counterpoint.State.Store.{Workflows, get, put, SaveError}
use counterpoint.Review.Eviction.{
  Candidate, Heap, Outcome, out_of_fuel, records, Pass, again, stops, evict_oldest, evict_pass,
  evict_loop, save_evicting_history, plan_or_new, as_too_large,
}

records-put :
    (m : Workflows) (k : Bytes) (w w' : Workflow)
    → get m k ≡ some w
    → records (put m k w') + length w.history ≡ records m + length w'.history
unfolding records put get
records-put [] k w w' h = absurd (cc)
records-put ((j, v) ∷ m) k w w' h = ground (arith, records-put m k w w')

-- What `evict_oldest` does when there is a record to evict.
pub record Evicted (m : Workflows) (k : Bytes) (m' : Workflows) (r : HistoryRecord) : Type 0 where
  pub from : Workflow
  pub rest : List HistoryRecord
  pub found : get m k ≡ some from
  pub oldest : from.history ≡ r ∷ rest
  pub stored : m' ≡ put m k (record from { history = rest })

Evicted-of :
    (m : Workflows) (k : Bytes) (w : Workflow) (h : List HistoryRecord) {m' : Workflows}
    {r : HistoryRecord}
    → get m k ≡ some w
    → w.history ≡ h
    → evict_oldest m k (some w) ≡ some (m', r)
    → Evicted m k m' r
unfolding evict_oldest
Evicted-of m k w [] g e h = absurd (ground arith)
Evicted-of m k w (x ∷ rest) g e h = record {
  from = w;
  rest = rest;
  found = g;
  oldest = ground arith;
  stored = ground arith;
}

pub evict_oldest-Evicted :
    (m : Workflows) (k : Bytes) {m' : Workflows} {r : HistoryRecord}
    → evict_oldest m k (get m k) ≡ some (m', r)
    → Evicted m k m' r
evict_oldest-Evicted m k {m'} {r} h = elim (Option-cases (get m k)) [
  | inl e ↦ absurd (unfold evict_oldest in ground arith)
  | inr (w, e) ↦ Evicted-of m k w w.history {m' = m'} {r = r} e refl (rw e at h)
]

pub records-Evicted :
    (m : Workflows) (k : Bytes) {m' : Workflows} {r : HistoryRecord}
    → Evicted m k m' r
    → suc (records m') ≡ records m
records-Evicted m k v =
    let put_lem = records-put m k v.from (record v.from { history = v.rest }) v.found in
    rw v.stored (omega (arith, ap length v.oldest))

pub Pass-cases :
    (p : Pass)
    → ((x : Workflows × List Candidate × ℕ) × (p ≡ again x.0 x.1 x.2))
      ⊎ ((x : Workflows × Outcome) × (p ≡ stops x.0 x.1))
Pass-cases (again m plan tick) = inl ((m, plan, tick), refl)
Pass-cases (stops m o) = inr ((m, o), refl)

-- A pass that is not out of fuel, and that hands on at most n records.
abbrev Good : ℕ → Pass → Type 0
Good n (again m plan tick) = records m ≤ n
Good n (stops m o) = o ≢ out_of_fuel

Good-mono : (m n : ℕ) (p : Pass) → m ≤ n → Good m p → Good n p
Good-mono m n (again w plan tick) h g = omega arith
Good-mono m n (stops w o) h g = g

-- The same, with fewer than n records handed on.
abbrev Better : ℕ → Pass → Type 0
Better n (again m plan tick) = records m < n
Better n (stops m o) = o ≢ out_of_fuel

Better-mono : (m n : ℕ) (p : Pass) → m < n → Good m p → Better n p
Better-mono m n (again w plan tick) h g = omega arith
Better-mono m n (stops w o) h g = g

module _ (heap : Heap) (record_bytes : HistoryRecord → ℕ) (ended : ℕ → Bool) where
  pass_ends :
      (e : SaveError) (over fuel : ℕ) (m : Workflows) (plan : List Candidate) (tick freed : ℕ)
      → records m < fuel
      → Good (records m) (evict_pass heap record_bytes ended e over fuel m plan tick freed true)
  unfolding evict_pass
  pass_ends e over zero m plan tick freed h = absurd (omega arith)
  pass_ends e over (suc fuel) m [] tick freed h = elim (Bool-cases (ltb freed over)) [
    | inl more ↦ rw more (elim (Bool-cases (ended tick)) [
      | inl stop ↦ rw stop (λ k. cc)
      | inr go ↦ rw go (omega arith)
    ])
    | inr enough ↦ rw enough (omega arith)
  ]
  pass_ends e over (suc fuel) m (c ∷ cs) tick freed h =
      let rest : (m' : Workflows) (plan : List Candidate) (freed : ℕ)
          → records m' < fuel
          → Good (records m')
              (evict_pass heap record_bytes ended e over fuel m' plan (suc tick) freed true) =
        λ m' plan freed. pass_ends e over fuel m' plan (suc tick) freed in
      elim (Bool-cases (ltb freed over)) [
        | inl more ↦ rw more (elim (Bool-cases (ended tick)) [
          | inl stop ↦ rw stop (λ k. cc)
          | inr go ↦ rw go (elim (Option-cases (evict_oldest m c.key (get m c.key))) [
            | inl none_left ↦ rw none_left (λ k. cc)
            | inr (x, one) ↦
                let fewer =
                  records-Evicted m c.key (evict_oldest-Evicted m c.key {m' = x.0} {r = x.1} one) in
                rw one (Good-mono _ _ _ (omega arith) (rest x.0 _ _ (omega arith)))
          ])
        ])
        | inr enough ↦ rw enough (omega arith)
      ]

  -- The first eviction of a pass: a pass that hands on has evicted a record.
  first_pass_ends :
      (e : SaveError) (over fuel : ℕ) (m : Workflows) (plan : List Candidate) (tick : ℕ)
      → records m < fuel
      → Better (records m) (evict_pass heap record_bytes ended e over fuel m plan tick 0 false)
  unfolding evict_pass
  first_pass_ends e over zero m plan tick h = absurd (omega arith)
  first_pass_ends e over (suc fuel) m [] tick h = elim (Bool-cases (ended tick)) [
    | inl stop ↦ rw stop (λ k. cc)
    | inr go ↦ rw go (λ k. cc)
  ]
  first_pass_ends e over (suc fuel) m (c ∷ cs) tick h = elim (Bool-cases (ended tick)) [
    | inl stop ↦ rw stop (λ k. cc)
    | inr go ↦ rw go (elim (Option-cases (evict_oldest m c.key (get m c.key))) [
      | inl none_left ↦ rw none_left (λ k. cc)
      | inr (x, one) ↦
          let fewer =
            records-Evicted m c.key (evict_oldest-Evicted m c.key {m' = x.0} {r = x.1} one) in
          rw one (Better-mono _ _ _ (omega arith) (pass_ends e over fuel x.0 _ _ _ (omega arith)))
    ])
  ]

  module _ (save : Workflows → Result SaveError (Unit {0})) (inner : ℕ) where
    loop_ends :
        (fuel : ℕ) (m : Workflows) (plan : Option (List Candidate)) (tick : ℕ)
        → records m < fuel
        → records m < inner
        → (evict_loop heap record_bytes save ended inner fuel m plan tick).1 ≢ out_of_fuel
    unfolding evict_loop
    loop_ends zero m plan tick h k = absurd (omega arith)
    loop_ends (suc fuel) m plan tick h k =
        let rest : (m' : Workflows) (plan : List Candidate) (tick : ℕ)
            → records m' < fuel
            → records m' < inner
            → (evict_loop heap record_bytes save ended inner fuel m' (some plan) tick).1
              ≢ out_of_fuel =
          λ m' plan tick. loop_ends fuel m' (some plan) tick in
        elim (Result-cases (save m)) [
          | inl (x, done) ↦ rw (done, evict_loop) (λ q. cc)
          | inr (e, bad) ↦
              rw (bad, evict_loop)
                (elim (Option-cases (as_too_large e)) [
                  | inl other ↦ rw other (λ q. cc)
                  | inr (x, large) ↦
                      let p =
                        evict_pass heap record_bytes ended e (x.0 - x.1) inner m
                          (plan_or_new heap record_bytes plan m) tick 0 false in
                      let better =
                        first_pass_ends e (x.0 - x.1) inner m (plan_or_new heap record_bytes plan m)
                          tick k in
                      rw large (elim (Pass-cases p) [
                        | inl (y, eq) ↦
                            let fewer : suc (records y.0) ≤ records m = rw eq at better in
                            rw eq (rest y.0 y.1 y.2 (omega arith) (omega arith))
                        | inr (y, eq) ↦ rw eq (rw eq at better)
                      ])
                ])
        ]

-- Every save under size pressure ends, whatever the heap, the estimate of a record's bytes, the
-- context and the results of Save are: the loops never need more passes, or a pass more turns,
-- than one more than the history records that the state holds.
pub save_evicting_history_ends :
    (heap : Heap) (record_bytes : HistoryRecord → ℕ)
    (save : Workflows → Result SaveError (Unit {0})) (ended : ℕ → Bool) (m : Workflows)
    → (save_evicting_history heap record_bytes save ended m).1 ≢ out_of_fuel
unfolding save_evicting_history
save_evicting_history_ends heap record_bytes save ended m =
    loop_ends heap record_bytes ended save (suc (records m)) (suc (records m)) m none 0
      (omega arith) (omega arith)
