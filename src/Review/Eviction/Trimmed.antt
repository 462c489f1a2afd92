-- ===== src/Review/Eviction/Trimmed.antt =====
-- What the eviction loop leaves of a state: every completed review, and the newest part of its
-- history.
use counterpoint.Prelude.{
  Result-cases, ℕ, zero, suc, ◌-◌, ◌≡◌, refl, ap, Bool, true, false, not, ◌||◌, List, [], ◌∷◌, ◌++◌,
  Option, none, some, append_assoc, arith, ltb, Result, Bool-cases, Option-cases, inl, inr,
}
use counterpoint.Prelude.Text.{Bytes, eq_text, eq_text_iff}
use counterpoint.State.Record.{HistoryRecord, Workflow}
use counterpoint.State.Store.{Workflows, get, SaveError}
use counterpoint.State.Store.Lookup.{get-put}
use counterpoint.Review.Eviction.{
  Candidate, Heap, Pass, again, stops, evict_oldest, evict_pass, evict_loop, save_evicting_history,
  plan_or_new, as_too_large, records,
}
use counterpoint.Review.Eviction.Ends.{Evicted, evict_oldest-Evicted, Pass-cases}

-- `b` is `a` without the oldest part of its history, `given`.
pub record TrimOf (a b : Workflow) : Type 0 where
  pub given : List HistoryRecord
  pub split : a.history ≡ given ++ b.history
  pub kept : b ≡ record a { history = b.history }

abbrev pub TrimOption : Option Workflow → Option Workflow → Type 0
TrimOption none none = Unit
TrimOption none (some _) = ⊥
TrimOption (some _) none = ⊥
TrimOption (some a) (some b) = TrimOf a b

-- The same workflows, each trimmed.
abbrev pub Trimmed : Workflows → Workflows → Type 0
Trimmed m m' = (k : Bytes) → TrimOption (get m k) (get m' k)

TrimOption-refl : (o : Option Workflow) → TrimOption o o
TrimOption-refl none = tt
TrimOption-refl (some a) = record { given = []; split = refl; kept = refl }

TrimOption-trans : (o p q : Option Workflow) → TrimOption o p → TrimOption p q → TrimOption o q
TrimOption-trans none none none x y = tt
TrimOption-trans none none (some c) x y = y
TrimOption-trans none (some b) q x y = absurd x
TrimOption-trans (some a) none q x y = absurd x
TrimOption-trans (some a) (some b) none x y = y
TrimOption-trans (some a) (some b) (some c) x y = record {
  given = x.given ++ y.given;
  split = ground (arith, x.split, y.split, append_assoc x.given y.given c.history);
  kept =
      ground
        (arith, x.kept, y.kept, ap (λ (w : Workflow). record w { history = c.history }) x.kept);
}

Trimmed-trans : (m m' m'' : Workflows) → Trimmed m m' → Trimmed m' m'' → Trimmed m m''
Trimmed-trans m m' m'' x y k = TrimOption-trans (get m k) (get m' k) (get m'' k) (x k) (y k)

Evicted-Trimmed :
    (m : Workflows) (key : Bytes) (m' : Workflows) (r : HistoryRecord)
    → Evicted m key m' r
    → Trimmed m m'
Evicted-Trimmed m key m' r v k = rw v.stored (
    rw (get-put m key k (record v.from { history = v.rest })) (elim (Bool-cases (eq_text key k)) [
      | inl same ↦
          let at_key : get m k ≡ some v.from = ground (arith, v.found, eq_text_iff key k) in
          rw (same, at_key) (record { given = r ∷ []; split = v.oldest; kept = refl })
      | inr other ↦ rw other (TrimOption-refl (get m k))
    ]))

module _ (heap : Heap) (record_bytes : HistoryRecord → ℕ) (ended : ℕ → Bool) where
  abbrev passed : Pass → Workflows
  passed (again m plan tick) = m
  passed (stops m o) = m

  pass-Trimmed :
      (e : SaveError) (over fuel : ℕ) (m : Workflows) (plan : List Candidate) (tick freed : ℕ)
      (evicted : Bool)
      → Trimmed m
          (passed (evict_pass heap record_bytes ended e over fuel m plan tick freed evicted))
  unfolding evict_pass
  pass-Trimmed e over zero m plan tick freed evicted k = TrimOption-refl (get m k)
  pass-Trimmed e over (suc fuel) m [] tick freed evicted k =
      elim (Bool-cases (not evicted || ltb freed over)) [
        | inl more ↦ rw more (elim (Bool-cases (ended tick)) [
          | inl stop ↦ rw stop (TrimOption-refl (get m k))
          | inr go ↦ rw go (elim (Bool-cases evicted) [
            | inl some_gone ↦ rw some_gone (TrimOption-refl (get m k))
            | inr none_gone ↦ rw none_gone (TrimOption-refl (get m k))
          ])
        ])
        | inr enough ↦ rw enough (TrimOption-refl (get m k))
      ]
  pass-Trimmed e over (suc fuel) m (c ∷ cs) tick freed evicted k =
      let rest : (m' : Workflows) (plan : List Candidate) (freed : ℕ)
          → Trimmed m' (
              passed
                (evict_pass heap record_bytes ended e over fuel m' plan (suc tick) freed true)) =
        λ m' plan freed. pass-Trimmed e over fuel m' plan (suc tick) freed true in
      elim (Bool-cases (not evicted || ltb freed over)) [
        | inl more ↦ rw more (elim (Bool-cases (ended tick)) [
          | inl stop ↦ rw stop (TrimOption-refl (get m k))
          | inr go ↦ rw go (elim (Option-cases (evict_oldest m c.key (get m c.key))) [
            | inl none_left ↦ rw none_left (TrimOption-refl (get m k))
            | inr (x, one) ↦
                let step =
                  Evicted-Trimmed m c.key x.0 x.1
                    (evict_oldest-Evicted m c.key {m' = x.0} {r = x.1} one) in
                rw one (Trimmed-trans m x.0 _ step (rest x.0 _ _) k)
          ])
        ])
        | inr enough ↦ rw enough (TrimOption-refl (get m k))
      ]

  module _ (save : Workflows → Result SaveError (Unit {0})) (inner : ℕ) where
    loop-Trimmed :
        (fuel : ℕ) (m : Workflows) (plan : Option (List Candidate)) (tick : ℕ)
        → Trimmed m (evict_loop heap record_bytes save ended inner fuel m plan tick).0
    unfolding evict_loop
    loop-Trimmed zero m plan tick k = TrimOption-refl (get m k)
    loop-Trimmed (suc fuel) m plan tick k =
        let rest : (m' : Workflows) (plan : List Candidate) (tick : ℕ)
            → Trimmed m'
                (evict_loop heap record_bytes save ended inner fuel m' (some plan) tick).0 =
          λ m' plan tick. loop-Trimmed fuel m' (some plan) tick in
        elim (Result-cases (save m)) [
          | inl (x, done) ↦ rw (done, evict_loop) (TrimOption-refl (get m k))
          | inr (e, bad) ↦
              rw (bad, evict_loop)
                (elim (Option-cases (as_too_large e)) [
                  | inl other ↦ rw other (TrimOption-refl (get m k))
                  | inr (x, large) ↦
                      let p =
                        evict_pass heap record_bytes ended e (x.0 - x.1) inner m
                          (plan_or_new heap record_bytes plan m) tick 0 false in
                      let step =
                        pass-Trimmed e (x.0 - x.1) inner m (plan_or_new heap record_bytes plan m)
                          tick 0 false in
                      rw large (elim (Pass-cases p) [
                        | inl (y, eq) ↦
                            let first : Trimmed m y.0 = rw eq at step in
                            rw eq (Trimmed-trans m y.0 _ first (rest y.0 y.1 y.2) k)
                        | inr (y, eq) ↦ let first : Trimmed m y.0 = rw eq at step in rw eq (first k)
                      ])
                ])
        ]

-- Saving under size pressure never loses a completed review: whatever the heap, the context and the
-- results of Save are, the state that is left has the same workflows, each with every field as it
-- was but the history, which has lost at most some of its oldest records.
pub save_evicting_history-Trimmed :
    (heap : Heap) (record_bytes : HistoryRecord → ℕ)
    (save : Workflows → Result SaveError (Unit {0})) (ended : ℕ → Bool) (m : Workflows)
    → Trimmed m (save_evicting_history heap record_bytes save ended m).0
unfolding save_evicting_history
save_evicting_history-Trimmed heap record_bytes save ended m =
    loop-Trimmed heap record_bytes ended save (suc (records m)) (suc (records m)) m none 0
