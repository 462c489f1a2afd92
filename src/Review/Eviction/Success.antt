-- ===== src/Review/Eviction/Success.antt =====
-- A save under size pressure that succeeds has saved the state that is left.
use counterpoint.Prelude.{
  ℕ, zero, suc, ◌-◌, ◌≡◌, ◌≢◌, Bool, true, false, not, ◌||◌, List, [], ◌∷◌, Option, none, some, ltb,
  Result, ok, Bool-cases, Option-cases, Result-cases, inl, inr,
}
use counterpoint.State.Record.{HistoryRecord}
use counterpoint.State.Store.{Workflows, SaveError, get}
use counterpoint.Review.Eviction.{
  Candidate, Heap, Outcome, saved, Pass, again, stops, evict_oldest, evict_pass, evict_loop,
  save_evicting_history, plan_or_new, as_too_large, records,
}
use counterpoint.Review.Eviction.Ends.{Pass-cases}

-- A pass never says that the state was saved.
abbrev Unsaved : Pass → Type 0
Unsaved (again m plan tick) = Unit {0}
Unsaved (stops m o) = o ≢ saved

module _ (heap : Heap) (record_bytes : HistoryRecord → ℕ) (ended : ℕ → Bool) where
  pass_Unsaved :
      (e : SaveError) (over fuel : ℕ) (m : Workflows) (plan : List Candidate) (tick freed : ℕ)
      (evicted : Bool)
      → Unsaved (evict_pass heap record_bytes ended e over fuel m plan tick freed evicted)
  unfolding evict_pass
  pass_Unsaved e over zero m plan tick freed evicted = λ k. cc
  pass_Unsaved e over (suc fuel) m [] tick freed evicted =
      elim (Bool-cases (not evicted || ltb freed over)) [
        | inr enough ↦ rw enough tt
        | inl more ↦ rw more (elim (Bool-cases (ended tick)) [
          | inl stop ↦ rw stop (λ k. cc)
          | inr go ↦ rw go (elim (Bool-cases evicted) [ inl y ↦ rw y tt | inr n ↦ rw n (λ k. cc) ])
        ])
      ]
  pass_Unsaved e over (suc fuel) m (c ∷ cs) tick freed evicted =
      let rest : (m' : Workflows) (plan : List Candidate) (freed : ℕ)
          → Unsaved (evict_pass heap record_bytes ended e over fuel m' plan (suc tick) freed true) =
        λ m' plan freed. pass_Unsaved e over fuel m' plan (suc tick) freed true in
      elim (Bool-cases (not evicted || ltb freed over)) [
        | inr enough ↦ rw enough tt
        | inl more ↦ rw more (elim (Bool-cases (ended tick)) [
          | inl stop ↦ rw stop (λ k. cc)
          | inr go ↦ rw go (elim (Option-cases (evict_oldest m c.key (get m c.key))) [
            | inl nothing ↦ rw nothing (λ k. cc)
            | inr (x, one) ↦ rw one (rest x.0 _ _)
          ])
        ])
      ]

  loop_saved :
      (save : Workflows → Result SaveError (Unit {0})) (inner fuel : ℕ) (m : Workflows)
      (plan : Option (List Candidate)) (tick : ℕ)
      → (evict_loop heap record_bytes save ended inner fuel m plan tick).1 ≡ saved
      → save (evict_loop heap record_bytes save ended inner fuel m plan tick).0 ≡ ok tt
  unfolding evict_loop
  loop_saved save inner zero m plan tick h = absurd (cc)
  loop_saved save inner (suc fuel) m plan tick h = elim (Result-cases (save m)) [
    | inl (u, good) ↦ rw (good, evict_loop) good
    | inr (e, bad) ↦ elim (Option-cases (as_too_large e)) [
      | inl other ↦ absurd (failed_lem (rw (bad, other, evict_loop) at h))
      | inr (x, large) ↦
          let unsaved =
            pass_Unsaved e (x.0 - x.1) inner m (plan_or_new heap record_bytes plan m) tick 0
              false in
          let rest = loop_saved save inner fuel in
          elim (Pass-cases (
            evict_pass heap record_bytes ended e (x.0 - x.1) inner m
              (plan_or_new heap record_bytes plan m) tick 0 false)) [
                | inl (y, eq) ↦
                    rw (bad, large, eq, evict_loop)
                      (rest y.0 (some y.1) y.2 (rw (bad, large, eq, evict_loop) at h))
                | inr (y, eq) ↦ absurd ((rw eq at unsaved) (rw (bad, large, eq, evict_loop) at h))
              ]
    ]
  ]
    where
      failed_lem : {e : SaveError} → Outcome.failed e ≢ saved
      failed_lem k = cc

-- When saveEvictingHistory succeeds, its last Save was given the state that is left and succeeded.
pub save_evicting_history_saved :
    (heap : Heap) (record_bytes : HistoryRecord → ℕ)
    (save : Workflows → Result SaveError (Unit {0})) (ended : ℕ → Bool) (m : Workflows)
    → (save_evicting_history heap record_bytes save ended m).1 ≡ saved
    → save (save_evicting_history heap record_bytes save ended m).0 ≡ ok tt
unfolding save_evicting_history
save_evicting_history_saved heap record_bytes save ended m h =
    loop_saved heap record_bytes ended save (suc (records m)) (suc (records m)) m none 0 h
