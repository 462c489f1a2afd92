-- ===== src/Review/Eviction/Verdict.antt =====
-- The outcomes of a save under size pressure, when the heap permutes its items.
use counterpoint.Prelude.{
  Result-cases, ℕ, zero, suc, ◌-◌, ◌<◌, ◌≡◌, ◌≢◌, refl, sym, ap, Bool, true, false, List, [], ◌∷◌,
  Option, none, some, is_some, arith, ltb, Result, ok, err, Bool-cases, Option-cases, inl, inr, ◌∙◌,
}
use counterpoint.State.Record.{HistoryRecord}
use counterpoint.State.Store.{Workflows, SaveError}
use counterpoint.Review.Eviction.{
  Candidate, Heap, Outcome, saved, failed, cancelled, panicked, out_of_fuel, Pass, again, stops,
  evict_pass, evict_loop, save_evicting_history, plan_or_new, as_too_large, records, less,
  candidates, new_eviction_plan,
}
use counterpoint.Review.Eviction.Ends.{Pass-cases, save_evicting_history_ends}
use counterpoint.Review.Eviction.Settled.{
  Permutes, count, Unique, Tracks, Evicted-Unique, shrink-Tracks, none_left_lem, evict_oldest_found,
}

same_plan : {p q : List Candidate} → some p ≡ some q → q ≡ p
same_plan h = cc

-- How a pass that has evicted a record stops.
abbrev Interrupted : Outcome → Type 0
Interrupted saved = ⊥
Interrupted (failed e) = ⊥
Interrupted cancelled = Unit
Interrupted panicked = ⊥
Interrupted out_of_fuel = Unit

-- How a pass stops that began with the state `m` and the error `e` of Save.
abbrev Stopped : SaveError → Workflows → Workflows → Outcome → Type 0
Stopped e m m' saved = ⊥
Stopped e m m' (failed e') = (e' ≡ e) × (m' ≡ m) × (records m ≡ 0)
Stopped e m m' cancelled = Unit
Stopped e m m' panicked = ⊥
Stopped e m m' out_of_fuel = Unit

-- What an outcome says of the state that is left and of its save.
abbrev pub Settled : (Workflows → Result SaveError (Unit {0})) → Workflows → Outcome → Type 0
Settled save m saved = save m ≡ ok tt
Settled save m (failed e) = (save m ≡ err e) × (is_some (as_too_large e) ≡ true → records m ≡ 0)
Settled save m cancelled = Unit
Settled save m panicked = ⊥
Settled save m out_of_fuel = ⊥

module _ (heap : Heap) (law : Permutes heap) (record_bytes : HistoryRecord → ℕ)
    (positive : (r : HistoryRecord) → 0 < record_bytes r) (ended : ℕ → Bool) where
  abbrev Later : Pass → Type 0
  Later (again m plan tick) = Unique m × Tracks record_bytes plan m
  Later (stops m o) = Interrupted o

  abbrev First : SaveError → Workflows → Pass → Type 0
  First e m (again m' plan tick) = Unique m' × Tracks record_bytes plan m'
  First e m (stops m' o) = Stopped e m m' o

  Interrupted→Stopped :
      (e : SaveError) (m m' : Workflows) (o : Outcome) → Interrupted o → Stopped e m m' o
  Interrupted→Stopped e m m' saved h = absurd h
  Interrupted→Stopped e m m' (failed x) h = absurd h
  Interrupted→Stopped e m m' cancelled h = tt
  Interrupted→Stopped e m m' panicked h = absurd h
  Interrupted→Stopped e m m' out_of_fuel h = tt

  Later→First : (e : SaveError) (m : Workflows) (p : Pass) → Later p → First e m p
  Later→First e m (again m' plan tick) h = h
  Later→First e m (stops m' o) h = Interrupted→Stopped e m m' o h

  pass_Later :
      (e : SaveError) (over fuel : ℕ) (m : Workflows) (plan : List Candidate) (tick freed : ℕ)
      → Unique m
      → Tracks record_bytes plan m
      → Later (evict_pass heap record_bytes ended e over fuel m plan tick freed true)
  unfolding evict_pass
  pass_Later e over zero m plan tick freed u t = tt
  pass_Later e over (suc fuel) m [] tick freed u t = elim (Bool-cases (ltb freed over)) [
    | inl more ↦
        rw more (elim (Bool-cases (ended tick)) [ inl stop ↦ rw stop tt | inr go ↦ rw go (u, t) ])
    | inr enough ↦ rw enough (u, t)
  ]
  pass_Later e over (suc fuel) m (c ∷ cs) tick freed u t =
      let rest : (m' : Workflows) (plan : List Candidate) (freed : ℕ)
          → Unique m'
          → Tracks record_bytes plan m'
          → Later (evict_pass heap record_bytes ended e over fuel m' plan (suc tick) freed true) =
        λ m' plan freed. pass_Later e over fuel m' plan (suc tick) freed in
      elim (Bool-cases (ltb freed over)) [
        | inl more ↦ rw more (elim (Bool-cases (ended tick)) [
          | inl stop ↦ rw stop tt
          | inr go ↦
              let (x, one, v) = evict_oldest_found record_bytes m c cs u t in
              rw (go, one)
                (rest x.0 _ _ (Evicted-Unique m c.key x.0 x.1 v u)
                  (shrink-Tracks record_bytes heap law positive m x.0 c cs x.1 u t v))
        ])
        | inr enough ↦ rw enough (u, t)
      ]

  pass_First :
      (e : SaveError) (over fuel : ℕ) (m : Workflows) (plan : List Candidate) (tick : ℕ)
      → Unique m
      → Tracks record_bytes plan m
      → First e m (evict_pass heap record_bytes ended e over fuel m plan tick 0 false)
  unfolding evict_pass
  pass_First e over zero m plan tick u t = tt
  pass_First e over (suc fuel) m [] tick u t = elim (Bool-cases (ended tick)) [
    | inl stop ↦ rw stop tt
    | inr go ↦ rw go (refl, refl, none_left_lem record_bytes m (λ d. sym (t d)))
  ]
  pass_First e over (suc fuel) m (c ∷ cs) tick u t = elim (Bool-cases (ended tick)) [
    | inl stop ↦ rw stop tt
    | inr go ↦
        let (x, one, v) = evict_oldest_found record_bytes m c cs u t in
        rw (go, one)
          (Later→First e m _ (
            pass_Later e over fuel x.0 _ _ _ (Evicted-Unique m c.key x.0 x.1 v u)
              (shrink-Tracks record_bytes heap law positive m x.0 c cs x.1 u t v)))
  ]

  -- The loop's outcome, when its fuel may run out.
  abbrev Halted : (Workflows → Result SaveError (Unit {0})) → Workflows → Outcome → Type 0
  Halted save m saved = Settled save m saved
  Halted save m (failed e) = Settled save m (failed e)
  Halted save m cancelled = Unit
  Halted save m panicked = ⊥
  Halted save m out_of_fuel = Unit

  Stopped→Halted :
      (save : Workflows → Result SaveError (Unit {0})) (e : SaveError) (m m' : Workflows)
      (o : Outcome)
      → save m ≡ err e
      → Stopped e m m' o
      → Halted save m' o
  Stopped→Halted save e m m' saved h s = absurd s
  Stopped→Halted save e m m' (failed x) h s = rw (s.0, s.1) (h, λ _. s.2)
  Stopped→Halted save e m m' cancelled h s = tt
  Stopped→Halted save e m m' panicked h s = absurd s
  Stopped→Halted save e m m' out_of_fuel h s = tt

  Halted→Settled :
      (save : Workflows → Result SaveError (Unit {0})) (m : Workflows) (o : Outcome)
      → o ≢ out_of_fuel
      → Halted save m o
      → Settled save m o
  Halted→Settled save m saved n h = h
  Halted→Settled save m (failed x) n h = h
  Halted→Settled save m cancelled n h = tt
  Halted→Settled save m panicked n h = absurd h
  Halted→Settled save m out_of_fuel n h = absurd (n refl)

  plan_Tracks :
      (m : Workflows) (plan : Option (List Candidate))
      → ((p : List Candidate) → plan ≡ some p → Tracks record_bytes p m)
      → Tracks record_bytes (plan_or_new heap record_bytes plan m) m
  unfolding plan_or_new new_eviction_plan
  plan_Tracks m none h d = law.init_law less (candidates record_bytes m) d
  plan_Tracks m (some p) h d = h p refl d

  module _ (save : Workflows → Result SaveError (Unit {0})) (inner : ℕ) where
    loop-Halted :
        (fuel : ℕ) (m : Workflows) (plan : Option (List Candidate)) (tick : ℕ)
        → Unique m
        → ((p : List Candidate) → plan ≡ some p → Tracks record_bytes p m)
        → Halted save
            (evict_loop heap record_bytes save ended inner fuel m plan tick).0
            (evict_loop heap record_bytes save ended inner fuel m plan tick).1
    unfolding evict_loop
    loop-Halted zero m plan tick u t = tt
    loop-Halted (suc fuel) m plan tick u t =
        let rest : (m' : Workflows) (plan : List Candidate) (tick : ℕ)
            → Unique m'
            → ((p : List Candidate) → some plan ≡ some p → Tracks record_bytes p m')
            → Halted save (evict_loop heap record_bytes save ended inner fuel m' (some plan) tick).0
                (evict_loop heap record_bytes save ended inner fuel m' (some plan) tick).1 =
          λ m' plan tick. loop-Halted fuel m' (some plan) tick in
        elim (Result-cases (save m)) [
          | inl (tt, done) ↦ rw (done, evict_loop) done
          | inr (e, bad) ↦
              rw (bad, evict_loop)
                (elim (Option-cases (as_too_large e)) [
                  | inl other ↦ rw other (bad, λ large. absurd (ground (arith, other)))
                  | inr (x, large) ↦
                      let p =
                        evict_pass heap record_bytes ended e (x.0 - x.1) inner m
                          (plan_or_new heap record_bytes plan m) tick 0 false in
                      let step =
                        pass_First e (x.0 - x.1) inner m (plan_or_new heap record_bytes plan m) tick
                          u (plan_Tracks m plan t) in
                      rw large (elim (Pass-cases p) [
                        | inl (y, eq) ↦
                            let next : Unique y.0 × Tracks record_bytes y.1 y.0 = rw eq at step in
                            rw eq (
                              rest y.0 y.1 y.2 next.0
                                (λ q same d. ap (count d) (same_plan same) ∙ next.1 d))
                        | inr (y, eq) ↦
                            let stop : Stopped e m y.0 y.1 = rw eq at step in
                            rw eq (Stopped→Halted save e m y.0 y.1 bad stop)
                      ])
                ])
        ]

-- Under size pressure, with a heap that permutes its items and drops its first on Pop, with a
-- positive estimate for each record and no key twice: the save never indexes out of range, success
-- means that the state that is left was saved, an error is the error of saving the state that is
-- left, and the state is given up as too large only when it holds no history any more.
pub save_evicting_history-Settled :
    (heap : Heap) (law : Permutes heap) (record_bytes : HistoryRecord → ℕ)
    (positive : (r : HistoryRecord) → 0 < record_bytes r)
    (save : Workflows → Result SaveError (Unit {0})) (ended : ℕ → Bool) (m : Workflows)
    → Unique m
    → Settled save
        (save_evicting_history heap record_bytes save ended m).0
        (save_evicting_history heap record_bytes save ended m).1
save_evicting_history-Settled heap law record_bytes positive save ended m u =
    Halted→Settled heap law record_bytes positive ended save _ _
      (save_evicting_history_ends heap record_bytes save ended m)
      (unfold save_evicting_history in
        loop-Halted heap law record_bytes positive ended save (suc (records m)) (suc (records m)) m
          none 0 u (λ p bad. absurd (cc)))
