-- ===== src/Review/Eviction.antt =====
-- `saveEvictingHistory` and the eviction plan of internal/review/review.go. container/heap is the
-- argument `Heap`; Save is the argument `save`, since a Save that finds the state too large leaves
-- the disk as it is; the context is asked by a count of the asking.
pub mod Trimmed
pub mod Ends
pub mod Success
pub mod Settled
pub mod Verdict
use counterpoint.Prelude.{
  ℕ, zero, suc, ◌+◌, ◌-◌, ◌*◌, Bool, true, false, not, ◌||◌, List, [], ◌∷◌, ◌++◌, Option, none,
  some, length, ltb, leb, ◌==◌, if◌then◌else◌, Result, ok, err,
}
use counterpoint.Prelude.Text.{Bytes, eq_text}
use counterpoint.State.Record.{HistoryRecord, Workflow}
use counterpoint.State.Store.{
  Workflows, get, put, SaveError, not_loaded, nil_state, encoding, make_dir_failed, write_failed,
  state_too_large,
}

abbrev pub record_framing_bytes : ℕ
record_framing_bytes = 1024

-- `marshalled` is the length of the review as JSON, or `none` for an error of json.Marshal.
unfoldable pub history_record_bytes : (Bytes → Option ℕ) → HistoryRecord → ℕ
history_record_bytes marshalled r = elim (marshalled r.review) [
  | none ↦ length r.review * 6 + record_framing_bytes
  | some n ↦ n + record_framing_bytes
]

pub record Candidate : Type 0 where
  pub key : Bytes
  pub bytes : ℕ

-- The order of byte strings.
text_less : Bytes → Bytes → Bool
text_less [] [] = false
text_less [] (_ ∷ _) = true
text_less (_ ∷ _) [] = false
text_less (a ∷ s) (b ∷ t) = let rest = text_less s t in if a == b then rest else ltb a b

-- Less: most bytes first, ties by key.
unfoldable pub less : Candidate → Candidate → Bool
unfolding text_less
less a b = if a.bytes == b.bytes then text_less a.key b.key else ltb b.bytes a.bytes

-- heap.Init, heap.Fix at the root, and heap.Pop of an order, on the items.
pub record Heap : Type 0 where
  pub init : (Candidate → Candidate → Bool) → List Candidate → List Candidate
  pub fix : (Candidate → Candidate → Bool) → List Candidate → List Candidate
  pub pop : (Candidate → Candidate → Bool) → List Candidate → List Candidate

pub data Outcome : Type 0 where
  saved : Outcome
  failed : SaveError → Outcome
  cancelled : Outcome
  -- an index out of range
  panicked : Outcome
  out_of_fuel : Outcome

-- How many history records a state holds.
unfoldable pub records : Workflows → ℕ
records [] = 0
records ((k, w) ∷ m) = length w.history + records m

-- What one run of the inner loop leaves: the state, the plan and the count of the context.
pub data Pass : Type 0 where
  again : Workflows → List Candidate → ℕ → Pass
  stops : Workflows → Outcome → Pass

-- One eviction from the workflow at the root of the plan.
pub evict_oldest : Workflows → Bytes → Option Workflow → Option (Workflows × HistoryRecord)
evict_oldest m k none = none
evict_oldest m k (some w) = elim w.history [
  | [] ↦ none
  | oldest ∷ rest ↦ some (put m k (record w { history = rest }), oldest)
]

-- errors.As for a TooLargeError: its size and its limit.
unfoldable pub as_too_large : SaveError → Option (ℕ × ℕ)
as_too_large not_loaded = none
as_too_large nil_state = none
as_too_large encoding = none
as_too_large make_dir_failed = none
as_too_large write_failed = none
as_too_large (state_too_large size limit) = some (size, limit)

module _ (record_bytes : HistoryRecord → ℕ) where
  pub total : List HistoryRecord → ℕ
  total [] = 0
  total (r ∷ rs) = record_bytes r + total rs

  pub candidates : Workflows → List Candidate
  unfolding total
  candidates [] = []
  candidates ((k, w) ∷ m) =
      let rest = candidates m in
      elim w.history [ [] ↦ rest | _ ∷ _ ↦ record { key = k; bytes = total w.history } ∷ rest ]

module _ (heap : Heap) (record_bytes : HistoryRecord → ℕ) where
  unfoldable pub new_eviction_plan : Workflows → List Candidate
  unfolding candidates
  new_eviction_plan m = heap.init less (candidates record_bytes m)

  -- p.items[0].bytes -= n, then the root is dropped or moved. Its bytes are a sum that n is a part
  -- of, so the subtraction does not go below 0.
  unfoldable pub shrink : List Candidate → ℕ → List Candidate
  shrink [] n = []
  shrink (c ∷ cs) n =
      let c' = record c { bytes = c.bytes - n } in
      if leb c.bytes n then heap.pop less (c' ∷ cs) else heap.fix less (c' ∷ cs)

  -- The inner loop: at most `fuel` evictions.
  unfoldable pub evict_pass :
      (ℕ → Bool) → SaveError → ℕ → ℕ → Workflows → List Candidate → ℕ → ℕ → Bool → Pass
  unfolding evict_oldest
  evict_pass ended error over zero m plan tick freed evicted = stops m out_of_fuel
  evict_pass ended error over (suc fuel) m plan tick freed evicted =
      if not evicted || ltb freed over
      then (if ended tick then stops m cancelled else elim plan [
        | [] ↦ if evicted then again m [] (suc tick) else stops m (failed error)
        | c ∷ cs ↦ elim (evict_oldest m c.key (get m c.key)) [
          | none ↦ stops m panicked
          | some (m', oldest) ↦
              evict_pass ended error over fuel m' (shrink (c ∷ cs) (record_bytes oldest)) (suc tick)
                (freed + record_bytes oldest) true
        ]
      ])
      else again m plan tick

  plan_or_new : Option (List Candidate) → Workflows → List Candidate
  plan_or_new none m = new_eviction_plan m
  plan_or_new (some plan) m = plan

  unfoldable pub evict_loop :
      (Workflows → Result SaveError (Unit {0}))
      → (ℕ → Bool)
      → ℕ
      → ℕ
      → Workflows
      → Option (List Candidate)
      → ℕ
      → Workflows × Outcome
  unfolding plan_or_new
  evict_loop save ended inner zero m plan tick = (m, out_of_fuel)
  evict_loop save ended inner (suc fuel) m plan tick = elim (save m) [
    | ok _ ↦ (m, saved)
    | err e ↦ elim (as_too_large e) [
      | none ↦ (m, failed e)
      | some (size, limit) ↦
          elim (evict_pass ended e (size - limit) inner m (plan_or_new plan m) tick 0 false) [
            | again m' plan' tick' ↦ evict_loop save ended inner fuel m' (some plan') tick'
            | stops m' outcome ↦ (m', outcome)
          ]
    ]
  ]

  -- Fuel for every record that there is to evict.
  unfoldable pub save_evicting_history :
      (Workflows → Result SaveError (Unit {0})) → (ℕ → Bool) → Workflows → Workflows × Outcome
  save_evicting_history save ended m =
      evict_loop save ended (suc (records m)) (suc (records m)) m none 0
