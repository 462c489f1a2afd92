-- ===== src/State/History/Ledger.antt =====
-- InvalidHistory of internal/state/history.go against the ledger's invariants, and the ledger
-- from one round to the next.
use counterpoint.Prelude.{
  ℕ, suc, ◌+◌, ◌-◌, ◌≤◌, ◌<◌, ◌≡◌, ◌≢◌, ◌↔◌, refl, ap, subst, ◌⊎◌, true, false, List, [], ◌∷◌, ◌++◌,
  Option, none, length, length-append, arith,
}
use counterpoint.Prelude.Int.{ℤ, pos, max_int, eqb_ℤ_iff, sub_ℕ, ltb_ℤ}
use counterpoint.Prelude.Text.{Bytes, eq_text_iff}
use counterpoint.State.Record.{HistoryRecord, Usage, Workflow}
use counterpoint.State.ObjectId.{is_object_id}
use counterpoint.State.History.{
  max_history_records, max_history_record_bytes, max_history_bytes, history_bytes, newest_bytes,
  record_defect, new_history_record, retain_history, omitted_too_large, invalid, records_defect,
  want_round, invalid_history,
}
use counterpoint.State.History.Retain.{retain_history-Fits}

-- A well-formed record, whatever its round.
pub record IsRecord (r : HistoryRecord) : Type 0 where
  pub commit_id : is_object_id r.commit ≡ true
  pub base_id : is_object_id r.base ≡ true
  pub kept :
      ((r.review ≢ []) × (r.omitted ≡ [])) ⊎ ((r.review ≡ []) × (r.omitted ≡ omitted_too_large))
  pub bounded : length r.review ≤ max_history_record_bytes
  pub usage_ok : invalid r.usage ≡ none

-- A contiguous ascending run of rounds from k.
abbrev pub Run : ℕ → List HistoryRecord → Type 0
Run k [] = Unit {0}
Run k (r ∷ rs) = (r.round ≡ pos k) × (0 < k) × IsRecord r × Run (suc k) rs

record_defect_iff :
    (i : ℕ) (want : ℤ) (r : HistoryRecord)
    → (record_defect i want r ≡ none)
      ↔ ((r.round ≡ want) × (ltb_ℤ want (pos 1) ≡ false) × IsRecord r)
unfolding record_defect
record_defect_iff i want r = (
  λ h. ground (arith, eqb_ℤ_iff r.round want, eq_text_iff r.omitted omitted_too_large),
  λ h. ground (arith, eqb_ℤ_iff r.round want, eq_text_iff r.omitted omitted_too_large),
)

want_round_lem :
    (round n i : ℕ)
    → round ≤ max_int
    → i ≤ n
    → n ≤ max_history_records
    → want_round (pos round) n i ≡ sub_ℕ (round + i) n
unfolding want_round
want_round_lem round n i h k l = ground arith

abbrev start : ℕ → ℕ → ℕ → ℕ
start round n i = round + i - n

records_defect_sound :
    (round n i : ℕ) (rs : List HistoryRecord)
    → round ≤ max_int
    → i + length rs ≤ n
    → n ≤ max_history_records
    → records_defect (pos round) n i rs ≡ none
    → Run (start round n i) rs
unfolding records_defect
records_defect_sound round n i [] h k l e = tt
records_defect_sound round n i (r ∷ rs) h k l e = ground (
  arith,
  want_round_lem round n i,
  record_defect_iff i (sub_ℕ (round + i) n) r,
  records_defect_sound round n (i + 1) rs,
)

records_defect_complete :
    (round n i : ℕ) (rs : List HistoryRecord)
    → round ≤ max_int
    → i + length rs ≤ n
    → n ≤ max_history_records
    → n < round
    → Run (start round n i) rs
    → records_defect (pos round) n i rs ≡ none
unfolding records_defect
records_defect_complete round n i [] h k l m e = refl
records_defect_complete round n i (r ∷ rs) h k l m e = ground (
  arith,
  want_round_lem round n i,
  record_defect_iff i (sub_ℕ (round + i) n) r,
  records_defect_complete round n (i + 1) rs,
)

-- The ledger's invariants, for a workflow in its round `round`.
pub record IsLedger (round : ℕ) (w : Workflow) : Type 0 where
  pub few : length w.history ≤ max_history_records
  pub earlier : length w.history < round
  pub run : Run (round - length w.history) w.history
  pub last_usage_ok : invalid w.last_usage ≡ none
  pub small : history_bytes w.history + newest_bytes w.last_review ≤ max_history_bytes

earlier_of_Run :
    (round : ℕ) (rs : List HistoryRecord)
    → 0 < round
    → Run (round - length rs) rs
    → length rs < round
earlier_of_Run round [] p h = p
earlier_of_Run round (r ∷ rs) p h = omega arith

IsLedger-sound :
    (round : ℕ) (w : Workflow)
    → 0 < round
    → round ≤ max_int
    → w.round ≡ pos round
    → invalid_history w ≡ none
    → IsLedger round w
unfolding invalid_history
IsLedger-sound round w p h e v = ground (
  arith,
  records_defect_sound round (length w.history) 0 w.history,
  earlier_of_Run round w.history,
)

IsLedger-complete :
    (round : ℕ) (w : Workflow)
    → round ≤ max_int
    → w.round ≡ pos round
    → IsLedger round w
    → invalid_history w ≡ none
unfolding invalid_history
IsLedger-complete round w h e v =
    ground (arith, records_defect_complete round (length w.history) 0 w.history)

pub Run-append : (k : ℕ) (xs ys : List HistoryRecord) → Run k (xs ++ ys) → Run (k + length xs) ys
Run-append k [] ys h = subst (λ (n : ℕ). Run n ys) (omega arith) h
Run-append k (x ∷ xs) ys h =
    subst (λ (n : ℕ). Run n ys) (omega arith) (Run-append (suc k) xs ys h.3)

Run-snoc :
    (k : ℕ) (xs : List HistoryRecord) (r : HistoryRecord)
    → Run k xs
    → r.round ≡ pos (k + length xs)
    → 0 < k
    → IsRecord r
    → Run k (xs ++ (r ∷ []))
Run-snoc k [] r h e p w = (ground arith, p, w, tt)
Run-snoc k (x ∷ xs) r h e p w = ground (arith, Run-snoc (suc k) xs r)

-- For a positive round that an `int` holds, InvalidHistory accepts a workflow exactly when its history is at
-- most two well-formed records of consecutive rounds that end just before the workflow's round,
-- its usage counters are not negative, and the quoted texts are within the byte bound.
pub invalid_history_iff :
    (round : ℕ) (w : Workflow)
    → 0 < round
    → round ≤ max_int
    → w.round ≡ pos round
    → (invalid_history w ≡ none) ↔ IsLedger round w
invalid_history_iff round w p h e = (IsLedger-sound round w p h e, IsLedger-complete round w h e)

pub new_history_record-IsRecord :
    (round : ℤ) (commit base review : Bytes) (usage : Option Usage)
    → is_object_id commit ≡ true
    → is_object_id base ≡ true
    → review ≢ []
    → invalid usage ≡ none
    → IsRecord (new_history_record round commit base review usage)
unfolding new_history_record
new_history_record-IsRecord round commit base review usage c b r u = ground arith

-- The run that the retained history is: a suffix of the old run with the superseded round after it.
retained-Run :
    (round : ℕ) (h : List HistoryRecord) (previous : HistoryRecord) (review : Bytes)
    → length h < round
    → Run (round - length h) h
    → previous.round ≡ pos round
    → IsRecord previous
    → let kept = retain_history h previous review in
      (length kept < suc round) × Run (suc round - length kept) kept
retained-Run round h previous review lt run e w =
    let (evicted, split) = (retain_history-Fits h previous review).1 in
    let whole : Run (round - length h) (h ++ (previous ∷ [])) =
      Run-snoc (round - length h) h previous run
        (subst (λ (n : ℕ). previous.round ≡ pos n) (omega arith) e) (omega arith) w in
    let lengths : length h + 1 ≡ length evicted + length (retain_history h previous review) =
      omega (
        arith,
        ap length split,
        length-append h (previous ∷ []),
        length-append evicted (retain_history h previous review),
      ) in
    (
      omega arith,
      subst (λ (n : ℕ). Run n (retain_history h previous review)) (omega arith)
          (Run-append (round - length h) evicted (retain_history h previous review)
            (subst (Run (round - length h)) split whole)),
    )

module _ (round : ℕ) (fresh done : Workflow) (previous : HistoryRecord) where
  -- From a record whose ledger holds, with its own round's record superseded and the history rebuilt
  -- by RetainHistory, the record of the next round has a ledger that holds, if its usage is accepted.
  pub next-IsLedger :
      IsLedger round fresh
      → previous.round ≡ pos round
      → IsRecord previous
      → done.history ≡ retain_history fresh.history previous done.last_review
      → invalid done.last_usage ≡ none
      → IsLedger (suc round) done
  next-IsLedger v e w kept u =
      let (early, run) =
        retained-Run round fresh.history previous done.last_review v.earlier v.run e w in
      let fits = (retain_history-Fits fresh.history previous done.last_review).0 in
      record {
        few = rw kept fits.few;
        earlier = rw kept early;
        run = rw kept run;
        last_usage_ok = u;
        small = rw kept fits.small;
      }
