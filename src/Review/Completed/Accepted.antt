-- ===== src/Review/Completed/Accepted.antt =====
-- The record that a completed review leaves is one that the next round accepts.
use counterpoint.Prelude.{
  ℕ, suc, ◌+◌, ◌-◌, ◌≤◌, ◌<◌, ◌≡◌, ◌≢◌, refl, ap, sym, subst, ◌⊎◌, inl, inr, Bool, true, false,
  List, [], ◌∷◌, ◌++◌, Option, none, some, length, length-append, arith, ok, Option-cases, ◌∙◌,
}
use counterpoint.Prelude.Int.{pos, max_int, ltb_ℤ}
use counterpoint.State.Record.{HistoryRecord, Usage, Workflow}
use counterpoint.State.ObjectId.{is_object_id}
use counterpoint.State.History.{
  invalid, invalid_history, new_history_record, retain_history, history_bytes, newest_bytes,
  injected_bytes,
}
use counterpoint.State.History.Ledger.{
  IsLedger, IsRecord, Run, Run-append, invalid_history_iff, new_history_record-IsRecord,
  next-IsLedger,
}
use counterpoint.State.Store.Lookup.{same_replay_fields_iff}
use counterpoint.Review.Completed.{
  incomplete_workflow_field, usage_from, reconcile, previous_record,
}
use counterpoint.Review.Eviction.Trimmed.{TrimOf}

-- What `incompleteWorkflowField` demands, and a positive round below math.MaxInt.
pub record IsComplete (round : ℕ) (w : Workflow) : Type 0 where
  pub thread : w.thread_id ≢ []
  pub commit : is_object_id w.last_commit ≡ true
  pub base : is_object_id w.last_base ≡ true
  pub hash : w.last_request_hash ≢ []
  pub review : w.last_review ≢ []
  pub round_is : w.round ≡ pos round
  pub positive : 0 < round
  pub fits : round < max_int

history-IsComplete :
    (round : ℕ) (w : Workflow) (h : List HistoryRecord)
    → IsComplete round w
    → IsComplete round (record w { history = h })
history-IsComplete round w h c = record {
  thread = c.thread;
  commit = c.commit;
  base = c.base;
  hash = c.hash;
  review = c.review;
  round_is = c.round_is;
  positive = c.positive;
  fits = c.fits;
}

within : (round : ℕ) (w : Workflow) → IsComplete round w → round ≤ max_int
within round w c = omega (arith, c.fits)

complete_lem : (round : ℕ) (w : Workflow) → IsComplete round w → incomplete_workflow_field w ≡ none
unfolding incomplete_workflow_field
complete_lem round w v = ground arith

-- The usage that is persisted is one that the state file accepts.
pub usage_from_lem : (u : Option Usage) → invalid (usage_from u) ≡ none
unfolding usage_from
usage_from_lem none = unfold invalid in refl
usage_from_lem (some u) = elim (Option-cases (invalid (some u))) [
  | inl good ↦ rw good good
  | inr (bad, e) ↦ rw e (unfold invalid in refl)
]

-- A reconciled record: what the review found under the lock.
abbrev Reconciled : Workflow → Bool → HistoryRecord → Workflow → Option Workflow → Workflow → Type 0
Reconciled before known previous done fresh w =
    ((known ≡ false) × (fresh ≡ none) × (w ≡ done))
    ⊎ ((known ≡ true)
        × ((f : Workflow) × (fresh ≡ some f)
            × (f ≡ record before { last_usage = f.last_usage; history = f.history })
            × (invalid_history f ≡ none)
            × (w ≡ record done { history = retain_history f.history previous done.last_review })))

reconcile_ok :
    (before : Workflow) (known : Bool) (previous : HistoryRecord) (done : Workflow)
    (fresh : Option Workflow) {w : Workflow}
    → reconcile before known previous done fresh ≡ ok w
    → Reconciled before known previous done fresh w
unfolding reconcile
reconcile_ok before false previous done none h = inl (refl, refl, ground arith)
reconcile_ok before false previous done (some f) h = absurd (ground arith)
reconcile_ok before true previous done none h = absurd (ground arith)
reconcile_ok before true previous done (some f) h =
    inr
      (refl, (f, refl, ground (arith, same_replay_fields_iff f before), ground arith, ground arith))

history_bytes-append :
    (xs ys : List HistoryRecord) → history_bytes (xs ++ ys) ≡ history_bytes xs + history_bytes ys
unfolding history_bytes
history_bytes-append [] ys = omega arith
history_bytes-append (x ∷ xs) ys = omega (arith, history_bytes-append xs ys)

trimmed-IsLedger : (round : ℕ) (a b : Workflow) → TrimOf a b → IsLedger round a → IsLedger round b
trimmed-IsLedger round a b t v =
    let lengths : length a.history ≡ length t.given + length b.history =
      ap length t.split ∙ length-append t.given b.history in
    let bytes : history_bytes a.history ≡ history_bytes t.given + history_bytes b.history =
      ap history_bytes t.split ∙ history_bytes-append t.given b.history in
    let few = v.few in
    let earlier = v.earlier in
    let small = v.small in
    record {
      few = omega arith;
      earlier = omega arith;
      run =
          subst (λ n. Run n b.history) (omega arith)
            (Run-append (round - length a.history) t.given b.history
              (subst (Run (round - length a.history)) t.split v.run));
      last_usage_ok = ap (λ (w : Workflow). invalid w.last_usage) t.kept ∙ v.last_usage_ok;
      small = ground (arith, ap (λ (w : Workflow). newest_bytes w.last_review) t.kept);
    }

-- A record that the next round accepts, by the three checks of a stored record: nothing is missing,
-- the ledger has no defect, and there is a round after it.
pub record IsAccepted (round : ℕ) (w : Workflow) : Type 0 where
  pub complete : IsComplete round w
  pub nothing_missing : incomplete_workflow_field w ≡ none
  pub no_defect : invalid_history w ≡ none
  pub round_left : ltb_ℤ w.round (pos max_int) ≡ true

IsAccepted-of :
    (round : ℕ) (w : Workflow) → IsComplete round w → IsLedger round w → IsAccepted round w
IsAccepted-of round w c v = record {
  complete = c;
  nothing_missing = complete_lem round w c;
  no_defect = (invalid_history_iff round w c.positive (within round w c) c.round_is).1 v;
  round_left = rw c.round_is (ground (arith, c.fits));
}

-- A record that is accepted stays so when the oldest part of its history is evicted.
pub trimmed-IsAccepted :
    (round : ℕ) (a b : Workflow) → TrimOf a b → IsAccepted round a → IsAccepted round b
trimmed-IsAccepted round a b t v =
    let c = v.complete in
    IsAccepted-of round b
      (subst (IsComplete round) (sym t.kept) (history-IsComplete round a b.history c))
      (trimmed-IsLedger round a b t
        ((invalid_history_iff round a c.positive (within round a c) c.round_is).0 v.no_defect))

previous_record-IsRecord :
    (round : ℕ) (w : Workflow)
    → IsAccepted round w
    → IsRecord (previous_record w) × ((previous_record w).round ≡ pos round)
unfolding previous_record
previous_record-IsRecord round w v =
    let c = v.complete in
    let ledger =
      (invalid_history_iff round w c.positive (within round w c) c.round_is).0 v.no_defect in
    (
      new_history_record-IsRecord w.round w.last_commit w.last_base w.last_review w.last_usage
          c.commit c.base c.review ledger.last_usage_ok,
      unfold new_history_record in ground (arith, c.round_is),
    )

-- A record without history, such as that of a first round.
first-IsLedger :
    (round : ℕ) (w : Workflow)
    → 0 < round
    → w.history ≡ []
    → invalid w.last_usage ≡ none
    → IsLedger round w
unfolding history_bytes newest_bytes new_history_record injected_bytes
first-IsLedger round w p e u = record {
  few = rw e (omega arith);
  earlier = rw e (omega arith);
  run = rw e tt;
  last_usage_ok = u;
  small = rw e (ground arith);
}

module _ (round : ℕ) (before done : Workflow) where
  -- What the review knows of the record that it is about to save.
  pub record IsDone : Type 0 where
    pub complete : IsComplete (suc round) done
    pub usage_ok : invalid done.last_usage ≡ none
    pub no_history : done.history ≡ []

  -- The record that `saveCompleted` puts for a completed round passes the three checks of the next
  -- round: no field is missing, the ledger has no defect and the round is below math.MaxInt. The
  -- record that the review began with is assumed to have passed them, and the completed record to
  -- have its fields set, full object ids, a round below math.MaxInt that is one more than the
  -- record's before (or any positive one when there was none), usage without a negative counter,
  -- and no history of its own.
  pub reconcile-IsAccepted :
      (known : Bool) (fresh : Option Workflow) {w : Workflow}
      → (known ≡ true → IsAccepted round before)
      → IsDone
      → reconcile before known (previous_record before) done fresh ≡ ok w
      → IsAccepted (suc round) w
  reconcile-IsAccepted known fresh {w} accepted v h =
      elim (reconcile_ok before known (previous_record before) done fresh {w = w} h) [
        | inl (unknown, absent, same) ↦ rw same (
            IsAccepted-of (suc round) done v.complete
              (first-IsLedger (suc round) done (omega arith) v.no_history v.usage_ok))
        | inr (is_known, (f, present, same, no_defect, next)) ↦
            let old = accepted is_known in
            let f_round : f.round ≡ pos round =
              ap (λ (x : Workflow). x.round) same ∙ old.complete.round_is in
            let ledger =
              (invalid_history_iff round f old.complete.positive (within round before old.complete)
                  f_round).0
                no_defect in
            let (is_record, is_round) = previous_record-IsRecord round before old in
            rw next (
              IsAccepted-of (suc round) _ (history-IsComplete (suc round) done _ v.complete) (
                next-IsLedger round f
                  (record done {
                    history = retain_history f.history (previous_record before) done.last_review;
                  })
                  (previous_record before) ledger is_round is_record refl v.usage_ok))
      ]
