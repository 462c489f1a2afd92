-- ===== src/State/History/Retain.antt =====
-- RetainHistory of internal/state/history.go: the bounds that it restores, and that it evicts the
-- oldest records and no more of them than the bounds demand.
use counterpoint.Prelude.{
  ℕ, ◌+◌, ◌≤◌, ◌≡◌, refl, ap, inl, inr, List, [], ◌∷◌, ◌++◌, length, length-append, arith,
  Bool-cases,
}
use counterpoint.Prelude.Text.{Bytes}
use counterpoint.State.Record.{HistoryRecord}
use counterpoint.State.History.{
  max_history_records, max_history_record_bytes, max_history_bytes, history_bytes, newest_bytes,
  over_limit, evict, retain_history,
}

-- Records that a prompt may quote beside `newest` bytes of the newest review.
pub record Fits (newest : ℕ) (out : List HistoryRecord) : Type 0 where
  pub few : length out ≤ max_history_records
  pub small : history_bytes out + newest ≤ max_history_bytes

pub newest_bytes-le : (review : Bytes) → newest_bytes review ≤ max_history_record_bytes
unfolding newest_bytes
newest_bytes-le review = ground arith

evict-Fits :
    (rs : List HistoryRecord) (newest : ℕ)
    → newest ≤ max_history_record_bytes
    → Fits newest (evict rs newest)
unfolding evict
evict-Fits [] newest h = unfold history_bytes in omega arith
evict-Fits (r ∷ rs) newest h = ground (arith, evict-Fits rs newest h)

-- What `evict` drops is a prefix, so the oldest records go first.
evict_suffix :
    (rs : List HistoryRecord) (newest : ℕ)
    → (evicted : List HistoryRecord) × (rs ≡ evicted ++ evict rs newest)
unfolding evict
evict_suffix [] newest = ([], refl)
evict_suffix (r ∷ rs) newest =
    let (evicted, e) = evict_suffix rs newest in
    elim (Bool-cases (over_limit (r ∷ rs) newest)) [
      | inl over ↦ (r ∷ evicted, rw over (ap (◌∷◌ r) e))
      | inr fits ↦ ([], rw fits)
    ]

evict_maximal :
    (evicted kept : List HistoryRecord) (newest : ℕ)
    → Fits newest kept
    → length kept ≤ length (evict (evicted ++ kept) newest)
unfolding evict
evict_maximal [] [] newest h = omega arith
evict_maximal [] (r ∷ rs) newest h = ground arith
evict_maximal (e ∷ es) kept newest h =
    ground (arith, evict_maximal es kept newest h, length-append es kept)

-- RetainHistory keeps a suffix of the history with the superseded round appended, so it evicts
-- the oldest first: at most two records, which with the text that a prompt quotes of the newest
-- review are within the byte bound.
pub retain_history-Fits :
    (history : List HistoryRecord) (previous : HistoryRecord) (review : Bytes)
    → let kept = retain_history history previous review in
      Fits (newest_bytes review) kept
      × ((evicted : List HistoryRecord) × (history ++ (previous ∷ []) ≡ evicted ++ kept))
unfolding retain_history
retain_history-Fits history previous review =
    (evict-Fits _ _ (newest_bytes-le review), evict_suffix _ _)

-- No suffix of the history with the superseded round appended that is within both bounds is longer
-- than the one that RetainHistory keeps.
pub retain_history_maximal :
    (history : List HistoryRecord) (previous : HistoryRecord) (review : Bytes)
    (evicted kept : List HistoryRecord)
    → history ++ (previous ∷ []) ≡ evicted ++ kept
    → Fits (newest_bytes review) kept
    → length kept ≤ length (retain_history history previous review)
unfolding retain_history
retain_history_maximal history previous review evicted kept e fits =
    rw e (evict_maximal evicted kept (newest_bytes review) fits)
