-- ===== src/Review/Completed.antt =====
-- The record of a completed review in internal/review/review.go: what a stored record must hold
-- (`incompleteWorkflowField`), the replay, the usage that is kept, and how `saveCompleted`
-- reconciles the record with the state file.
pub mod Accepted
use counterpoint.Prelude.{
  Bool, true, false, not, ◌&&◌, ◌||◌, List, Option, none, some, is_empty, is_some, if◌then◌else◌,
  Result, ok, err, ◌>>=◌, ◌>>◌, refuse_if,
}
use counterpoint.Prelude.Int.{ℤ, pos, ltb_ℤ}
use counterpoint.Prelude.Text.{Bytes, eq_text}
use counterpoint.State.Record.{Usage, HistoryRecord, Workflow, empty_workflow}
use counterpoint.State.ObjectId.{is_object_id}
use counterpoint.State.History.{
  Defect, invalid, invalid_history, new_history_record, retain_history,
}
use counterpoint.State.Store.{same_replay_fields}

pub data Missing : Type 0 where
  no_thread_id no_last_commit no_last_base no_last_request_hash no_last_review no_round : Missing

-- The first field that a stored record lacks.
unfoldable pub incomplete_workflow_field : Workflow → Option Missing
incomplete_workflow_field wf =
    if is_empty wf.thread_id
    then some no_thread_id
    else if not (is_object_id wf.last_commit)
    then some no_last_commit
    else if not (is_object_id wf.last_base)
    then some no_last_base
    else if is_empty wf.last_request_hash
    then some no_last_request_hash
    else if is_empty wf.last_review
    then some no_last_review
    else if ltb_ℤ wf.round (pos 1)
    then some no_round
    else none

-- replay: the record to answer with, when the hash is that of its last request.
unfoldable pub replay : Workflow → Bool → Bytes → Option Workflow
replay wf known hash =
    if not known || (is_empty hash || not (eq_text wf.last_request_hash hash))
    then none
    else some wf

-- usageFrom: the report, unless the state file would refuse it.
unfoldable pub usage_from : Option Usage → Option Usage
usage_from none = none
usage_from (some u) = if is_some (invalid (some u)) then none else some u

pub data Changed : Type 0 where
  record_changed : Changed
  ledger_changed : Defect → Changed

-- st.Get: the zero record where there is none.
unfoldable pub found : Option Workflow → Workflow
found none = empty_workflow
found (some w) = w

check_ledger : Workflow → Result Changed (Unit {0})
check_ledger w = elim (invalid_history w) [ none ↦ ok tt | some bad ↦ err (ledger_changed bad) ]

xor : Bool → Bool → Bool
xor true b = not b
xor false b = b

-- saveCompleted, between Get and Put: `fresh` is the record under the lock, `before` and `known`
-- what the review began with.
unfoldable pub reconcile :
    Workflow → Bool → HistoryRecord → Workflow → Option Workflow → Result Changed Workflow
unfolding found check_ledger xor
reconcile before known previous done fresh = do
  refuse_if (xor (is_some fresh) known || (known && not (same_replay_fields (found fresh) before)))
      record_changed
  if not known then ok done else do
    check_ledger (found fresh)
    ok (record done { history = retain_history (found fresh).history previous done.last_review })

-- The record of the round that the review supersedes.
unfoldable pub previous_record : Workflow → HistoryRecord
previous_record wf =
    new_history_record wf.round wf.last_commit wf.last_base wf.last_review wf.last_usage
