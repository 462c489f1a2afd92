-- ===== src/Review/Service/Round.antt =====
-- The course of one review in internal/review/review.go, from the validation of the request to the
-- save.
use counterpoint.Prelude.{
  ℕ, true, false, not, List, [], ◌∷◌, ◌++◌, Option, none, some, is_some, length, ltb, drop,
  if◌then◌else◌, Result, ok, err,
}
use counterpoint.Prelude.Int.{pos, ltb_ℤ, max_int}
use counterpoint.Prelude.Text.{Bytes, codes, has_prefix}
use counterpoint.Prelude.Decimal.{format_nat}
use counterpoint.State.Record.{Workflow}
use counterpoint.State.History.{invalid_history}
use counterpoint.State.Store.{Workflows, get, put}
use counterpoint.AppServer.Policy.{Sandbox, Thread}
use counterpoint.AppServer.Outcome.{Review}
use counterpoint.AppServer.Warnings.{append_warning}
use counterpoint.AppServer.Toml.{build_config_args}
use counterpoint.Review.Prompt.{Prompt}
use counterpoint.Review.Act.{
  pure, fail, ◌>>=◌, ◌>>◌, refuse_if, call, obtain, deferring, attempt, ask, lift,
}
use counterpoint.Review.Completed.{incomplete_workflow_field, reconcile, previous_record, found}
use counterpoint.Review.Eviction.{
  Outcome, saved, failed, cancelled, panicked, out_of_fuel, save_evicting_history,
}
use counterpoint.Review.Service.Setup.{Do, start_new, resume_known}
use counterpoint.Review.Service.{
  state_locked, state_unlocked, loaded, tree_checked, turn_run, saving, Repository, Checkout, World,
  missing_field, bad_history, round_too_large, Failure, passed, workflow_busy, state_busy,
  state_invalid, turn_timed_out, state_changed, save_ended,
}

abbrev read_only : Sandbox
read_only = record { build = false; writable_roots = [] }

-- What a build-capable review adds to the session.
pub record Session : Type 0 where
  pub cwd : Bytes
  pub sandbox : Sandbox
  pub extra_args : List Bytes
  pub prompt : Prompt
  pub checkout : Option Checkout

unfoldable pub build_session : Checkout → Prompt → Session
build_session c prompt = record {
  cwd = c.dir;
  sandbox = record { build = true; writable_roots = c.cache_dir ∷ c.tmp_dir ∷ [] };
  extra_args = build_config_args c.cache_dir c.tmp_dir;
  prompt = record prompt { checkout = c.dir; cache_dir = c.cache_dir };
  checkout = some c;
}

unfoldable pub plain_session : Repository → Prompt → Session
plain_session repo prompt = record {
  cwd = repo.worktree;
  sandbox = read_only;
  extra_args = [];
  prompt = prompt;
  checkout = none;
}

module _ (w : World) where
  unfoldable pub state_error : w.Error → Failure w.Error
  state_error e = if w.is_locked e then state_busy e else passed e

  unfoldable pub workflow_error : w.Error → Failure w.Error
  workflow_error e = if w.is_locked e then workflow_busy e else passed e

  unfoldable pub pass : {A : Type 0} → Result w.Error A → Result (Failure w.Error) A
  pass r = lift passed r

  -- loadWorkflow
  unfoldable pub load_workflow : Bytes → Do w (Option Workflow)
  unfolding pass state_error
  load_workflow key = do
    obtain state_locked (λ t. lift state_error (w.lock_state t))
    deferring state_unlocked (do m ← call loaded (λ t. pass (w.load t)); pure (get m key))

  -- The checks of a stored record.
  unfoldable pub check_known : Option Workflow → Do w (Unit {0})
  check_known none = pure tt
  check_known (some wf) = elim (incomplete_workflow_field wf) [
    | some missing ↦ fail (state_invalid (missing_field missing))
    | none ↦ elim (invalid_history wf) [
      | some bad ↦ fail (state_invalid (bad_history bad))
      | none ↦ refuse_if (not (ltb_ℤ wf.round (pos max_int))) (state_invalid round_too_large)
    ]
  ]

  unfoldable pub set_up_thread : Option Workflow → Bytes → Session → Do w Thread
  set_up_thread (some wf) name s = resume_known w wf.thread_id s.cwd s.sandbox
  set_up_thread none name s = start_new w name s.cwd s.sandbox

  -- threadName
  unfoldable pub trim_prefix : Bytes → Bytes → Bytes
  trim_prefix prefix s = if has_prefix s prefix then drop (length prefix) s else s

  unfoldable pub thread_name : Bytes → Bytes → Bytes
  unfolding trim_prefix
  thread_name worktree ref =
      codes "Counterpoint review: "
      ++ (w.base_name worktree ++ (codes " " ++ trim_prefix (codes "refs/heads/") ref))

  unfoldable pub turn_failed : {A : Type 0} → w.Error → Do w A
  turn_failed e = do
    timed_out ← ask w.turn_timed_out
    if timed_out then fail (turn_timed_out e) else fail (passed e)

  unfoldable pub turn_settled : Result w.Error Review → Do w Review
  unfolding turn_failed
  turn_settled (ok rev) = pure rev
  turn_settled (err e) = turn_failed e

  unfoldable pub run_turn : Bytes → Prompt → Do w Review
  unfolding turn_settled
  run_turn id prompt = do r ← attempt (turn_run id) (w.review id prompt); turn_settled r

  modified_warning : Result w.Error ℕ → Option Bytes
  modified_warning (err _) = some (
      codes
        "the disposable checkout could not be checked for changes; the reviewer's build and test results may not describe the reviewed commit")
  modified_warning (ok n) =
      if ltb 0 n
      then some (
          codes "the reviewer changed "
          ++ (format_nat n
              ++ codes
                  " tracked file(s) in the disposable checkout; its build and test results may not describe the reviewed commit"))
      else none

  with_warning : Review → Option Bytes → Review
  with_warning rev none = rev
  with_warning rev (some text) = record rev { warnings = (append_warning rev.warnings text).0 }

  -- The integrity check of a build-capable review.
  unfoldable pub check_tree : Option Checkout → Review → Do w Review
  unfolding modified_warning with_warning
  check_tree none rev = pure rev
  check_tree (some c) rev = do
    modified ← attempt tree_checked (w.modified_tracked_files c)
    pure (with_warning rev (modified_warning modified))

  unfoldable pub save_result : Outcome → Result (Failure w.Error) (Unit {0})
  save_result saved = ok tt
  save_result (failed e) = err (save_ended (failed e))
  save_result cancelled = err (save_ended cancelled)
  save_result panicked = err (save_ended panicked)
  save_result out_of_fuel = err (save_ended out_of_fuel)

  -- saveEvictingHistory; the event holds the state that the last Save was given.
  unfoldable pub save_evicting : Workflows → Do w (Unit {0})
  unfolding save_result
  save_evicting m t =
      let r = save_evicting_history w.heap w.record_bytes (w.save t) (w.eviction_ended t) m in
      (save_result r.1, saving r.0 ∷ t)

  -- saveCompleted: `known` is whether there was a record before.
  unfoldable pub save_completed : Bytes → Option Workflow → Workflow → Do w (Unit {0})
  unfolding pass state_error save_evicting
  save_completed key before done = do
    obtain state_locked (λ t. lift state_error (w.lock_state t))
    deferring state_unlocked (do
      m ← call loaded (λ t. pass (w.load t))
      next ← (λ t. (
        lift state_changed (
            reconcile (found before) (is_some before) (previous_record (found before)) done
              (get m key)),
        t,
      ))
      save_evicting (put m key next))
