-- ===== src/Review/Service/Order.antt =====
-- A review keeps to the order of locks and closes, whatever its collaborators answer.
use counterpoint.Prelude.{
  ◌≡◌, refl, Bool, true, false, not, ◌&&◌, List, [], ◌∷◌, Option, none, some, is_some, Result, ok,
  err, Option-cases, inl, inr,
}
use counterpoint.Prelude.Int.{pos, ltb_ℤ, max_int}
use counterpoint.Prelude.Text.{Bytes}
use counterpoint.State.Record.{Workflow}
use counterpoint.State.Store.{Workflows, get, put}
use counterpoint.State.History.{invalid_history}
use counterpoint.AppServer.Policy.{Sandbox, Thread}
use counterpoint.AppServer.Outcome.{Review}
use counterpoint.Review.Prompt.{Prompt}
use counterpoint.Review.Act.{pure, ◌>>=◌, refuse_if, call, note, attempt, ask_result, lift}
use counterpoint.Review.Completed.{
  incomplete_workflow_field, replay, found, reconcile, previous_record,
}
use counterpoint.Review.Service.{
  Event, workflow_locked, workflow_unlocked, state_locked, state_unlocked, loaded,
  checkout_prepared, checkout_removed, reviewer_started, reviewer_closed, thread_started,
  thread_named, tree_checked, thread_resumed, thread_unarchived, warning_added, turn_run,
  Repository, Target, Checkout, ReviewRequest, World, Failure, state_changed, state_invalid,
  round_too_large, invalid_request,
}
use counterpoint.Review.Service.Setup.{
  resume_known, start_new, resume_failed, resume_settled, resume_again, unarchive_and_resume,
  recover, setup_failed, name_outcome, name_started, resumed_warning, unnamed_warning,
}
use counterpoint.Review.Service.Round.{
  Session, build_session, plain_session, set_up_thread, thread_name, run_turn, turn_settled,
  turn_failed, check_tree, load_workflow, check_known, save_completed, save_evicting, pass,
}
use counterpoint.Review.Service.Run.{
  review, ready, workflow_key, request_hash, saved_round, finish_round, in_session, with_reviewer,
  with_checkout, new_round, answer, locked_round, completed_record, result_of, prompt_for,
}
use counterpoint.Review.Service.Discipline.{
  Resource, workflow_lock, state_lock, checkout, reviewer, step, held, Keeps, >>=-Keeps,
  bracket-Keeps, call-Keeps, if-Keeps, attempt-Keeps, note-Keeps,
}

module _ (w : World) where
  module _ (rs : List Resource) where
    abbrev here : List Resource
    here = reviewer ∷ rs

    resume_failed-Keeps : (e : w.Error) → Keeps here (resume_failed w e)
    unfolding resume_failed
    resume_failed-Keeps e t = if-Keeps here (is_some (w.setup_cause t)) _ _ (λ u h. h) (λ u h. h) t

    resume_settled-Keeps : (r : Result w.Error Thread) → Keeps here (resume_settled w r)
    unfolding resume_settled
    resume_settled-Keeps (ok thread) = λ t h. h
    resume_settled-Keeps (err e) = resume_failed-Keeps e

    resume_again-Keeps :
        (id cwd : Bytes) (sb : Sandbox) (e : w.Error) (r : Result w.Error (Unit {0}))
        → Keeps here (resume_again w id cwd sb e r)
    unfolding resume_again
    resume_again-Keeps id cwd sb e (err _) = λ t h. h
    resume_again-Keeps id cwd sb e (ok _) = λ t.
        if-Keeps here (is_some (w.setup_cause t)) _ _ (λ u h. h)
          (>>=-Keeps {E = Failure w.Error} here (note (warning_added (resumed_warning w)))
            (λ _. attempt (thread_resumed id) (w.resume_thread id cwd sb))
            (note-Keeps w here (warning_added (resumed_warning w)) refl)
            (λ _. attempt-Keeps w here (thread_resumed id) (w.resume_thread id cwd sb) refl))
          t

    unarchive_and_resume-Keeps :
        (id cwd : Bytes) (sb : Sandbox) (e : w.Error)
        → Keeps here (unarchive_and_resume w id cwd sb e)
    unfolding unarchive_and_resume
    unarchive_and_resume-Keeps id cwd sb e =
        >>=-Keeps here (attempt (thread_unarchived id) (w.unarchive_thread id))
          (resume_again w id cwd sb e)
          (attempt-Keeps w here (thread_unarchived id) (w.unarchive_thread id) refl)
          (resume_again-Keeps id cwd sb e)

    recover-Keeps :
        (id cwd : Bytes) (sb : Sandbox) (r : Result w.Error Thread)
        → Keeps here (recover w id cwd sb r)
    unfolding recover
    recover-Keeps id cwd sb (ok thread) = λ t h. h
    recover-Keeps id cwd sb (err e) = λ t.
        if-Keeps here (w.is_refusal e && not (is_some (w.setup_cause t))) _ _
          (unarchive_and_resume-Keeps id cwd sb e) (λ u h. h) t

    resume_known-Keeps : (id cwd : Bytes) (sb : Sandbox) → Keeps here (resume_known w id cwd sb)
    unfolding resume_known
    resume_known-Keeps id cwd sb =
        >>=-Keeps here (attempt (thread_resumed id) (w.resume_thread id cwd sb))
          (λ first. recover w id cwd sb first >>= resume_settled w)
          (attempt-Keeps w here (thread_resumed id) (w.resume_thread id cwd sb) refl)
          (λ first.
            >>=-Keeps here (recover w id cwd sb first) (resume_settled w)
              (recover-Keeps id cwd sb first) resume_settled-Keeps)

    name_outcome-Keeps :
        (th : Thread) (r : Result w.Error (Unit {0})) → Keeps here (name_outcome w th r)
    unfolding name_outcome
    name_outcome-Keeps th (ok _) = λ t h. h
    name_outcome-Keeps th (err e) = λ t.
        if-Keeps here (is_some (w.setup_cause t)) _ _ (λ u h. h)
          (>>=-Keeps {E = Failure w.Error} here (note (warning_added (unnamed_warning w)))
            (λ _. pure th) (note-Keeps w here (warning_added (unnamed_warning w)) refl)
            (λ _ u h. h))
          t

    name_started-Keeps :
        (name : Bytes) (r : Result w.Error Thread) → Keeps here (name_started w name r)
    unfolding name_started setup_failed
    name_started-Keeps name (ok th) =
        >>=-Keeps here (attempt thread_named (w.set_thread_name th.id name)) (name_outcome w th)
          (attempt-Keeps w here thread_named (w.set_thread_name th.id name) refl)
          (name_outcome-Keeps th)
    name_started-Keeps name (err e) = λ t h. h

    set_up_thread-Keeps :
        (before : Option Workflow) (name : Bytes) (s : Session)
        → Keeps here (set_up_thread w before name s)
    unfolding set_up_thread start_new
    set_up_thread-Keeps (some wf) name s = resume_known-Keeps wf.thread_id s.cwd s.sandbox
    set_up_thread-Keeps none name s =
        >>=-Keeps here (attempt thread_started (w.start_thread s.cwd s.sandbox))
          (name_started w name)
          (attempt-Keeps w here thread_started (w.start_thread s.cwd s.sandbox) refl)
          (name_started-Keeps name)

    turn_settled-Keeps : (r : Result w.Error Review) → Keeps here (turn_settled w r)
    unfolding turn_settled turn_failed
    turn_settled-Keeps (ok rev) = λ t h. h
    turn_settled-Keeps (err e) = λ t. if-Keeps here (w.turn_timed_out t) _ _ (λ u h. h) (λ u h. h) t

    run_turn-Keeps : (id : Bytes) (p : Prompt) → Keeps here (run_turn w id p)
    unfolding run_turn
    run_turn-Keeps id p =
        >>=-Keeps here (attempt (turn_run id) (w.review id p)) (turn_settled w)
          (attempt-Keeps w here (turn_run id) (w.review id p) refl) turn_settled-Keeps

    check_tree-Keeps : (c : Option Checkout) (rev : Review) → Keeps here (check_tree w c rev)
    unfolding check_tree
    check_tree-Keeps none rev = λ t h. h
    check_tree-Keeps (some c) rev =
        attempt-Keeps w here tree_checked (w.modified_tracked_files c) refl

  save_evicting-Keeps :
      (rs : List Resource) (m : Workflows) → Keeps (state_lock ∷ rs) (save_evicting w m)
  unfolding save_evicting held
  save_evicting-Keeps rs m t h = rw h refl

  save_completed-Keeps :
      (rs : List Resource) (key : Bytes) (before : Option Workflow) (done : Workflow)
      → Keeps (reviewer ∷ rs) (save_completed w key before done)
  unfolding save_completed
  save_completed-Keeps rs key before done =
      bracket-Keeps (reviewer ∷ rs) (state_lock ∷ reviewer ∷ rs) state_locked state_unlocked _ _
        refl refl
        (λ _.
          >>=-Keeps (state_lock ∷ reviewer ∷ rs) (call loaded (λ t. pass w (w.load t))) _
            (call-Keeps (state_lock ∷ reviewer ∷ rs) loaded (λ t. pass w (w.load t)) refl)
            (λ m.
              >>=-Keeps (state_lock ∷ reviewer ∷ rs)
                (λ t. (
                  lift state_changed (
                      reconcile (found before) (is_some before) (previous_record (found before))
                        done (get m key)),
                  t,
                ))
                _ (λ t h. h) (λ next. save_evicting-Keeps (reviewer ∷ rs) (put m key next))))

  load_workflow-Keeps :
      (rs : List Resource) (key : Bytes) → Keeps (workflow_lock ∷ rs) (load_workflow w key)
  unfolding load_workflow
  load_workflow-Keeps rs key =
      bracket-Keeps (workflow_lock ∷ rs) (state_lock ∷ workflow_lock ∷ rs) state_locked
        state_unlocked _ _ refl refl
        (λ _.
          >>=-Keeps (state_lock ∷ workflow_lock ∷ rs) (call loaded (λ t. pass w (w.load t))) _
            (call-Keeps (state_lock ∷ workflow_lock ∷ rs) loaded (λ t. pass w (w.load t)) refl)
            (λ m t h. h))

  module _ (repo : Repository) (ref : Bytes) (target : Target) (key : Bytes) where
    finish_round-Keeps :
        (rs : List Resource) (before : Option Workflow) (done : Workflow)
        → Keeps (reviewer ∷ rs) (finish_round w repo ref target key before done)
    unfolding finish_round saved_round
    finish_round-Keeps rs before done =
        >>=-Keeps (reviewer ∷ rs) (saved_round w key before done)
          (λ _. pure (result_of repo ref target false done done.last_usage))
          (save_completed-Keeps rs key before done) (λ _ t h. h)

    in_session-Keeps :
        (rs : List Resource) (id : Bytes) (before : Option Workflow) (s : Session)
        → Keeps (reviewer ∷ rs) (in_session w repo ref target key id before s)
    unfolding in_session
    in_session-Keeps rs id before s =
        >>=-Keeps (reviewer ∷ rs) (set_up_thread w before (thread_name w repo.worktree ref) s) _
          (set_up_thread-Keeps rs before (thread_name w repo.worktree ref) s)
          (λ th.
            >>=-Keeps (reviewer ∷ rs) (run_turn w th.id s.prompt) _
              (run_turn-Keeps rs th.id s.prompt)
              (λ turn.
                >>=-Keeps (reviewer ∷ rs) (check_tree w s.checkout turn) _
                  (check_tree-Keeps rs s.checkout turn)
                  (λ rev.
                    finish_round-Keeps rs before
                      (completed_record th target id s.prompt.round rev))))

    with_reviewer-Keeps :
        (rs : List Resource) (id : Bytes) (before : Option Workflow) (s : Session)
        → step reviewer_started rs ≡ some (reviewer ∷ rs)
        → Keeps rs (with_reviewer w repo ref target key id before s)
    unfolding with_reviewer
    with_reviewer-Keeps rs id before s p =
        bracket-Keeps rs (reviewer ∷ rs) reviewer_started reviewer_closed _ _ p refl
          (λ _. in_session-Keeps rs id before s)

    with_checkout-Keeps :
        (rs : List Resource) (id : Bytes) (before : Option Workflow) (p : Prompt)
        → Keeps (workflow_lock ∷ rs) (with_checkout w repo ref target key id before p)
    unfolding with_checkout
    with_checkout-Keeps rs id before p =
        bracket-Keeps (workflow_lock ∷ rs) (checkout ∷ workflow_lock ∷ rs) checkout_prepared
          checkout_removed _ _ refl refl
          (λ c.
            with_reviewer-Keeps (checkout ∷ workflow_lock ∷ rs) id before (build_session c p) refl)

    new_round-Keeps :
        (rs : List Resource) (req : ReviewRequest) (id : Bytes) (before : Option Workflow)
        → Keeps (workflow_lock ∷ rs) (new_round w req repo ref target key id before)
    unfolding new_round
    new_round-Keeps rs req id before =
        >>=-Keeps (workflow_lock ∷ rs)
          (ask_result (λ t. pass w (w.read_instructions repo target.commit t))) _ (λ t h. h)
          (λ text.
            if-Keeps (workflow_lock ∷ rs) req.build _ _
              (with_checkout-Keeps rs id before (prompt_for req repo ref target before text))
              (with_reviewer-Keeps (workflow_lock ∷ rs) id before
                (plain_session repo (prompt_for req repo ref target before text)) refl))

    answer-Keeps :
        (rs : List Resource) (req : ReviewRequest) (id : Bytes) (before prev : Option Workflow)
        → Keeps (workflow_lock ∷ rs) (answer w req repo ref target key id before prev)
    unfolding answer
    answer-Keeps rs req id before none = new_round-Keeps rs req id before
    answer-Keeps rs req id before (some prev) = λ t h. h

  refuse_if-Keeps :
      (rs : List Resource) (b : Bool) (e : Failure w.Error)
      → Keeps rs (refuse_if {Event = Event} b e)
  refuse_if-Keeps rs true e t h = h
  refuse_if-Keeps rs false e t h = h

  check_known-Keeps :
      (rs : List Resource) (before : Option Workflow) → Keeps rs (check_known w before)
  unfolding check_known
  check_known-Keeps rs none = λ t h. h
  check_known-Keeps rs (some wf) = λ t h. elim (Option-cases (incomplete_workflow_field wf)) [
    | inr (x, e) ↦ rw (e, check_known) h
    | inl e ↦
        rw (e, check_known)
          (elim (Option-cases (invalid_history wf)) [
            | inr (y, f) ↦ rw f h
            | inl f ↦ rw f (
                refuse_if-Keeps rs (not (ltb_ℤ wf.round (pos max_int)))
                  (state_invalid round_too_large) t h)
          ])
  ]

  locked_round-Keeps :
      (rs : List Resource) (req : ReviewRequest) (repo : Repository) (ref key : Bytes)
      → Keeps (workflow_lock ∷ rs) (locked_round w req repo ref key)
  unfolding locked_round
  locked_round-Keeps rs req repo ref key =
      >>=-Keeps (workflow_lock ∷ rs) (load_workflow w key) _ (load_workflow-Keeps rs key) (λ before.
        >>=-Keeps (workflow_lock ∷ rs) (check_known w before) _
          (check_known-Keeps (workflow_lock ∷ rs) before)
          (λ _.
            >>=-Keeps (workflow_lock ∷ rs)
              (ask_result (λ t.
                pass w (w.validate_target repo req.branch req.commit (found before).last_commit t)))
              _ (λ t h. h)
              (λ target.
                answer-Keeps repo ref target key rs req (request_hash w req repo ref target) before
                  (replay (found before) (is_some before) (request_hash w req repo ref target)))))

-- Whatever the collaborators answer and however the review ends, its log is in order: the workflow
-- lock is the first to be taken; the state file is read and saved under the state lock, with nothing
-- else done under it; the thread calls, the turn and the integrity check come while the reviewer
-- runs; the reviewer is closed before the checkout is removed, and that before the workflow lock is
-- given back; and in the end nothing is held.
pub review_ordered : (w : World) (req : ReviewRequest) → held (review w req []).1 ≡ some []
unfolding review
review_ordered w req =
    >>=-Keeps [] (refuse_if (not (ready req)) invalid_request) _
      (refuse_if-Keeps w [] (not (ready req)) invalid_request)
      (λ _.
        >>=-Keeps [] (ask_result (λ t. pass w (w.open_repo req.repo t))) _ (λ t h. h)
          (λ repo.
            >>=-Keeps [] (ask_result (λ t. pass w (w.resolve_branch repo req.branch t))) _
              (λ t h. h)
              (λ ref.
                bracket-Keeps [] (workflow_lock ∷ []) workflow_locked workflow_unlocked _ _ refl
                  refl
                  (λ _. locked_round-Keeps w [] req repo ref (workflow_key repo.common_dir ref)))))
      [] (unfold held in refl)
