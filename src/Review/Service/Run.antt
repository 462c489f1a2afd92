-- ===== src/Review/Service/Run.antt =====
-- One review from its request to its result: `review` of internal/review/review.go. The deferred
-- closes run after the save, the last deferred first.
use counterpoint.Prelude.{
  Bool, true, false, not, ◌&&◌, ◌||◌, List, [], ◌∷◌, ◌++◌, Option, none, some, is_empty, is_some,
  length, ltb, if◌then◌else◌,
}
use counterpoint.Prelude.Int.{ℤ, pos, ◌+ℤ◌, ◌-ℤ◌, wrap64}
use counterpoint.Prelude.Text.{Bytes, codes}
use counterpoint.State.Record.{HistoryRecord, Usage, Workflow}
use counterpoint.State.Request.{hash}
use counterpoint.AppServer.Policy.{Thread}
use counterpoint.AppServer.Outcome.{Review}
use counterpoint.Review.Prompt.{Prompt}
use counterpoint.Review.Act.{pure, ◌>>=◌, ◌>>◌, refuse_if, obtain, deferring, ask_result, lift}
use counterpoint.Review.Completed.{replay, usage_from, previous_record, found}
use counterpoint.Review.Service.Setup.{Do, setup_error}
use counterpoint.Review.Service.Round.{
  Session, build_session, plain_session, pass, workflow_error, load_workflow, check_known,
  set_up_thread, thread_name, run_turn, check_tree, save_completed,
}
use counterpoint.Review.Service.{
  workflow_locked, workflow_unlocked, checkout_prepared, checkout_removed, reviewer_started,
  reviewer_closed, Repository, Target, ReviewRequest, ReviewResult, World, invalid_request,
  not_saved, max_branch_notes_bytes,
}

unfoldable pub ready : ReviewRequest → Bool
ready req =
    not (
      is_empty req.repo
      || (is_empty req.branch || (is_empty req.commit || is_empty req.branch_notes)))
    && not (ltb max_branch_notes_bytes (length req.branch_notes))

-- The rounds before those that the prompt quotes.
omitted : List HistoryRecord → ℤ
omitted [] = pos 0
omitted (r ∷ _) = wrap64 (r.round -ℤ pos 1)

unfoldable pub prompt_for :
    ReviewRequest → Repository → Bytes → Target → Option Workflow → Bytes → Prompt
unfolding omitted
prompt_for req repo ref target before instructions =
    let wf = found before in
    let history = if is_some before then wf.history ++ (previous_record wf ∷ []) else [] in
    record {
      round = wrap64 (wf.round +ℤ pos 1);
      worktree = repo.worktree;
      branch_ref = ref;
      commit = target.commit;
      base = target.base;
      primary_name = target.primary_name;
      primary_ref = target.primary_ref;
      previous_tip = wf.last_commit;
      history_rewritten = target.history_rewritten;
      branch_notes = req.branch_notes;
      checkout = [];
      cache_dir = [];
      history = history;
      omitted_rounds = omitted history;
      instructions = instructions;
    }

unfoldable pub result_of :
    Repository → Bytes → Target → Bool → Workflow → Option Usage → ReviewResult
result_of repo ref target replayed wf usage = record {
  repo = repo.worktree;
  branch = ref;
  commit = target.commit;
  base = target.base;
  round = wf.round;
  review = wf.last_review;
  warnings = wf.last_warnings;
  replayed = replayed;
  usage = usage;
}

unfoldable pub completed_record : Thread → Target → Bytes → ℤ → Review → Workflow
completed_record thread target id round rev = record {
  thread_id = thread.id;
  last_commit = target.commit;
  last_base = target.base;
  last_request_hash = id;
  round = round;
  last_review = rev.text;
  last_warnings = rev.warnings;
  last_usage = usage_from rev.usage;
  history = [];
}

unfoldable pub workflow_key : Bytes → Bytes → Bytes
workflow_key identity ref = identity ++ (codes "::" ++ ref)

unfoldable pub request_hash : World → ReviewRequest → Repository → Bytes → Target → Bytes
request_hash w req repo ref target = hash w.hex_sum (record {
  identity = repo.common_dir;
  branch_ref = ref;
  commit = target.commit;
  base = target.base;
  branch_notes = req.branch_notes;
  build = req.build;
})

module _ (w : World) where
  unfoldable pub saved_round : Bytes → Option Workflow → Workflow → Do w (Unit {0})
  saved_round key before done t =
      let (r, t') = save_completed w key before done t in (lift not_saved r, t')

  -- The save of the completed round, and the result.
  unfoldable pub finish_round :
      Repository → Bytes → Target → Bytes → Option Workflow → Workflow → Do w ReviewResult
  unfolding result_of saved_round
  finish_round repo ref target key before done = do
    saved_round key before done
    pure (result_of repo ref target false done done.last_usage)

  -- With the reviewer started: the thread, the turn, the integrity check and the save.
  unfoldable pub in_session :
      Repository → Bytes → Target → Bytes → Bytes → Option Workflow → Session → Do w ReviewResult
  unfolding completed_record finish_round
  in_session repo ref target key id before s = do
    thread ← set_up_thread w before (thread_name w repo.worktree ref) s
    turn ← run_turn w thread.id s.prompt
    rev ← check_tree w s.checkout turn
    finish_round repo ref target key before (completed_record thread target id s.prompt.round rev)

  unfoldable pub with_reviewer :
      Repository → Bytes → Target → Bytes → Bytes → Option Workflow → Session → Do w ReviewResult
  unfolding in_session
  with_reviewer repo ref target key id before s = do
    obtain reviewer_started
        (λ t. lift (setup_error w (w.setup_cause t)) (w.new_reviewer s.extra_args t))
    deferring reviewer_closed (in_session repo ref target key id before s)

  unfoldable pub with_checkout :
      Repository → Bytes → Target → Bytes → Bytes → Option Workflow → Prompt → Do w ReviewResult
  unfolding pass with_reviewer build_session
  with_checkout repo ref target key id before prompt = do
    c ← obtain checkout_prepared (λ t. pass w (w.prepare key repo target.commit t))
    deferring checkout_removed
        (with_reviewer repo ref target key id before (build_session c prompt))

  unfoldable pub new_round :
      ReviewRequest
      → Repository
      → Bytes
      → Target
      → Bytes
      → Bytes
      → Option Workflow
      → Do w ReviewResult
  unfolding pass prompt_for with_checkout with_reviewer plain_session
  new_round req repo ref target key id before = do
    instructions ← ask_result (λ t. pass w (w.read_instructions repo target.commit t))
    let prompt = prompt_for req repo ref target before instructions
    if req.build
        then with_checkout repo ref target key id before prompt
        else with_reviewer repo ref target key id before (plain_session repo prompt)

  -- With the workflow locked.
  unfoldable pub answer :
      ReviewRequest
      → Repository
      → Bytes
      → Target
      → Bytes
      → Bytes
      → Option Workflow
      → Option Workflow
      → Do w ReviewResult
  unfolding result_of new_round
  answer req repo ref target key id before none = new_round req repo ref target key id before
  answer req repo ref target key id before (some prev) =
      pure (result_of repo ref target true prev none)

  unfoldable pub locked_round : ReviewRequest → Repository → Bytes → Bytes → Do w ReviewResult
  unfolding pass answer
  locked_round req repo ref key = do
    before ← load_workflow w key
    check_known w before
    target ←
        ask_result
          (λ t. pass w (w.validate_target repo req.branch req.commit (found before).last_commit t))
    let id = request_hash w req repo ref target
    answer req repo ref target key id before (replay (found before) (is_some before) id)

  unfoldable pub review : ReviewRequest → Do w ReviewResult
  unfolding pass ready locked_round workflow_key
  review req = do
    refuse_if (not (ready req)) invalid_request
    repo ← ask_result (λ t. pass w (w.open_repo req.repo t))
    ref ← ask_result (λ t. pass w (w.resolve_branch repo req.branch t))
    let key = workflow_key repo.common_dir ref
    obtain workflow_locked (λ t. lift (workflow_error w) (w.lock_workflow key t))
    deferring workflow_unlocked (locked_round req repo ref key)
