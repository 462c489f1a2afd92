-- ===== src/Tests/Review.antt =====
-- The review's orchestration at concrete values.
use counterpoint.Prelude.{
  ℕ, ◌≡◌, ◌≢◌, refl, Bool, true, false, [], ◌∷◌, none, some, arith, Result, ok, err, drop,
}
use counterpoint.Prelude.Int.{pos}
use counterpoint.Prelude.Text.{Bytes, codes, eq_text}
use counterpoint.State.Record.{HistoryRecord, Workflow, equal}
use counterpoint.State.History.{
  invalid, invalid_history, records_defect, record_defect, history_bytes, newest_bytes,
  retain_history,
}
use counterpoint.State.ObjectId.{is_object_id}
use counterpoint.State.Store.{Workflows, get, SaveError, state_too_large, same_replay_fields}
use counterpoint.AppServer.Outcome.{Review}
use counterpoint.AppServer.Policy.{Thread}
use counterpoint.Review.Eviction.{Heap, out_of_fuel, save_evicting_history, evict_loop}
use counterpoint.Review.Eviction.Ends.{save_evicting_history_ends}
use counterpoint.Review.Eviction.Trimmed.{Trimmed, save_evicting_history-Trimmed}
use counterpoint.Review.Eviction.Settled.{Permutes, Unique}
use counterpoint.Review.Eviction.Verdict.{Settled, save_evicting_history-Settled}
use counterpoint.Review.Completed.{
  incomplete_workflow_field, reconcile, previous_record, replay, usage_from,
}
use counterpoint.Review.Completed.Accepted.{IsAccepted, IsDone, reconcile-IsAccepted}
use counterpoint.Review.Service.{World, ReviewRequest}
use counterpoint.Review.Prompt.Delimiters.{Safe, delimiters, delimiters-Safe}
use counterpoint.Review.Service.Setup.{start_new}
use counterpoint.Review.Service.Round.{
  load_workflow, check_known, set_up_thread, run_turn, check_tree, save_completed,
}
use counterpoint.Review.Service.Run.{workflow_key, review}
use counterpoint.Review.Service.Discipline.{held}
use counterpoint.Review.Service.{Repository, ReviewResult}
use counterpoint.Review.Service.Answers.{Answered}
use counterpoint.Review.Service.Answered.{review-Answered}
use counterpoint.Review.Service.Order.{review_ordered}
use counterpoint.Tests.State.{
  two_rounds, first_round, one_workflow, commit_id, base_id, ids, two_rounds_valid, no_usage,
}

-- Items that stay where they are.
abbrev queue : Heap
queue = record { init = λ o cs. cs; fix = λ o cs. cs; pop = λ o cs. drop 1 cs }

queue-Permutes : Permutes queue
queue-Permutes = record {
  init_law = λ o cs d. refl;
  fix_law = λ o cs d. refl;
  pop_law = λ o c cs d. refl;
}

abbrev framing : HistoryRecord → ℕ
framing r = 1024

-- Save finds the state too large while it holds a history record.
abbrev tight : Workflows → Result SaveError (Unit {0})
tight [] = ok tt
tight ((k, w) ∷ m) = elim w.history [ [] ↦ ok tt | _ ∷ _ ↦ err (state_too_large 20 10) ]

abbrev never_ends : ℕ → Bool
never_ends i = false

save_evicting_history_ends_example :
    (save_evicting_history queue framing tight never_ends one_workflow).1 ≢ out_of_fuel
save_evicting_history_ends_example =
    save_evicting_history_ends queue framing tight never_ends one_workflow

save_evicting_history-Trimmed_example :
    Trimmed one_workflow (save_evicting_history queue framing tight never_ends one_workflow).0
save_evicting_history-Trimmed_example =
    save_evicting_history-Trimmed queue framing tight never_ends one_workflow

one_workflow-Unique : Unique one_workflow
unfolding get
one_workflow-Unique = (refl, tt)

save_evicting_history-Settled_example :
    Settled tight
      (save_evicting_history queue framing tight never_ends one_workflow).0
      (save_evicting_history queue framing tight never_ends one_workflow).1
save_evicting_history-Settled_example =
    save_evicting_history-Settled queue queue-Permutes framing (λ r. omega arith) tight never_ends
      one_workflow one_workflow-Unique

two_rounds-IsAccepted : IsAccepted 2 two_rounds
unfolding incomplete_workflow_field is_object_id
two_rounds-IsAccepted = record {
  complete = record {
    thread = λ e. cc;
    commit = ids.0;
    base = ids.1;
    hash = λ e. cc;
    review = λ e. cc;
    round_is = refl;
    positive = omega arith;
    fits = omega arith;
  };
  nothing_missing = refl;
  no_defect = two_rounds_valid;
  round_left = refl;
}

abbrev evicted : Workflow
evicted = record two_rounds { history = [] }

abbrev third : Workflow
third = record two_rounds { round = pos 3; last_request_hash = codes "next"; history = [] }

third-IsDone : IsDone 2 two_rounds third
third-IsDone = record {
  complete = record {
    thread = λ e. cc;
    commit = ids.0;
    base = ids.1;
    hash = λ e. cc;
    review = λ e. cc;
    round_is = refl;
    positive = omega arith;
    fits = omega arith;
  };
  usage_ok = no_usage;
  no_history = refl;
}

abbrev third_stored : Workflow
third_stored = record third {
  history = retain_history (first_round ∷ []) (previous_record two_rounds) (codes "approved");
}

third_reconciled :
    reconcile two_rounds true (previous_record two_rounds) third (some two_rounds) ≡ ok third_stored
unfolding reconcile same_replay_fields eq_text invalid_history records_defect record_defect
    is_object_id invalid history_bytes newest_bytes equal
third_reconciled = refl

reconcile-IsAccepted_example : IsAccepted 3 third_stored
reconcile-IsAccepted_example =
    reconcile-IsAccepted 2 two_rounds third true (some two_rounds) {w = third_stored}
      (λ e. two_rounds-IsAccepted) third-IsDone third_reconciled

abbrev approved : Review
approved = record { turn_id = codes "turn"; text = codes "approved"; warnings = []; usage = none }

abbrev thread : Thread
thread = record { id = codes "thread"; model = codes "m"; reasoning_effort = [] }

-- Everything succeeds, on a state file with one workflow.
abbrev calm : World
calm = record {
  Error = Bytes;
  is_locked = λ e. false;
  is_refusal = λ e. false;
  open_repo = λ path t. ok (record { worktree = codes "/repo"; common_dir = codes "/repo/.git" });
  resolve_branch = λ repo branch t. ok (codes "refs/heads/topic");
  validate_target = λ repo branch commit last t. ok (record {
    commit = commit_id;
    base = base_id;
    primary_name = codes "main";
    primary_ref = codes "refs/heads/main";
    history_rewritten = false;
  });
  read_instructions = λ repo commit t. ok [];
  lock_workflow = λ key t. ok tt;
  lock_state = λ t. ok tt;
  load = λ t. ok one_workflow;
  save = λ t m. ok tt;
  eviction_ended = λ t i. false;
  heap = queue;
  record_bytes = framing;
  hex_sum = λ s. codes "ff";
  base_name = λ path. path;
  prepare = λ key repo commit t.
      ok (record { dir = codes "/s/c"; cache_dir = codes "/s/cache"; tmp_dir = codes "/s/tmp" });
  modified_tracked_files = λ c t. ok 0;
  new_reviewer = λ args t. ok tt;
  setup_cause = λ t. none;
  is_cause = λ e cause. false;
  start_thread = λ cwd sandbox t. ok thread;
  resume_thread = λ id cwd sandbox t. ok thread;
  unarchive_thread = λ id t. ok tt;
  set_thread_name = λ id name t. ok tt;
  review = λ id prompt t. ok approved;
  turn_timed_out = λ t. false;
}

abbrev build_request : ReviewRequest
build_request = record {
  repo = codes "/repo";
  branch = codes "topic";
  commit = commit_id;
  branch_notes = codes "notes";
  build = true;
}

review_ordered_example : held (review calm build_request []).1 ≡ some []
review_ordered_example = review_ordered calm build_request

abbrev first_result : ReviewResult
first_result = record {
  repo = codes "/repo";
  branch = codes "refs/heads/topic";
  commit = commit_id;
  base = base_id;
  round = pos 1;
  review = codes "approved";
  warnings = [];
  replayed = false;
  usage = none;
}

first_round_run : (review calm build_request []).0 ≡ ok first_result
unfolding review load_workflow check_known get eq_text replay set_up_thread start_new run_turn
    check_tree save_completed reconcile save_evicting_history evict_loop usage_from
first_round_run = refl

review-Answered_example :
    (repo : Repository) × (ref : Bytes) × (calm.open_repo build_request.repo [] ≡ ok repo)
    × (calm.resolve_branch repo build_request.branch [] ≡ ok ref)
    × Answered calm (workflow_key repo.common_dir ref) first_result (review calm build_request []).1
review-Answered_example = review-Answered calm build_request first_result first_round_run

delimiters-Safe_example :
    Safe
      (codes "<<<NOTES>>>")
      (delimiters (λ s. codes "00ff") (codes "NOTES") (codes "<<<NOTES>>>") 12)
delimiters-Safe_example = delimiters-Safe (λ s. codes "00ff") (codes "NOTES") (codes "<<<NOTES>>>")
