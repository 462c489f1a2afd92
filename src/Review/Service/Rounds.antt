-- ===== src/Review/Service/Rounds.antt =====
-- The steps of a new round: what each of them returns has been saved before.
use counterpoint.Prelude.{
  ◌≡◌, refl, ap, sym, ◌∙◌, inl, inr, Bool, true, false, Option, none, some, if◌then◌else◌, ok,
}
use counterpoint.Prelude.Text.{Bytes}
use counterpoint.State.Record.{Workflow}
use counterpoint.Review.Prompt.{Prompt}
use counterpoint.Review.Act.{pure, obtain, ask_result}
use counterpoint.Review.Service.{
  checkout_prepared, checkout_removed, reviewer_started, reviewer_closed, Log, Repository, Target,
  Checkout, ReviewRequest, ReviewResult, World, not_saved,
}
use counterpoint.Review.Service.Setup.{Do}
use counterpoint.Review.Service.Round.{
  Session, build_session, plain_session, set_up_thread, thread_name, run_turn, check_tree,
  save_completed,
}
use counterpoint.Review.Service.Run.{
  saved_round, finish_round, in_session, with_reviewer, with_checkout, new_round, answer,
  completed_record, result_of, prompt_for,
}
use counterpoint.Review.Service.Answers.{
  Post, >>=-Post, deferring-Post, lift_ok, save_completed-SavedAs, NewRound, new_stable, Quiet,
  Answered,
}

module _ (w : World) (repo : Repository) (ref : Bytes) (target : Target) (key : Bytes) where
  finish_round-NewRound :
      (before : Option Workflow) (done : Workflow)
      → target.commit ≡ done.last_commit
      → Post (NewRound w key) (finish_round w repo ref target key before done)
  unfolding finish_round saved_round result_of
  finish_round-NewRound before done same t r h =
      let (u, ended, result, after) =
        lift_ok (save_completed w key before done t).0 not_saved
          (λ _. pure (result_of repo ref target false done done.last_usage))
          (save_completed w key before done t).1 r h in
      let is_result : result_of repo ref target false done done.last_usage ≡ r = cc in
      let saves = save_completed-SavedAs w key before done t u ended in
      (
        sym (ap (λ (x : ReviewResult). x.replayed) is_result),
        (
          done,
          rw after saves,
          sym (ap (λ (x : ReviewResult). x.round) is_result),
          sym (ap (λ (x : ReviewResult). x.review) is_result),
          sym (ap (λ (x : ReviewResult). x.warnings) is_result),
          sym (ap (λ (x : ReviewResult). x.commit) is_result) ∙ same,
        ),
      )

  in_session-NewRound :
      (id : Bytes) (before : Option Workflow) (s : Session)
      → Post (NewRound w key) (in_session w repo ref target key id before s)
  unfolding in_session
  in_session-NewRound id before s =
      >>=-Post (NewRound w key) (set_up_thread w before (thread_name w repo.worktree ref) s) _
        (λ th. >>=-Post (NewRound w key) (run_turn w th.id s.prompt) _ (λ turn.
          >>=-Post (NewRound w key) (check_tree w s.checkout turn) _ (λ rev.
            finish_round-NewRound before (completed_record th target id s.prompt.round rev)
              (unfold completed_record in refl))))

  with_reviewer-NewRound :
      (id : Bytes) (before : Option Workflow) (s : Session)
      → Post (NewRound w key) (with_reviewer w repo ref target key id before s)
  unfolding with_reviewer
  with_reviewer-NewRound id before s =
      >>=-Post {A = Unit {0}} (NewRound w key) (obtain reviewer_started _) _ (λ _.
        deferring-Post (NewRound w key) reviewer_closed
          (in_session w repo ref target key id before s) (new_stable w key reviewer_closed)
          (in_session-NewRound id before s))

  with_checkout-NewRound :
      (id : Bytes) (before : Option Workflow) (p : Prompt)
      → Post (NewRound w key) (with_checkout w repo ref target key id before p)
  unfolding with_checkout
  with_checkout-NewRound id before p =
      >>=-Post {A = Checkout} (NewRound w key) (obtain checkout_prepared _) _ (λ c.
        deferring-Post (NewRound w key) checkout_removed
          (with_reviewer w repo ref target key id before (build_session c p))
          (new_stable w key checkout_removed)
          (with_reviewer-NewRound id before (build_session c p)))

  if-NewRound :
      (b : Bool) (m n : Do w ReviewResult)
      → Post (NewRound w key) m
      → Post (NewRound w key) n
      → Post (NewRound w key) (if b then m else n)
  if-NewRound true m n k l = k
  if-NewRound false m n k l = l

  new_round-NewRound :
      (req : ReviewRequest) (id : Bytes) (before : Option Workflow)
      → Post (NewRound w key) (new_round w req repo ref target key id before)
  unfolding new_round
  new_round-NewRound req id before = >>=-Post {A = Bytes} (NewRound w key) (ask_result _) _ (λ text.
      if-NewRound req.build _ _
        (with_checkout-NewRound id before (prompt_for req repo ref target before text))
        (with_reviewer-NewRound id before
          (plain_session repo (prompt_for req repo ref target before text))))

  pub answer-Answered :
      (req : ReviewRequest) (id : Bytes) (before prev : Option Workflow) (t : Log)
      (r : ReviewResult)
      → Quiet t
      → (answer w req repo ref target key id before prev t).0 ≡ ok r
      → Answered w key r (answer w req repo ref target key id before prev t).1
  unfolding answer result_of
  answer-Answered req id before none t r q h = inr (new_round-NewRound req id before t r h)
  answer-Answered req id before (some prev) t r q h =
      let is_result : result_of repo ref target true prev none ≡ r = cc in
      inl (sym (ap (λ (x : ReviewResult). x.replayed) is_result), q)
