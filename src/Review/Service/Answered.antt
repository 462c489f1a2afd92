-- ===== src/Review/Service/Answered.antt =====
-- Every result of a review comes from the state file or from a saved round.
use counterpoint.Prelude.{
  Result-cases, Bool-cases, ◌≡◌, refl, inl, inr, Bool, true, false, not, [], Option, none, some,
  is_some, Result, ok, err, Option-cases,
}
use counterpoint.Prelude.Int.{pos, ltb_ℤ, max_int}
use counterpoint.State.History.{invalid_history}
use counterpoint.Prelude.Text.{Bytes}
use counterpoint.State.Record.{Workflow}
use counterpoint.State.Store.{get}
use counterpoint.Review.Act.{
  Act, pure, ◌>>=◌, refuse_if, call, obtain, deferring, ask_result, lift, then_do, note_ok,
}
use counterpoint.Review.Completed.{replay, found, incomplete_workflow_field}
use counterpoint.Review.Service.{
  Event, workflow_locked, workflow_unlocked, state_locked, state_unlocked, loaded, Log, Repository,
  ReviewRequest, ReviewResult, World, Failure, state_invalid, round_too_large,
}
use counterpoint.Review.Service.Setup.{Do}
use counterpoint.Review.Service.Round.{
  load_workflow, check_known, pass, state_error, workflow_error,
}
use counterpoint.Review.Service.Run.{review, ready, workflow_key, request_hash, locked_round}
use counterpoint.Review.Service.Answers.{is_quiet, Quiet, Answered, Answered-stable}
use counterpoint.Review.Service.Rounds.{answer-Answered}

-- Programs that do nothing but what is quiet.
abbrev Silent : {E A : Type 0} → Act Event E A → Type 0
Silent m = (t : Log) → Quiet t → Quiet (m t).1

abbrev PostQuiet : World → Bytes → {E : Type 0} → Act Event E ReviewResult → Type 0
PostQuiet w key m =
    (t : Log) (r : ReviewResult) → Quiet t → (m t).0 ≡ ok r → Answered w key r (m t).1

module _ (w : World) (key : Bytes) {E A : Type 0} where
  then_do-PostQuiet :
      (x : Result E A) (f : A → Act Event E ReviewResult) (t : Log) (r : ReviewResult)
      → ((a : A) → PostQuiet w key (f a))
      → Quiet t
      → (then_do x f t).0 ≡ ok r
      → Answered w key r (then_do x f t).1
  then_do-PostQuiet (ok a) f t r k q h = k a t r q h
  then_do-PostQuiet (err e) f t r k q h = absurd (cc)

  >>=-PostQuiet :
      (m : Act Event E A) (f : A → Act Event E ReviewResult)
      → Silent m
      → ((a : A) → PostQuiet w key (f a))
      → PostQuiet w key (m >>= f)
  >>=-PostQuiet m f s k t r q h = then_do-PostQuiet (m t).0 f (m t).1 r k (s t q) h

module _ {E A : Type 0} where
  obtain-Silent : (e : Event) (f : Log → Result E A) → is_quiet e ≡ true → Silent (obtain e f)
  obtain-Silent e f p t q = note_lem (f t)
    where
      note_lem : (r : Result E A) → Quiet (note_ok e r t)
      note_lem (ok a) = (p, q)
      note_lem (err x) = q

deferring-Silent :
    {E A : Type 0} (e : Event) (m : Act Event E A)
    → is_quiet e ≡ true
    → Silent m
    → Silent (deferring e m)
deferring-Silent e m p s t q = (p, s t q)

module _ {E A B : Type 0} where
  then_do-Silent :
      (x : Result E A) (f : A → Act Event E B) (t : Log)
      → ((a : A) → Silent (f a))
      → Quiet t
      → Quiet (then_do x f t).1
  then_do-Silent (ok a) f t k q = k a t q
  then_do-Silent (err e) f t k q = q

  >>=-Silent :
      (m : Act Event E A) (f : A → Act Event E B)
      → Silent m
      → ((a : A) → Silent (f a))
      → Silent (m >>= f)
  >>=-Silent m f s k t q = then_do-Silent (m t).0 f (m t).1 k (s t q)

module _ (w : World) where
  load_workflow-Silent : (key : Bytes) → Silent (load_workflow w key)
  unfolding load_workflow
  load_workflow-Silent key =
      let reads : Do w (Option Workflow) =
        call loaded (λ t. pass w (w.load t)) >>= λ m. pure (get m key) in
      let locks : Log → Result (Failure w.Error) (Unit {0}) =
        λ t. lift (state_error w) (w.lock_state t) in
      >>=-Silent (obtain state_locked locks) (λ _. deferring state_unlocked reads)
        (obtain-Silent state_locked locks refl)
        (λ _. deferring-Silent state_unlocked reads refl (
          >>=-Silent (call {E = Failure w.Error} loaded (λ t. pass w (w.load t)))
            (λ m. pure (get m key)) (λ t q. (refl, q)) (λ m t q. q)))

  refuse_if-Silent : (b : Bool) (e : Failure w.Error) → Silent (refuse_if {Event = Event} b e)
  refuse_if-Silent true e t q = q
  refuse_if-Silent false e t q = q

  check_known-Silent : (before : Option Workflow) → Silent (check_known w before)
  unfolding check_known
  check_known-Silent none = λ t q. q
  check_known-Silent (some wf) = λ t q. elim (Option-cases (incomplete_workflow_field wf)) [
    | inr (x, e) ↦ rw (e, check_known) q
    | inl e ↦
        rw (e, check_known)
          (elim (Option-cases (invalid_history wf)) [
            | inr (y, f) ↦ rw f q
            | inl f ↦ rw f (
                refuse_if-Silent (not (ltb_ℤ wf.round (pos max_int)))
                  (state_invalid round_too_large) t q)
          ])
  ]

  locked_round-PostQuiet :
      (req : ReviewRequest) (repo : Repository) (ref key : Bytes)
      → PostQuiet w key (locked_round w req repo ref key)
  unfolding locked_round
  locked_round-PostQuiet req repo ref key =
      >>=-PostQuiet w key (load_workflow w key) _ (load_workflow-Silent key) (λ before.
        >>=-PostQuiet w key (check_known w before) _ (check_known-Silent before) (λ _.
          >>=-PostQuiet w key
            (ask_result (λ t.
              pass w (w.validate_target repo req.branch req.commit (found before).last_commit t)))
            _ (λ t q. q)
            (λ target.
              answer-Answered w repo ref target key req (request_hash w req repo ref target) before
                (replay (found before) (is_some before) (request_hash w req repo ref target)))))

  -- The part of a review that is keyed by the workflow.
  keyed : ReviewRequest → Repository → Bytes → Do w ReviewResult
  keyed req repo ref =
      let key = workflow_key repo.common_dir ref in
      obtain workflow_locked (λ t. lift (workflow_error w) (w.lock_workflow key t)) >>= λ _.
      deferring workflow_unlocked (locked_round w req repo ref key)

  keyed-PostQuiet :
      (req : ReviewRequest) (repo : Repository) (ref : Bytes)
      → PostQuiet w (workflow_key repo.common_dir ref) (keyed req repo ref)
  unfolding keyed
  keyed-PostQuiet req repo ref =
      let key = workflow_key repo.common_dir ref in
      let locks : Log → Result (Failure w.Error) (Unit {0}) =
        λ t. lift (workflow_error w) (w.lock_workflow key t) in
      >>=-PostQuiet w key (obtain workflow_locked locks) _
        (obtain-Silent workflow_locked locks refl)
        (λ _ t x q k.
          Answered-stable w key workflow_unlocked x _ refl
            (locked_round-PostQuiet req repo ref key t x q k))

  review_keyed :
      (req : ReviewRequest) (r : ReviewResult)
      → (review w req []).0 ≡ ok r
      → (repo : Repository) × (ref : Bytes) × (w.open_repo req.repo [] ≡ ok repo)
        × (w.resolve_branch repo req.branch [] ≡ ok ref)
        × (review w req [] ≡ keyed req repo ref [])
  unfolding review keyed pass
  review_keyed req r h = elim (Bool-cases (ready req)) [
    | inr n ↦ absurd (refused (rw (n, review) at h))
    | inl y ↦ elim (Result-cases (w.open_repo req.repo [])) [
      | inr (e, q) ↦ absurd (refused (rw (y, q, review) at h))
      | inl (repo, q) ↦ elim (Result-cases (w.resolve_branch repo req.branch [])) [
        | inr (e, p) ↦ absurd (refused (rw (y, q, p, review) at h))
        | inl (ref, p) ↦ (repo, ref, q, p, rw (y, q, p, review) refl)
      ]
    ]
  ]
    where
      refused :
          {e : Failure w.Error} → Path (Result (Failure w.Error) ReviewResult) (err e) (ok r) → ⊥
      refused k = cc

-- Every result that a review returns is either marked as replayed, and then no reviewer, no checkout
-- and no save was begun for it; or it is that of a new round, and then a Save has succeeded before
-- with a state in which the record under the workflow's key has the round, the review, the warnings
-- and the commit of the result. The workflow's key is that of the repository that was opened for the
-- request and of the branch that was resolved in it.
pub review-Answered :
    (w : World) (req : ReviewRequest) (r : ReviewResult)
    → (review w req []).0 ≡ ok r
    → (repo : Repository) × (ref : Bytes) × (w.open_repo req.repo [] ≡ ok repo)
      × (w.resolve_branch repo req.branch [] ≡ ok ref)
      × Answered w (workflow_key repo.common_dir ref) r (review w req []).1
review-Answered w req r h =
    let (repo, ref, opened, resolved, same) = review_keyed w req r h in
    (repo, ref, opened, resolved, rw same (keyed-PostQuiet w req repo ref [] r tt (rw same at h)))
