-- ===== src/Review/Service/Setup.antt =====
-- The setup of a review in internal/review/review.go: the stored thread resumed, or a new one
-- started and named, and how a failed setup is reported.
use counterpoint.Prelude.{not, ◌&&◌, Option, none, some, is_some, if◌then◌else◌, Result, ok, err}
use counterpoint.Prelude.Text.{Bytes, codes}
use counterpoint.AppServer.Policy.{Sandbox, Thread}
use counterpoint.Review.Act.{Act, pure, fail, ◌>>=◌, ◌>>◌, note, attempt, ask}
use counterpoint.Review.Service.{
  Event, thread_started, thread_named, thread_resumed, thread_unarchived, warning_added, World,
  Failure, passed, thread_unavailable, setup_ended,
}

module _ (w : World) where
  abbrev pub Do : Type 0 → Type 0
  Do A = Act Event (Failure w.Error) A

  -- setupError
  unfoldable pub setup_error : Option w.Error → w.Error → Failure w.Error
  setup_error none e = passed e
  setup_error (some cause) e = if w.is_cause e cause then passed e else setup_ended cause e

  -- A failed call of the setup.
  unfoldable pub setup_failed : {A : Type 0} → w.Error → Do A
  unfolding setup_error
  setup_failed e = do cause ← ask w.setup_cause; fail (setup_error cause e)

  unfoldable pub resumed_warning : Bytes
  resumed_warning =
      codes
        "the stored Codex thread was archived; Counterpoint unarchived it and resumed the review there"

  unfoldable pub unnamed_warning : Bytes
  unnamed_warning = codes "the new Codex thread could not be named; see the Counterpoint log"

  -- The resume after an attempt to unarchive the thread, `e` being the refusal of the first resume.
  unfoldable pub resume_again :
      Bytes → Bytes → Sandbox → w.Error → Result w.Error (Unit {0}) → Do (Result w.Error Thread)
  unfolding resumed_warning
  resume_again id cwd sandbox e (err _) = pure (err e)
  resume_again id cwd sandbox e (ok _) = do
    cause ← ask w.setup_cause
    if is_some cause then pure (err e) else do
      note (warning_added resumed_warning)
      attempt (thread_resumed id) (w.resume_thread id cwd sandbox)

  unfoldable pub unarchive_and_resume :
      Bytes → Bytes → Sandbox → w.Error → Do (Result w.Error Thread)
  unfolding resume_again
  unarchive_and_resume id cwd sandbox e = do
    unarchived ← attempt (thread_unarchived id) (w.unarchive_thread id)
    resume_again id cwd sandbox e unarchived

  unfoldable pub recover :
      Bytes → Bytes → Sandbox → Result w.Error Thread → Do (Result w.Error Thread)
  unfolding unarchive_and_resume
  recover id cwd sandbox (ok thread) = pure (ok thread)
  recover id cwd sandbox (err e) = do
    cause ← ask w.setup_cause
    let again = w.is_refusal e && not (is_some cause)
    if again then unarchive_and_resume id cwd sandbox e else pure (err e)

  unfoldable pub resume_failed : w.Error → Do Thread
  unfolding setup_error
  resume_failed e = do
    cause ← ask w.setup_cause
    if is_some cause then fail (setup_error cause e) else fail (thread_unavailable e)

  unfoldable pub resume_settled : Result w.Error Thread → Do Thread
  unfolding resume_failed
  resume_settled (ok thread) = pure thread
  resume_settled (err e) = resume_failed e

  unfoldable pub resume_known : Bytes → Bytes → Sandbox → Do Thread
  unfolding recover resume_settled
  resume_known id cwd sandbox = do
    first ← attempt (thread_resumed id) (w.resume_thread id cwd sandbox)
    last ← recover id cwd sandbox first
    resume_settled last

  unfoldable pub name_outcome : Thread → Result w.Error (Unit {0}) → Do Thread
  unfolding setup_error unnamed_warning
  name_outcome thread (ok _) = pure thread
  name_outcome thread (err e) = do
    cause ← ask w.setup_cause
    if is_some cause
        then fail (setup_error cause e)
        else do note (warning_added unnamed_warning); pure thread

  unfoldable pub name_started : Bytes → Result w.Error Thread → Do Thread
  unfolding setup_failed name_outcome
  name_started name (err e) = setup_failed e
  name_started name (ok thread) = do
    named ← attempt thread_named (w.set_thread_name thread.id name)
    name_outcome thread named

  unfoldable pub start_new : Bytes → Bytes → Sandbox → Do Thread
  unfolding name_started
  start_new name cwd sandbox = do
    started ← attempt thread_started (w.start_thread cwd sandbox)
    name_started name started
