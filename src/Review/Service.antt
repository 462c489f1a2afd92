-- ===== src/Review/Service.antt =====
-- `review` of internal/review/review.go with `loadWorkflow` and `saveCompleted`. Git, the locks, the
-- state file, the checkout and the reviewer are the fields of `World`: each answers a call from what
-- was done before it. Log lines are left out.
pub mod Setup
pub mod Round
pub mod Run
pub mod Discipline
pub mod Order
pub mod Answers
pub mod Rounds
pub mod Answered
use counterpoint.Prelude.{
  ℕ, ◌≡◌, Bool, true, false, not, ◌&&◌, ◌||◌, List, [], ◌∷◌, ◌++◌, Option, none, some, is_empty,
  is_some, length, ltb, if◌then◌else◌, Result, ok, err,
}
use counterpoint.Prelude.Int.{ℤ, pos, ◌+ℤ◌, ◌-ℤ◌, wrap64, ltb_ℤ, max_int}
use counterpoint.Prelude.Text.{Bytes, codes, has_prefix}
use counterpoint.Prelude.Decimal.{format_nat}
use counterpoint.State.Record.{HistoryRecord, Usage, Workflow, empty_workflow}
use counterpoint.State.History.{Defect, invalid_history}
use counterpoint.State.Store.{Workflows, get, put, SaveError}
use counterpoint.State.Request.{hash}
use counterpoint.AppServer.Policy.{Sandbox, Thread}
use counterpoint.AppServer.Outcome.{Review}
use counterpoint.AppServer.Warnings.{append_warning}
use counterpoint.AppServer.Toml.{build_config_args}
use counterpoint.Review.Prompt.{Prompt}
use counterpoint.Review.Act.{Act, pure, fail, ◌>>=◌, ◌>>◌, refuse_if, call, obtain, note, deferring}
use counterpoint.Review.Completed.{
  Missing, Changed, incomplete_workflow_field, replay, usage_from, reconcile, previous_record,
}
use counterpoint.Review.Eviction.{Heap, Outcome, saved, failed, cancelled, save_evicting_history}

abbrev pub max_branch_notes_bytes : ℕ
max_branch_notes_bytes = 1048576

-- What a review does that others can see, and the releases that it defers.
pub data Event : Type 0 where
  workflow_locked workflow_unlocked state_locked state_unlocked loaded : Event
  checkout_prepared checkout_removed reviewer_started reviewer_closed : Event
  thread_started thread_named tree_checked : Event
  thread_resumed thread_unarchived warning_added turn_run : Bytes → Event
  saving : Workflows → Event

abbrev pub Log : Type 0
Log = List Event

pub record Repository : Type 0 where
  pub worktree : Bytes
  pub common_dir : Bytes

pub record Target : Type 0 where
  pub commit : Bytes
  pub base : Bytes
  pub primary_name : Bytes
  pub primary_ref : Bytes
  pub history_rewritten : Bool

pub record Checkout : Type 0 where
  pub dir : Bytes
  pub cache_dir : Bytes
  pub tmp_dir : Bytes

-- The review tool's input; `State.Request.Request` is the identity of the request.
pub record ReviewRequest : Type 0 where
  pub repo : Bytes
  pub branch : Bytes
  pub commit : Bytes
  pub branch_notes : Bytes
  pub build : Bool

pub record ReviewResult : Type 0 where
  pub repo : Bytes
  pub branch : Bytes
  pub commit : Bytes
  pub base : Bytes
  pub round : ℤ
  pub review : Bytes
  pub warnings : List Bytes
  pub replayed : Bool
  pub usage : Option Usage

-- The collaborators. `Error` is the type of their errors.
pub record World : Type 1 where
  pub Error : Type 0
  -- errors.Is(err, state.ErrLocked)
  pub is_locked : Error → Bool
  -- errors.As for a ServerError
  pub is_refusal : Error → Bool
  pub open_repo : Bytes → Log → Result Error Repository
  pub resolve_branch : Repository → Bytes → Log → Result Error Bytes
  pub validate_target : Repository → Bytes → Bytes → Bytes → Log → Result Error Target
  pub read_instructions : Repository → Bytes → Log → Result Error Bytes
  pub lock_workflow : Bytes → Log → Result Error (Unit {0})
  pub lock_state : Log → Result Error (Unit {0})
  pub load : Log → Result Error Workflows
  pub save : Log → Workflows → Result SaveError (Unit {0})
  pub eviction_ended : Log → ℕ → Bool
  pub heap : Heap
  pub record_bytes : HistoryRecord → ℕ
  pub hex_sum : Bytes → Bytes
  pub base_name : Bytes → Bytes
  pub prepare : Bytes → Repository → Bytes → Log → Result Error Checkout
  -- How many tracked files the checkout has changed.
  pub modified_tracked_files : Checkout → Log → Result Error ℕ
  pub new_reviewer : List Bytes → Log → Result Error (Unit {0})
  -- The cause that has ended the setup context.
  pub setup_cause : Log → Option Error
  -- errors.Is(err, cause)
  pub is_cause : Error → Error → Bool
  pub start_thread : Bytes → Sandbox → Log → Result Error Thread
  pub resume_thread : Bytes → Bytes → Sandbox → Log → Result Error Thread
  pub unarchive_thread : Bytes → Log → Result Error (Unit {0})
  pub set_thread_name : Bytes → Bytes → Log → Result Error (Unit {0})
  -- Review of the instructions that the prompt builds.
  pub review : Bytes → Prompt → Log → Result Error Review
  -- Whether the review timer has ended the turn.
  pub turn_timed_out : Log → Bool

pub data InvalidState : Type 0 where
  missing_field : Missing → InvalidState
  bad_history : Defect → InvalidState
  round_too_large : InvalidState

pub data Failure (Error : Type 0) : Type 0 where
  invalid_request : Failure Error
  -- an error returned as it came
  passed : Error → Failure Error
  workflow_busy state_busy : Error → Failure Error
  state_invalid : InvalidState → Failure Error
  thread_unavailable : Error → Failure Error
  -- the cause of the end of the setup, and the error of the call
  setup_ended : Error → Error → Failure Error
  turn_timed_out : Error → Failure Error
  not_saved : Failure Error → Failure Error
  state_changed : Changed → Failure Error
  -- the end of the saves under size pressure, when it is not a success
  save_ended : Outcome → Failure Error
