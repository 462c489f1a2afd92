-- ===== src/Scratch/Prepare.antt =====
-- internal/scratch/scratch.go: preparing and closing a checkout, with a log of what is done. What the
-- system answers depends on the log.
pub mod Locked
use counterpoint.Prelude.{
  Bool, true, false, not, ◌||◌, List, [], ◌∷◌, Option, none, some, Result, ok, err, is_some,
  if◌then◌else◌,
}
use counterpoint.Prelude.Text.{Bytes}
use counterpoint.Review.Act.{
  Act, pure, fail, then_do, ◌>>=◌, ◌>>◌, refuse_if, call, obtain, note, ask_result, ask,
}

-- The directories inside the workflow directory that a round makes and removes.
pub data Part : Type 0 where
  checkout hooks temp cache : Part

pub data Event : Type 0 where
  root_made workflow_dir_made : Event
  locked released : Event
  stamped swept : Event
  removed made : Part → Event
  cloned : Event

abbrev pub Log : Type 0
Log = List Event

pub data Seen : Type 0 where
  absent unreadable symlink there : Seen

pub data ScratchError : Type 0 where
  no_root overlap not_made not_locked not_stamped cancelled : ScratchError
  unexpected_symlink inspect_failed not_removed not_cloned not_released : ScratchError

-- The root, canonical, if there is one; whether it overlaps the worktree or the common directory; and
-- what each call answers.
pub record System : Type 0 where
  pub root : Bool
  pub overlaps_worktree : Bool
  pub overlaps_common_dir : Bool
  pub make_root : Log → Result ScratchError (Unit {0})
  pub make_workflow_dir : Log → Result ScratchError (Unit {0})
  pub workflow_dir : Log → Seen
  pub acquire_lock : Log → Result ScratchError (Unit {0})
  pub stamp : Log → Result ScratchError (Unit {0})
  pub context_ended : Log → Bool
  pub lstat : Part → Log → Seen
  pub remove_all : Part → Log → Result ScratchError (Unit {0})
  pub make : Part → Log → Result ScratchError (Unit {0})
  pub clone_detached : Log → Result ScratchError (Unit {0})
  pub release : Log → Result ScratchError (Unit {0})

module _ (s : System) where
  abbrev pub Do : Type 0
  Do = Act Event ScratchError (Unit {0})

  not_symlink : Seen → Do
  not_symlink symlink = fail unexpected_symlink
  not_symlink there = pure tt
  not_symlink absent = fail inspect_failed
  not_symlink unreadable = fail inspect_failed

  remove_seen : Part → Seen → Do
  remove_seen p absent = pure tt
  remove_seen p unreadable = fail inspect_failed
  remove_seen p symlink = fail unexpected_symlink
  remove_seen p there = call (removed p) (s.remove_all p)

  -- The parts are direct children of the workflow directory.
  unfoldable pub remove_owned : Part → Do
  unfolding remove_seen
  remove_owned p = ask (s.lstat p) >>= remove_seen p

  -- The errors of the calls, the first of them as the result; every call is made.
  abbrev pub also : Do → Do → Do
  also m k t = let (r, u) = m t in let (q, v) = k u in (elim r [ ok _ ↦ q | err e ↦ err e ], v)

  -- Close, of a checkout that holds its lock.
  unfoldable pub close : Do
  close =
      also (remove_owned checkout)
        (also (remove_owned temp) (also (remove_owned hooks) (call released s.release)))

  abbrev pub cleaned : Do → Result ScratchError (Unit {0}) → Do
  cleaned cleanup (ok a) u = (ok a, u)
  cleaned cleanup (err e) u = (err e, (cleanup u).1)

  -- `cleanup` runs only after a failure, and its own result is dropped.
  abbrev pub on_error : Do → Do → Do
  on_error cleanup m t = let (r, u) = m t in cleaned cleanup r u

  -- The part of Prepare that a deferred Close undoes.
  unfoldable pub furnish : Do
  unfolding not_symlink
  furnish = do
    remove_owned checkout
    remove_owned hooks
    remove_owned temp
    call (made hooks) (s.make hooks)
    call (made temp) (s.make temp)
    call (made cache) (s.make cache)
    ask (s.lstat cache) >>= not_symlink
    call cloned s.clone_detached

  unfoldable pub in_use : Do
  in_use = do
    on_error (call released s.release) (call stamped s.stamp)
    note swept
    on_error (call released s.release) (ask s.context_ended >>= λ ended. refuse_if ended cancelled)
    on_error close furnish

  unfoldable pub prepare_checkout : Do
  unfolding not_symlink
  prepare_checkout = do
    refuse_if (not s.root) no_root
    refuse_if s.overlaps_worktree overlap
    refuse_if s.overlaps_common_dir overlap
    call root_made s.make_root
    call workflow_dir_made s.make_workflow_dir
    ask s.workflow_dir >>= not_symlink
    obtain locked s.acquire_lock
    in_use
