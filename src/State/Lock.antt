-- ===== src/State/Lock.antt =====
-- internal/state/lock.go: taking, trying and releasing an advisory file lock. What the operating
-- system, the clock and the context answer comes as arguments.
pub mod Acquire
use counterpoint.Prelude.{
  ℕ, zero, suc, ◌+◌, Bool, true, false, Option, none, some, ltb, if◌then◌else◌, Result, ok, err,
}

-- Milliseconds.
abbrev pub lock_wait : ℕ
lock_wait = 2000

abbrev pub final_save_lock_wait : ℕ
final_save_lock_wait = 30000

abbrev pub lock_poll_interval : ℕ
lock_poll_interval = 100

-- What flock answers: the lock, EWOULDBLOCK, or another failure.
pub data Flock : Type 0 where
  taken would_block failed : Flock

pub data LockError : Type 0 where
  cancelled make_dir_failed open_failed flock_failed locked : LockError

-- The descriptor of the lock file.
pub data Handle : Type 0 where
  unopened held closed : Handle

-- One turn of the loop: whether the context has ended before the attempt, what flock answers, the
-- time of the deadline check, and whether the context ends during the wait for the next turn.
pub record Poll : Type 0 where
  pub ended : Bool
  pub flock : Flock
  pub now : ℕ
  pub ends_waiting : Bool

pub data Outcome : Type 0 where
  acquired : Outcome
  refused : LockError → Outcome
  -- the schedule given has no further turn
  polling : Outcome

-- The loop, over the turns numbered from i: at most `fuel` of them.
unfoldable pub poll_loop : (ℕ → Poll) → ℕ → ℕ → ℕ → Outcome × Handle
poll_loop turn deadline i zero = (polling, held)
poll_loop turn deadline i (suc fuel) =
    let again = poll_loop turn deadline (suc i) fuel in
    if (turn i).ended then (refused cancelled, closed) else elim (turn i).flock [
      | taken ↦ (acquired, held)
      | failed ↦ (refused flock_failed, closed)
      | would_block ↦
          if ltb deadline (turn i).now
          then (refused locked, closed)
          else if (turn i).ends_waiting
          then (refused cancelled, closed)
          else again
    ]

-- What happens before the loop.
pub record Opening : Type 0 where
  pub ended : Bool
  pub make_dir : Bool
  pub open_file : Bool
  pub started : ℕ

unfoldable pub acquire_lock : Opening → (ℕ → Poll) → ℕ → ℕ → Outcome × Handle
unfolding poll_loop
acquire_lock o turn wait fuel =
    if o.ended
    then (refused cancelled, unopened)
    else if o.make_dir
    then (if o.open_file
        then poll_loop turn (o.started + wait) 0 fuel
        else (refused open_failed, unopened))
    else (refused make_dir_failed, unopened)

-- TryLockFile: one attempt on a file that the caller opened, and still owns after a refusal.
unfoldable pub try_lock_file : Flock → Outcome × Handle
try_lock_file taken = (acquired, held)
try_lock_file would_block = (refused locked, held)
try_lock_file failed = (refused flock_failed, held)

-- A held lock is its open file; Release takes it.
pub data ReleaseError : Type 0 where
  unlock_failed close_failed : ReleaseError

unfoldable pub release :
    Option Handle → Bool → Bool → Result ReleaseError (Unit {0}) × Option Handle
release none unlocks closes = (ok tt, none)
release (some _) unlocks closes =
    (if unlocks then (if closes then ok tt else err close_failed) else err unlock_failed, none)
