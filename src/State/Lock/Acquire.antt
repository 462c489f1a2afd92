-- ===== src/State/Lock/Acquire.antt =====
-- AcquireLock of internal/state/lock.go: it ends, it holds the lock exactly when flock granted it,
-- and it leaks no descriptor.
use counterpoint.Prelude.{
  ℕ, zero, suc, ◌+◌, ◌*◌, ◌/◌, ◌≤◌, ◌<◌, ◌≡◌, ◌≢◌, false, arith, ◌⊎◌, inl, inr,
}
use counterpoint.State.Lock.{
  taken, Handle, held, Poll, Outcome, acquired, refused, polling, Opening, poll_loop, acquire_lock,
  lock_poll_interval,
}

-- A wait of one interval lies between two turns.
abbrev pub Ticks : (ℕ → Poll) → Type 0
Ticks turn = (i : ℕ) → (turn i).now + lock_poll_interval ≤ (turn (suc i)).now

poll_loop_ends :
    (turn : ℕ → Poll) (deadline i fuel : ℕ)
    → Ticks turn
    → deadline < (turn i).now + fuel * lock_poll_interval
    → (poll_loop turn deadline i (suc fuel)).0 ≢ polling
unfolding poll_loop
poll_loop_ends turn deadline i zero ticks h = ground arith
poll_loop_ends turn deadline i (suc fuel) ticks h =
    ground (arith, ticks i, poll_loop_ends turn deadline (suc i) fuel ticks)

-- An attempt that flock granted while the context had not ended.
abbrev pub Granted : Poll → Type 0
Granted p = (p.ended ≡ false) × (p.flock ≡ taken)

poll_loop_step :
    (turn : ℕ → Poll) (deadline i fuel : ℕ)
    → (poll_loop turn deadline i (suc fuel)).0 ≡ acquired
    → Granted (turn i) ⊎ ((poll_loop turn deadline (suc i) fuel).0 ≡ acquired)
unfolding poll_loop
poll_loop_step turn deadline i fuel h = ground arith

poll_loop-Granted :
    (turn : ℕ → Poll) (deadline i fuel : ℕ)
    → (poll_loop turn deadline i fuel).0 ≡ acquired
    → (j : ℕ) × Granted (turn j)
poll_loop-Granted turn deadline i zero h = absurd (unfold poll_loop in cc)
poll_loop-Granted turn deadline i (suc fuel) h =
    let rest : (poll_loop turn deadline (suc i) fuel).0 ≡ acquired → (j : ℕ) × Granted (turn j) =
      poll_loop-Granted turn deadline (suc i) fuel in
    elim (poll_loop_step turn deadline i fuel h) [ inl now ↦ (i, now) | inr later ↦ rest later ]

-- The descriptor that goes with an outcome: held with the lock, and given back or never opened
-- with an error.
abbrev pub Kept : Outcome → Handle → Type 0
Kept acquired h = h ≡ held
Kept (refused e) h = h ≢ held
Kept polling h = Unit

poll_loop-Kept :
    (turn : ℕ → Poll) (deadline i fuel : ℕ)
    → Kept (poll_loop turn deadline i fuel).0 (poll_loop turn deadline i fuel).1
unfolding poll_loop
poll_loop-Kept turn deadline i zero = tt
poll_loop-Kept turn deadline i (suc fuel) =
    ground (arith, poll_loop-Kept turn deadline (suc i) fuel)

acquire_lock-Kept :
    (o : Opening) (turn : ℕ → Poll) (wait fuel : ℕ)
    → Kept (acquire_lock o turn wait fuel).0 (acquire_lock o turn wait fuel).1
unfolding acquire_lock
acquire_lock-Kept o turn wait fuel = ground (arith, poll_loop-Kept turn (o.started + wait) 0 fuel)

-- With an interval between its turns AcquireLock needs one turn for each interval of the wait and
-- two more: it then ends with the lock or an error. With the lock it holds the descriptor, and with
-- an error it holds none.
pub acquire_lock_ends :
    (o : Opening) (turn : ℕ → Poll) (wait : ℕ)
    → Ticks turn
    → o.started ≤ (turn 0).now
    → let (outcome, handle) = acquire_lock o turn wait (suc (wait / lock_poll_interval + 1)) in
      (outcome ≢ polling) × Kept outcome handle
unfolding acquire_lock
acquire_lock_ends o turn wait ticks h = (
  ground (arith, poll_loop_ends turn (o.started + wait) 0 (wait / lock_poll_interval + 1) ticks),
  acquire_lock-Kept o turn wait (suc (wait / lock_poll_interval + 1)),
)

-- AcquireLock reports the lock only when flock granted it in a turn that found the context alive.
pub acquire_lock-Granted :
    (o : Opening) (turn : ℕ → Poll) (wait fuel : ℕ)
    → (acquire_lock o turn wait fuel).0 ≡ acquired
    → (j : ℕ) × Granted (turn j)
unfolding acquire_lock
acquire_lock-Granted o turn wait fuel h =
    poll_loop-Granted turn (o.started + wait) 0 fuel (ground arith)
