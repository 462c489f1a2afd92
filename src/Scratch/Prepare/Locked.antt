-- ===== src/Scratch/Prepare/Locked.antt =====
-- internal/scratch/scratch.go: a checkout is made, changed and removed only under the lock of its
-- workflow directory, and the lock is held at the end exactly when Prepare succeeds.
use counterpoint.Prelude.{
  ◌≡◌, ◌⊎◌, inl, inr, refl, Bool, true, false, not, [], ◌∷◌, Option, none, some, Result, ok, err,
}
use counterpoint.Review.Act.{note_ok, then_do, ◌>>=◌, ◌>>◌, refuse_if, call, note, ask}
use counterpoint.Scratch.Prepare.{
  Part, checkout, hooks, temp, cache, Event, root_made, workflow_dir_made, locked, released,
  stamped, swept, removed, made, cloned, Log, Seen, absent, unreadable, symlink, there,
  ScratchError, cancelled, no_root, overlap, System, Do, remove_owned, remove_seen, not_symlink,
  close, on_error, cleaned, furnish, in_use, prepare_checkout,
}

-- The lock of the workflow directory, which is not taken again once it has been given back.
pub data Phase : Type 0 where
  waiting held given_back : Phase

-- The lock after an event; `none` for an event out of order.
abbrev pub step : Event → Phase → Option Phase
step locked waiting = some held
step locked _ = none
step released held = some given_back
step released _ = none
step root_made given_back = none
step root_made p = some p
step workflow_dir_made given_back = none
step workflow_dir_made p = some p
step _ held = some held
step _ _ = none

and_then : Option Phase → (Phase → Option Phase) → Option Phase
and_then none f = none
and_then (some b) f = f b

unfoldable pub lock_state : Log → Option Phase
unfolding and_then
lock_state [] = some waiting
lock_state (e ∷ t) = and_then (lock_state t) (step e)

-- A step that was begun with the lock keeps it when it succeeds and gives it back when it fails.
abbrev Kept : Result ScratchError (Unit {0}) → Log → Type 0
Kept (ok _) u = lock_state u ≡ some held
Kept (err _) u = lock_state u ≡ some given_back

-- Prepare ends with the lock when it succeeds; when it fails, with the lock never taken or given back.
abbrev pub Settled : Result ScratchError (Unit {0}) → Log → Type 0
Settled (ok _) u = lock_state u ≡ some held
Settled (err _) u = (lock_state u ≡ some waiting) ⊎ (lock_state u ≡ some given_back)

settled : (r : Result ScratchError (Unit {0})) (u : Log) → Kept r u → Settled r u
settled (ok _) u h = h
settled (err _) u h = inr h

module _ (s : System) where
  abbrev Keeps : Do s → Type 0
  Keeps m = (t : Log) → lock_state t ≡ some held → lock_state (m t).1 ≡ some held

  abbrev Settles : Do s → Type 0
  Settles m = (t : Log) → lock_state t ≡ some held → Kept (m t).0 (m t).1

  bind_lem :
      (r : Result ScratchError (Unit {0})) (k : Do s) (u : Log)
      → Keeps k
      → lock_state u ≡ some held
      → lock_state (then_do r (λ _. k) u).1 ≡ some held
  bind_lem (ok a) k u l h = l u h
  bind_lem (err e) k u l h = h

  then-Keeps : (m k : Do s) → Keeps m → Keeps k → Keeps (m >> k)
  then-Keeps m k p q t h = bind_lem (m t).0 k (m t).1 q (p t h)

  call-Keeps :
      (e : Event) (f : Log → Result ScratchError (Unit {0}))
      → step e held ≡ some held
      → Keeps (call e f)
  unfolding lock_state
  call-Keeps e f p t h = rw h p

  remove_seen-Keeps : (p : Part) (x : Seen) → Keeps (remove_seen s p x)
  unfolding remove_seen
  remove_seen-Keeps p absent t h = h
  remove_seen-Keeps p unreadable t h = h
  remove_seen-Keeps p symlink t h = h
  remove_seen-Keeps p there t h = call-Keeps (removed p) (s.remove_all p) refl t h

  remove_owned-Keeps : (p : Part) → Keeps (remove_owned s p)
  unfolding remove_owned
  remove_owned-Keeps p t = remove_seen-Keeps p (s.lstat p t) t

  not_symlink-Keeps : (x : Seen) → Keeps (not_symlink s x)
  unfolding not_symlink
  not_symlink-Keeps absent t h = h
  not_symlink-Keeps unreadable t h = h
  not_symlink-Keeps symlink t h = h
  not_symlink-Keeps there t h = h

  furnish-Keeps : Keeps (furnish s)
  unfolding furnish
  furnish-Keeps = then-Keeps (remove_owned s checkout) _ (remove_owned-Keeps checkout) (
      then-Keeps (remove_owned s hooks) _ (remove_owned-Keeps hooks) (
        then-Keeps (remove_owned s temp) _ (remove_owned-Keeps temp) (
          then-Keeps (call (made hooks) (s.make hooks)) _
            (call-Keeps (made hooks) (s.make hooks) refl)
            (then-Keeps (call (made temp) (s.make temp)) _
              (call-Keeps (made temp) (s.make temp) refl)
              (then-Keeps (call (made cache) (s.make cache)) _
                (call-Keeps (made cache) (s.make cache) refl)
                (then-Keeps (ask (s.lstat cache) >>= not_symlink s) _
                  (λ t. not_symlink-Keeps (s.lstat cache t) t)
                  (call-Keeps cloned s.clone_detached refl)))))))

  -- Close gives the lock back, whatever fails.
  pub close_frees :
      (t : Log) → lock_state t ≡ some held → lock_state (close s t).1 ≡ some given_back
  unfolding close lock_state
  close_frees t h =
      let a = remove_owned-Keeps checkout t h in
      let b = remove_owned-Keeps temp (remove_owned s checkout t).1 a in
      let c = remove_owned-Keeps hooks (remove_owned s temp (remove_owned s checkout t).1).1 b in
      rw c refl

  error_lem :
      (cleanup : Do s) (r : Result ScratchError (Unit {0})) (u : Log)
      → ((t : Log) → lock_state t ≡ some held → lock_state (cleanup t).1 ≡ some given_back)
      → lock_state u ≡ some held
      → Kept (cleaned s cleanup r u).0 (cleaned s cleanup r u).1
  error_lem cleanup (ok a) u f h = h
  error_lem cleanup (err e) u f h = f u h

  on_error-Settles :
      (cleanup m : Do s)
      → ((t : Log) → lock_state t ≡ some held → lock_state (cleanup t).1 ≡ some given_back)
      → Keeps m
      → Settles (on_error s cleanup m)
  on_error-Settles cleanup m f k t h = error_lem cleanup (m t).0 (m t).1 f (k t h)

  settle_lem :
      (r : Result ScratchError (Unit {0})) (k : Do s) (u : Log)
      → Settles k
      → Kept r u
      → let x = then_do r (λ _. k) u in Kept x.0 x.1
  settle_lem (ok a) k u l h = l u h
  settle_lem (err e) k u l h = h

  then-Settles : (m k : Do s) → Settles m → Settles k → Settles (m >> k)
  then-Settles m k p q t h = settle_lem (m t).0 k (m t).1 q (p t h)

  release_frees :
      (t : Log)
      → lock_state t ≡ some held
      → lock_state (call {E = ScratchError} released s.release t).1 ≡ some given_back
  unfolding lock_state
  release_frees t h = rw h refl

  refuse_if-Keeps : (b : Bool) → Keeps (refuse_if b cancelled)
  refuse_if-Keeps true t h = h
  refuse_if-Keeps false t h = h

  in_use-Settles : Settles (in_use s)
  unfolding in_use lock_state
  in_use-Settles =
      then-Settles (on_error s (call released s.release) (call stamped s.stamp)) _
        (on_error-Settles (call released s.release) (call stamped s.stamp) release_frees
          (call-Keeps stamped s.stamp refl))
        (then-Settles (note swept) _ (λ t h. rw h refl)
          (then-Settles
            (on_error s (call released s.release)
              (ask s.context_ended >>= λ ended. refuse_if ended cancelled))
            _
            (on_error-Settles (call released s.release) _ release_frees
              (λ t. refuse_if-Keeps (s.context_ended t) t))
            (on_error-Settles (close s) (furnish s) close_frees furnish-Keeps)))

  -- A step before the lock is taken.
  abbrev Waits : Do s → Type 0
  Waits m = (t : Log) → lock_state t ≡ some waiting → lock_state (m t).1 ≡ some waiting

  abbrev Opens : Do s → Type 0
  Opens m = (t : Log) → lock_state t ≡ some waiting → Settled (m t).0 (m t).1

  open_lem :
      (r : Result ScratchError (Unit {0})) (k : Do s) (u : Log)
      → Opens k
      → lock_state u ≡ some waiting
      → Settled (then_do r (λ _. k) u).0 (then_do r (λ _. k) u).1
  open_lem (ok a) k u l h = l u h
  open_lem (err e) k u l h = inl h

  then-Opens : (m k : Do s) → Waits m → Opens k → Opens (m >> k)
  then-Opens m k p q t h = open_lem (m t).0 k (m t).1 q (p t h)

  refuse_if-Waits : (b : Bool) (e : ScratchError) → Waits (refuse_if b e)
  refuse_if-Waits true e t h = h
  refuse_if-Waits false e t h = h

  not_symlink-Waits : (x : Seen) → Waits (not_symlink s x)
  unfolding not_symlink
  not_symlink-Waits absent t h = h
  not_symlink-Waits unreadable t h = h
  not_symlink-Waits symlink t h = h
  not_symlink-Waits there t h = h

  acquire_lem :
      (r : Result ScratchError (Unit {0})) (t : Log)
      → lock_state t ≡ some waiting
      → Settled
          (then_do r (λ _. in_use s) (note_ok locked r t)).0
          (then_do r (λ _. in_use s) (note_ok locked r t)).1
  unfolding lock_state
  acquire_lem (ok a) t h = settled _ _ (in_use-Settles (locked ∷ t) (rw h refl))
  acquire_lem (err e) t h = inl h

  -- Whatever the system answers, a checkout is stamped, swept, cleared, made and cloned only while the
  -- lock of its workflow directory is held. The lock is taken at most once, and nothing is done after
  -- it has been given back. Prepare ends with the lock held when it succeeds, and when it fails with
  -- the lock never taken or given back.
  pub prepare_checkout-Settled :
      (t : Log)
      → lock_state t ≡ some waiting
      → Settled (prepare_checkout s t).0 (prepare_checkout s t).1
  unfolding prepare_checkout lock_state
  prepare_checkout-Settled =
      then-Opens (refuse_if (not s.root) no_root) _ (refuse_if-Waits (not s.root) no_root) (
        then-Opens (refuse_if s.overlaps_worktree overlap) _
          (refuse_if-Waits s.overlaps_worktree overlap)
          (then-Opens (refuse_if s.overlaps_common_dir overlap) _
            (refuse_if-Waits s.overlaps_common_dir overlap)
            (then-Opens (call root_made s.make_root) _ (λ t h. rw h refl)
              (then-Opens (call workflow_dir_made s.make_workflow_dir) _ (λ t h. rw h refl)
                (then-Opens (ask s.workflow_dir >>= not_symlink s) _
                  (λ t. not_symlink-Waits (s.workflow_dir t) t)
                  (λ t. acquire_lem (s.acquire_lock t) t))))))
