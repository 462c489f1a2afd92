-- ===== src/Review/Service/Discipline.antt =====
-- The order of locks and closes in a review: an automaton over its log, and that every review keeps
-- to it.
use counterpoint.Prelude.{
  ◌≡◌, Bool, true, false, List, [], ◌∷◌, Option, none, some, if◌then◌else◌, Result, ok, err,
}
use counterpoint.Review.Act.{Act, ◌>>=◌, call, obtain, note, deferring, attempt, then_do, note_ok}
use counterpoint.Review.Service.{
  Event, workflow_locked, workflow_unlocked, state_locked, state_unlocked, loaded,
  checkout_prepared, checkout_removed, reviewer_started, reviewer_closed, thread_started,
  thread_named, tree_checked, thread_resumed, thread_unarchived, warning_added, turn_run, saving,
  Log, World, Failure,
}

pub data Resource : Type 0 where
  workflow_lock state_lock checkout reviewer : Resource

-- What is held after an event, the newest first; `none` for an event out of order.
abbrev pub step : Event → List Resource → Option (List Resource)
-- the workflow lock is the root of the lock order
step workflow_locked [] = some (workflow_lock ∷ [])
step workflow_unlocked (workflow_lock ∷ rs) = some rs
-- the state lock is held for a read or a save, and nothing else is done under it
step state_locked (workflow_lock ∷ rs) = some (state_lock ∷ workflow_lock ∷ rs)
step state_locked (reviewer ∷ rs) = some (state_lock ∷ reviewer ∷ rs)
step state_unlocked (state_lock ∷ rs) = some rs
step loaded (state_lock ∷ rs) = some (state_lock ∷ rs)
step (saving _) (state_lock ∷ rs) = some (state_lock ∷ rs)
-- the checkout is there before the reviewer and goes after it
step checkout_prepared (workflow_lock ∷ rs) = some (checkout ∷ workflow_lock ∷ rs)
step checkout_removed (checkout ∷ rs) = some rs
step reviewer_started (workflow_lock ∷ rs) = some (reviewer ∷ workflow_lock ∷ rs)
step reviewer_started (checkout ∷ rs) = some (reviewer ∷ checkout ∷ rs)
step reviewer_closed (reviewer ∷ rs) = some rs
-- the reviewer is used only while it runs and no state lock is held
step thread_started (reviewer ∷ rs) = some (reviewer ∷ rs)
step thread_named (reviewer ∷ rs) = some (reviewer ∷ rs)
step tree_checked (reviewer ∷ rs) = some (reviewer ∷ rs)
step (thread_resumed _) (reviewer ∷ rs) = some (reviewer ∷ rs)
step (thread_unarchived _) (reviewer ∷ rs) = some (reviewer ∷ rs)
step (warning_added _) (reviewer ∷ rs) = some (reviewer ∷ rs)
step (turn_run _) (reviewer ∷ rs) = some (reviewer ∷ rs)
step _ _ = none

and_then :
    Option (List Resource) → (List Resource → Option (List Resource)) → Option (List Resource)
and_then none f = none
and_then (some rs) f = f rs

unfoldable pub held : Log → Option (List Resource)
unfolding and_then
held [] = some []
held (e ∷ t) = and_then (held t) (step e)

-- Whatever the log, a program that starts with `rs` held ends with `rs` held, in order throughout.
abbrev pub Keeps : {E A : Type 0} → List Resource → Act Event E A → Type 0
Keeps rs m = (t : Log) → held t ≡ some rs → held (m t).1 ≡ some rs

module _ {E : Type 0} where
  then_do-Keeps :
      {A B : Type 0} (rs : List Resource) (r : Result E A) (f : A → Act Event E B)
      → ((a : A) → Keeps rs (f a))
      → Keeps rs (then_do r f)
  then_do-Keeps rs (ok a) f k t h = k a t h
  then_do-Keeps rs (err e) f k t h = h

  pub >>=-Keeps :
      {A B : Type 0} (rs : List Resource) (m : Act Event E A) (f : A → Act Event E B)
      → Keeps rs m
      → ((a : A) → Keeps rs (f a))
      → Keeps rs (m >>= f)
  >>=-Keeps rs m f k l t h = then_do-Keeps rs (m t).0 f l (m t).1 (k t h)

  bracket_lem :
      {A B : Type 0} (rs ts : List Resource) (taken given : Event) (body : A → Act Event E B)
      → step taken rs ≡ some ts
      → step given ts ≡ some rs
      → ((a : A) → Keeps ts (body a))
      → (r : Result E A) (t : Log) → held t ≡ some rs
      → held (then_do r (λ a. deferring given (body a)) (note_ok taken r t)).1 ≡ some rs
  unfolding held
  bracket_lem rs ts taken given body p q k (ok a) t h = rw (k a (taken ∷ t) (rw h p)) q
  bracket_lem rs ts taken given body p q k (err e) t h = h

  -- A resource that is taken, used, and given back.
  pub bracket-Keeps :
      {A B : Type 0} (rs ts : List Resource) (taken given : Event) (f : Log → Result E A)
      (body : A → Act Event E B)
      → step taken rs ≡ some ts
      → step given ts ≡ some rs
      → ((a : A) → Keeps ts (body a))
      → Keeps rs (obtain taken f >>= λ a. deferring given (body a))
  bracket-Keeps rs ts taken given f body p q k t h =
      bracket_lem rs ts taken given body p q k (f t) t h

  pub call-Keeps :
      {A : Type 0} (rs : List Resource) (e : Event) (f : Log → Result E A)
      → step e rs ≡ some rs
      → Keeps rs (call e f)
  unfolding held
  call-Keeps rs e f p t h = rw h p

  pub if-Keeps :
      {A : Type 0} (rs : List Resource) (b : Bool) (m n : Act Event E A)
      → Keeps rs m
      → Keeps rs n
      → Keeps rs (if b then m else n)
  if-Keeps rs true m n k l = k
  if-Keeps rs false m n k l = l

module _ (w : World) where
  pub attempt-Keeps :
      {A X : Type 0} (rs : List Resource) (e : Event) (f : Log → Result X A)
      → step e rs ≡ some rs
      → Keeps rs (attempt {E = Failure w.Error} e f)
  unfolding held
  attempt-Keeps rs e f p t h = rw h p

  pub note-Keeps :
      (rs : List Resource) (e : Event)
      → step e rs ≡ some rs
      → Keeps rs (note {E = Failure w.Error} e)
  unfolding held
  note-Keeps rs e p t h = rw h p
