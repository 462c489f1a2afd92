-- ===== src/Review/Service/Answers.antt =====
-- What a review that returns a result has done: an answer from the state file has run nothing, and a
-- new round has been saved before it is returned.
use counterpoint.Prelude.{
  ◌≡◌, refl, ◌∙◌, ◌⊎◌, inl, inr, Bool, true, false, [], ◌∷◌, Option, none, some, is_some, Result,
  ok, err, arith, All,
}
use counterpoint.Prelude.Text.{Bytes, eq_text_refl}
use counterpoint.State.Record.{HistoryRecord, Workflow}
use counterpoint.State.Store.{Workflows, get, put}
use counterpoint.State.Store.Lookup.{get-put}
use counterpoint.Review.Act.{Act, ◌>>=◌, call, obtain, deferring, lift, then_do}
use counterpoint.Review.Completed.{found, reconcile, previous_record}
use counterpoint.Review.Eviction.{
  Outcome, saved, failed, cancelled, panicked, out_of_fuel, save_evicting_history,
}
use counterpoint.Review.Eviction.Success.{save_evicting_history_saved}
use counterpoint.Review.Eviction.Trimmed.{TrimOption, save_evicting_history-Trimmed}
use counterpoint.Review.Service.{
  Event, workflow_locked, workflow_unlocked, state_locked, state_unlocked, loaded, saving, Log,
  ReviewResult, World, Failure, state_changed,
}
use counterpoint.Review.Service.Round.{save_completed, save_evicting, save_result, pass}
use counterpoint.Review.Service.Run.{review}

-- The event is in the log, with this part of the log before it.
abbrev pub Logged : Event → Log → Log → Type 0
Logged e before [] = ⊥
Logged e before (x ∷ t) = ((x ≡ e) × (t ≡ before)) ⊎ Logged e before t

-- Whatever the log before, a result of the program has the property with the log after.
abbrev pub Post : {E A : Type 0} → (A → Log → Type 0) → Act Event E A → Type 0
Post Q m = (t : Log) → (a : _) → (m t).0 ≡ ok a → Q a (m t).1

module _ {E A B : Type 0} (Q : B → Log → Type 0) where
  then_do-Post :
      (r : Result E A) (f : A → Act Event E B) (t : Log) (b : B)
      → ((a : A) → Post Q (f a))
      → (then_do r f t).0 ≡ ok b
      → Q b (then_do r f t).1
  then_do-Post (ok a) f t b k h = k a t b h
  then_do-Post (err e) f t b k h = absurd (cc)

  pub >>=-Post :
      (m : Act Event E A) (f : A → Act Event E B) → ((a : A) → Post Q (f a)) → Post Q (m >>= f)
  >>=-Post m f k t b h = then_do-Post (m t).0 f (m t).1 b k h

-- A property that later events leave alone.
pub deferring-Post :
    {E B : Type 0} (Q : B → Log → Type 0) (e : Event) (m : Act Event E B)
    → ((b : B) (t : Log) → Q b t → Q b (e ∷ t))
    → Post Q m
    → Post Q (deferring e m)
deferring-Post Q e m stable k t b h = stable b (m t).1 (k t b h)

pub lift_ok :
    {E X A B : Type 0} (r : Result X A) (g : X → E) (f : A → Act Event E B) (t : Log) (b : B)
    → (then_do (lift g r) f t).0 ≡ ok b
    → (a : A) × (r ≡ ok a) × ((f a t).0 ≡ ok b) × ((then_do (lift g r) f t).1 ≡ (f a t).1)
lift_ok (ok a) g f t b h = (a, refl, h, refl)
lift_ok (err e) g f t b h = absurd (cc)

-- A Save has succeeded with a state whose record under the key is the completed one, with a history.
abbrev pub SavedAs : World → Bytes → Workflow → Log → Type 0
SavedAs w key done t =
    (m : Workflows) × (wf : Workflow) × (before : Log) × Logged (saving m) before t
    × (w.save before m ≡ ok tt)
    × (get m key ≡ some wf)
    × (wf ≡ record done { history = wf.history })

reconcile_keeps :
    (before : Workflow) (known : Bool) (previous : HistoryRecord) (done : Workflow)
    (fresh : Option Workflow) (w : Workflow)
    → reconcile before known previous done fresh ≡ ok w
    → w ≡ record done { history = w.history }
unfolding reconcile
reconcile_keeps before false previous done none w h = ground arith
reconcile_keeps before false previous done (some f) w h = absurd (ground arith)
reconcile_keeps before true previous done none w h = absurd (ground arith)
reconcile_keeps before true previous done (some f) w h = ground arith

trimmed_found :
    (o o' : Option Workflow) (a : Workflow)
    → TrimOption o o'
    → o ≡ some a
    → (b : Workflow) × (o' ≡ some b) × (b ≡ record a { history = b.history })
trimmed_found none o' a t h = absurd (cc)
trimmed_found (some x) none a t h = absurd t
trimmed_found (some x) (some b) a t h = (b, refl, ground (arith, t.kept))

save_result_ok : (w : World) (o : Outcome) → save_result w o ≡ ok tt → o ≡ saved
unfolding save_result
save_result_ok w saved h = refl
save_result_ok w (failed e) h = absurd (cc)
save_result_ok w cancelled h = absurd (cc)
save_result_ok w panicked h = absurd (cc)
save_result_ok w out_of_fuel h = absurd (cc)

module _ (w : World) (key : Bytes) where
  save_evicting-SavedAs :
      (m : Workflows) (next : Workflow)
      → Post (λ _ t. SavedAs w key next t) (save_evicting w (put m key next))
  unfolding save_evicting
  save_evicting-SavedAs m next t u h =
      let run =
        save_evicting_history w.heap w.record_bytes (w.save t) (w.eviction_ended t)
          (put m key next) in
      let there : get (put m key next) key ≡ some next =
        get-put m key key next ∙ rw (eq_text_refl key) refl in
      let (b, stored, kept) =
        trimmed_found _ (get run.0 key) next
          (save_evicting_history-Trimmed w.heap w.record_bytes (w.save t) (w.eviction_ended t)
            (put m key next) key)
          there in
      let good =
        save_evicting_history_saved w.heap w.record_bytes (w.save t) (w.eviction_ended t)
          (put m key next) (save_result_ok w run.1 h) in
      (run.0, b, t, inl (refl, refl), good, stored, kept)

  stable :
      (done : Workflow) (e : Event) (t : Log) → SavedAs w key done t → SavedAs w key done (e ∷ t)
  stable done e t (m, wf, before, logged, good, there, kept) =
      (m, wf, before, inr logged, good, there, kept)

  reconciled-SavedAs :
      (before : Option Workflow) (done : Workflow) (m : Workflows)
      → Post {E = Failure w.Error} {A = Unit {0}}
          (λ _ t. SavedAs w key done t)
          ((λ t. (
            lift state_changed (
                reconcile
                  (found before)
                  (is_some before)
                  (previous_record (found before))
                  done
                  (get m key)),
            t,
          ))
            >>= λ next. save_evicting w (put m key next))
  reconciled-SavedAs before done m t b h =
      let (next, same, saves, after) =
        lift_ok
          (reconcile (found before) (is_some before) (previous_record (found before)) done
            (get m key))
          state_changed (λ next. save_evicting w (put m key next)) t b h in
      let kept =
        reconcile_keeps (found before) (is_some before) (previous_record (found before)) done
          (get m key) next same in
      let (m', wf, at, logged, good, stored, trimmed) = save_evicting-SavedAs m next t b saves in
      rw after (m', wf, at, logged, good, stored, ground (arith, trimmed, kept))

  pub save_completed-SavedAs :
      (before : Option Workflow) (done : Workflow)
      → Post (λ _ t. SavedAs w key done t) (save_completed w key before done)
  unfolding save_completed
  save_completed-SavedAs before done =
      >>=-Post {A = Unit {0}} (λ _ t. SavedAs w key done t) (obtain state_locked _) _
        (λ _.
          deferring-Post (λ _ t. SavedAs w key done t) state_unlocked _
            (λ _ t. stable done state_unlocked t)
            (>>=-Post (λ _ t. SavedAs w key done t) (call loaded (λ t. pass w (w.load t))) _
              (reconciled-SavedAs before done)))

-- The answer of a new round, which has been saved.
abbrev pub NewRound : World → Bytes → ReviewResult → Log → Type 0
NewRound w key r t =
    (r.replayed ≡ false)
    × ((done : Workflow) × SavedAs w key done t
        × (r.round ≡ done.round)
        × (r.review ≡ done.last_review)
        × (r.warnings ≡ done.last_warnings)
        × (r.commit ≡ done.last_commit))

-- Locks taken and given back, and reads of the state file: no reviewer, no checkout and no save.
abbrev pub is_quiet : Event → Bool
is_quiet workflow_locked = true
is_quiet workflow_unlocked = true
is_quiet state_locked = true
is_quiet state_unlocked = true
is_quiet loaded = true
is_quiet _ = false

abbrev pub Quiet : Log → Type 0
Quiet = All (λ e. is_quiet e ≡ true)

-- The answer comes from the state file, and nothing was run for it; or it is that of a new round.
abbrev pub Answered : World → Bytes → ReviewResult → Log → Type 0
Answered w key r t = ((r.replayed ≡ true) × Quiet t) ⊎ NewRound w key r t

module _ (w : World) (key : Bytes) where
  pub new_stable :
      (e : Event) (r : ReviewResult) (t : Log) → NewRound w key r t → NewRound w key r (e ∷ t)
  new_stable e r t (fresh, (done, s, round, review, warnings, commit)) =
      (fresh, (done, stable w key done e t s, round, review, warnings, commit))

  pub Answered-stable :
      (e : Event) (r : ReviewResult) (t : Log)
      → is_quiet e ≡ true
      → Answered w key r t
      → Answered w key r (e ∷ t)
  Answered-stable e r t q (inl (old, quiet)) = inl (old, (q, quiet))
  Answered-stable e r t q (inr new) = inr (new_stable e r t new)
