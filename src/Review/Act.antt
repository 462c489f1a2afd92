-- ===== src/Review/Act.antt =====
-- Calls whose answers may depend on everything that was done before. The log of what was done is
-- kept newest first.
use counterpoint.Prelude.{List, ◌∷◌, Result, ok, err, Bool, true, false}

abbrev pub Act {κ} : Type 0 → Type 0 → Type κ → Type κ
Act Event E A = List Event → Result E A × List Event

-- The same result with the error of another type.
abbrev pub lift {κ} : {E F : Type 0} {A : Type κ} → (E → F) → Result E A → Result F A
lift f (ok a) = ok a
lift f (err e) = err (f e)

module _ {Event E : Type 0} where
  abbrev pub pure {κ} : {A : Type κ} → A → Act Event E A
  pure a t = (ok a, t)

  abbrev pub fail {κ} : {A : Type κ} → E → Act Event E A
  fail e t = (err e, t)

  abbrev pub then_do {κ} : {A B : Type κ} → Result E A → (A → Act Event E B) → Act Event E B
  then_do (ok a) f t = f a t
  then_do (err e) f t = (err e, t)

  infixl 5 ◌>>=◌ ◌>>◌
  abbrev pub ◌>>=◌ {κ} : {A B : Type κ} → Act Event E A → (A → Act Event E B) → Act Event E B
  (m >>= f) t = let (r, t') = m t in then_do r f t'

  abbrev pub ◌>>◌ : {B : Type 0} → Act Event E (Unit {0}) → Act Event E B → Act Event E B
  m >> k = m >>= λ _. k

  abbrev pub refuse_if : Bool → E → Act Event E (Unit {0})
  refuse_if true e = fail e
  refuse_if false e = pure tt

  -- A call that is noted whether or not it succeeds.
  abbrev pub call : {A : Type 0} → Event → (List Event → Result E A) → Act Event E A
  call event f t = (f t, event ∷ t)

  -- A call of which nothing remains when it fails.
  abbrev pub note_ok : {A : Type 0} → Event → Result E A → List Event → List Event
  note_ok event (ok _) t = event ∷ t
  note_ok event (err _) t = t

  abbrev pub obtain : {A : Type 0} → Event → (List Event → Result E A) → Act Event E A
  obtain event f t = (f t, note_ok event (f t) t)

  abbrev pub note : Event → Act Event E (Unit {0})
  note event t = (ok tt, event ∷ t)

  -- A deferred call: it runs after the body on every path.
  abbrev pub deferring : {A : Type 0} → Event → Act Event E A → Act Event E A
  deferring event body t = let (r, t') = body t in (r, event ∷ t')

  -- A call whose failure the caller handles.
  abbrev pub attempt : {A X : Type 0} → Event → (List Event → Result X A) → Act Event E (Result X A)
  attempt event f t = (ok (f t), event ∷ t)

  abbrev pub ask : {A : Type 0} → (List Event → A) → Act Event E A
  ask f t = (ok (f t), t)

  -- A call that leaves nothing to see.
  abbrev pub ask_result : {A : Type 0} → (List Event → Result E A) → Act Event E A
  ask_result f t = (f t, t)
