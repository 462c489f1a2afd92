-- ===== src/AppServer/Watcher/Messages.antt =====
-- The agent messages that a turn's watcher collects, against the list of them in the trace.
use counterpoint.Prelude.{
  ◌≡◌, ◌≢◌, refl, ap, ◌∙◌, sym, Bool, true, false, ◌&&◌, List, [], ◌∷◌, ◌++◌, Option, none, some,
  is_empty, arith, if◌then◌else◌, Bool-cases, inl, inr,
}
use counterpoint.Prelude.Text.{Bytes, eq_text, eq_text_iff}
use counterpoint.AppServer.Notification.{
  Message, turn_started, agent_message_delta, item_completed, token_usage, error, turn_completed,
  ItemType, agent_message,
}
use counterpoint.AppServer.Watcher.{Watcher, handle, run, separator, dispatch}
use counterpoint.AppServer.Watcher.Verdict.{Verdict, verdict, verdict-run_late}

-- A blank line between messages.
abbrev pub joined : Bytes → List Bytes → Bytes
joined acc [] = acc
joined acc (t ∷ ts) = joined (if is_empty acc then t else (acc ++ separator) ++ t) ts

-- The text of an agent message of this turn.
abbrev item_text : ItemType → Bytes → Option Bytes
item_text agent_message t = some t
item_text _ t = none

abbrev pub agent_text : Bytes → Bytes → Message → Option Bytes
agent_text thread turn (item_completed (some n)) =
    if eq_text n.thread_id thread && eq_text n.turn_id turn
    then item_text n.item.type n.item.text
    else none
agent_text thread turn _ = none

abbrev pub completes : Bytes → Bytes → Message → Bool
completes thread turn (turn_completed (some n)) =
    eq_text n.thread_id thread && eq_text n.turn_id turn
completes thread turn _ = false

-- The texts of the turn's agent messages up to its completion, in order.
pub texts : Bytes → Bytes → List Message → List Bytes
texts thread turn [] = []
texts thread turn (m ∷ ms) =
    let rest = texts thread turn ms in
    if completes thread turn m
    then []
    else elim (agent_text thread turn m) [ none ↦ rest | some t ↦ t ∷ rest ]

abbrev joined_one : Bytes → Option Bytes → Bytes
joined_one acc none = acc
joined_one acc (some t) = if is_empty acc then t else (acc ++ separator) ++ t

-- One message of a running turn.
record Step (w : Watcher) (m : Message) : Type 0 where
  same_thread : (handle w m).thread_id ≡ w.thread_id
  same_turn : (handle w m).turn_id ≡ w.turn_id
  ends : (handle w m).finished ≡ completes w.thread_id w.turn_id m
  sticky : w.overflow ≡ true → (handle w m).overflow ≡ true
  gains :
      (handle w m).overflow ≡ false
      → (handle w m).messages ≡ joined_one w.messages (agent_text w.thread_id w.turn_id m)

Step-of_running : (w : Watcher) (m : Message) → w.turn_id ≢ [] → w.finished ≡ false → Step w m
unfolding handle dispatch
Step-of_running w (turn_started (some n)) k h = ground arith
Step-of_running w (agent_message_delta (some n)) k h = ground arith
Step-of_running w (item_completed (some n)) k h = ground (arith, eq_text_iff n.turn_id w.turn_id)
Step-of_running w (token_usage none) k h = ground arith
Step-of_running w (token_usage (some n)) k h = ground arith
Step-of_running w (error (some n)) k h = ground arith
Step-of_running w (turn_completed (some n)) k h = ground (arith, eq_text_iff n.turn_id w.turn_id)
Step-of_running w _ k h = ground arith

messages-late :
    (w : Watcher) (ms : List Message) → w.finished ≡ true → (run w ms).messages ≡ w.messages
unfolding verdict
messages-late w ms h = ap (λ (v : Verdict). v.messages) (verdict-run_late w ms h)

overflow-handle : (w : Watcher) (m : Message) → w.overflow ≡ true → (handle w m).overflow ≡ true
unfolding handle dispatch
overflow-handle w (agent_message_delta (some n)) h = ground arith
overflow-handle w (item_completed (some n)) h = ground arith
overflow-handle w (token_usage none) h = ground arith
overflow-handle w (token_usage (some n)) h = ground arith
overflow-handle w _ h = ground arith

overflow-run : (w : Watcher) (ms : List Message) → w.overflow ≡ true → (run w ms).overflow ≡ true
unfolding run
overflow-run w [] h = h
overflow-run w (m ∷ ms) h = overflow-run (handle w m) ms (overflow-handle w m h)

text_of_completion :
    (thread turn : Bytes) (m : Message)
    → completes thread turn m ≡ true
    → agent_text thread turn m ≡ none
text_of_completion thread turn (item_completed n) h = absurd (cc)
text_of_completion thread turn _ h = refl

joined-texts :
    (acc thread turn : Bytes) (m : Message) (ms : List Message)
    → completes thread turn m ≡ false
    → joined acc (texts thread turn (m ∷ ms))
      ≡ joined (joined_one acc (agent_text thread turn m)) (texts thread turn ms)
unfolding texts
joined-texts acc thread turn m ms h = ground arith

texts_completed :
    (thread turn : Bytes) (m : Message) (ms : List Message)
    → completes thread turn m ≡ true
    → texts thread turn (m ∷ ms) ≡ []
unfolding texts
texts_completed thread turn m ms h = ground arith

not_overflow : (w : Watcher) (ms : List Message) → (run w ms).overflow ≡ false → w.overflow ≡ false
not_overflow w ms o = ground (arith, overflow-run w ms)

-- When nothing has overflowed, the collected messages of a running turn are its agent messages up
-- to its completion, whole and in order, with a blank line between them.
pub joined-run :
    (w : Watcher) (ms : List Message)
    → w.turn_id ≢ []
    → w.finished ≡ false
    → (run w ms).overflow ≡ false
    → (run w ms).messages ≡ joined w.messages (texts w.thread_id w.turn_id ms)
unfolding run
joined-run w [] k h o = unfold texts in refl
joined-run w (m ∷ ms) k h o =
    let step = Step-of_running w m k h in
    let gained = step.gains (not_overflow (handle w m) ms o) in
    let rest : (handle w m).turn_id ≢ []
        → (handle w m).finished ≡ false
        → (run (handle w m) ms).messages
          ≡ joined (handle w m).messages (texts (handle w m).thread_id (handle w m).turn_id ms) =
      λ k' h'. joined-run (handle w m) ms k' h' o in
    elim (Bool-cases (completes w.thread_id w.turn_id m)) [
      | inl done ↦
          messages-late (handle w m) ms (step.ends ∙ done)
          ∙ (gained
              ∙ cc (
                text_of_completion w.thread_id w.turn_id m done,
                texts_completed w.thread_id w.turn_id m ms done,
              ))
      | inr more ↦ cc (
        rest (λ e. k (sym step.same_turn ∙ e)) (step.ends ∙ more),
        step.same_thread,
        step.same_turn,
        gained,
        joined-texts w.messages w.thread_id w.turn_id m ms more,
      )
    ]
