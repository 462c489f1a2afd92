-- ===== src/AppServer/Watcher/Verdict.antt =====
-- What a turn's watcher attributes to the turn: nothing after its end, nothing from another turn,
-- and every agent message in order.
use counterpoint.Prelude.{
  ℕ, ◌≡◌, ◌≢◌, refl, ap, ◌∙◌, Bool, true, false, not, ◌&&◌, List, [], ◌∷◌, Option, none, some,
  arith, Bool-cases, inl, inr,
}
use counterpoint.Prelude.Text.{Bytes}
use counterpoint.AppServer.Notification.{
  Message, turn_started, agent_message_delta, item_completed, token_usage, error, turn_completed,
  Status, TurnError,
}
use counterpoint.AppServer.Watcher.{Watcher, handle, run, matches, dispatch, is_usage}

-- The fields from which the review's outcome is read.
pub record Verdict : Type 0 where
  pub thread_id : Bytes
  pub turn_id : Bytes
  pub review : Bytes
  pub messages : Bytes
  pub deltas : Bytes
  pub overflow : Bool
  pub status : Status
  pub turn_err : Option TurnError
  pub last_err : Option TurnError
  pub finished : Bool
  pub closes : ℕ

unfoldable pub verdict : Watcher → Verdict
verdict w = record {
  thread_id = w.thread_id;
  turn_id = w.turn_id;
  review = w.review;
  messages = w.messages;
  deltas = w.deltas;
  overflow = w.overflow;
  status = w.status;
  turn_err = w.turn_err;
  last_err = w.last_err;
  finished = w.finished;
  closes = w.closes;
}

verdict-on_usage :
    (w : Watcher) (m : Message) → is_usage m ≡ true → verdict (dispatch w m) ≡ verdict w
unfolding dispatch verdict
verdict-on_usage w (token_usage none) h = refl
verdict-on_usage w (token_usage (some n)) h = ground arith
verdict-on_usage w _ h = absurd (cc)

verdict-handle_late :
    (w : Watcher) (m : Message) → w.finished ≡ true → verdict (handle w m) ≡ verdict w
unfolding handle
verdict-handle_late w m h = elim (Bool-cases (w.finished && not (is_usage m))) [
  | inl late ↦ rw late
  | inr usage ↦ rw usage (verdict-on_usage w m (ground arith))
]

-- Once the turn has finished no message changes its verdict: only usage and its counts still move.
pub verdict-run_late :
    (w : Watcher) (ms : List Message) → w.finished ≡ true → verdict (run w ms) ≡ verdict w
unfolding run verdict
verdict-run_late w [] h = refl
verdict-run_late w (m ∷ ms) h =
    let kept = verdict-handle_late w m h in
    verdict-run_late (handle w m) ms (ap (λ (v : Verdict). v.finished) kept ∙ h) ∙ kept

-- The thread and the turn that a message names, where it decodes.
abbrev pub address : Message → Option (Bytes × Bytes)
address (turn_started (some n)) = some (n.thread_id, n.turn_id)
address (agent_message_delta (some n)) = some (n.thread_id, n.turn_id)
address (item_completed (some n)) = some (n.thread_id, n.turn_id)
address (token_usage (some n)) = some (n.thread_id, n.turn_id)
address (error (some n)) = some (n.thread_id, n.turn_id)
address (turn_completed (some n)) = some (n.thread_id, n.turn_id)
address _ = none

abbrev names_turn : Watcher → Option (Bytes × Bytes) → Bool
names_turn w none = false
names_turn w (some (thread, turn)) = matches w thread turn

-- A message that does not name the watcher's own thread and turn.
abbrev pub IsForeign : Watcher → Message → Type 0
IsForeign w m = names_turn w (address m) ≡ false

-- With the turn id known, a message that names another thread or turn, or no turn, changes neither
-- the verdict nor the usage.
pub verdict-handle_foreign :
    (w : Watcher) (m : Message)
    → w.turn_id ≢ []
    → IsForeign w m
    → (verdict (handle w m) ≡ verdict w) × ((handle w m).usage ≡ w.usage)
unfolding handle dispatch verdict
verdict-handle_foreign w (turn_started (some n)) k h = ground arith
verdict-handle_foreign w (agent_message_delta (some n)) k h = ground arith
verdict-handle_foreign w (item_completed (some n)) k h = ground arith
verdict-handle_foreign w (token_usage none) k h = ground arith
verdict-handle_foreign w (token_usage (some n)) k h = ground arith
verdict-handle_foreign w (error (some n)) k h = ground arith
verdict-handle_foreign w (turn_completed (some n)) k h = ground arith
verdict-handle_foreign w _ k h = ground arith
