-- ===== src/AppServer/Outcome.antt =====
-- How a review turn ends: `awaitTurn`, `text`, `errorMessage`, `codexErrorCode` and the last
-- `switch` of `Review` in internal/appserver/client.go.
use counterpoint.Prelude.{
  ◌≡◌, ◌≢◌, refl, ◌⊎◌, inl, Bool, true, false, not, List, [], ◌∷◌, ◌++◌, Option, none, some,
  is_empty, arith, if◌then◌else◌, Result, ok, err, ◌↔◌,
}
use counterpoint.Prelude.Text.{Bytes, codes}
use counterpoint.Prelude.Decimal.{format_int}
use counterpoint.State.Record.{Usage}
use counterpoint.AppServer.Notification.{
  ErrorInfo, absent, unrecognized, bare, variants, TurnError, Status, completed, failed,
  interrupted, other_status,
}
use counterpoint.AppServer.Watcher.{Watcher}

pub data WaitOutcome : Type 0 where
  turn_finished connection_closed caller_cancelled : WaitOutcome

-- The channel that `select` picks among those that are ready.
pub data Ready : Type 0 where
  done closed cancelled : Ready

-- The first `select` has picked `chosen`; `done_now` is whether `done` is ready at the recheck.
unfoldable pub await_turn : Ready → Bool → WaitOutcome
await_turn done done_now = turn_finished
await_turn closed done_now = if done_now then turn_finished else connection_closed
await_turn cancelled done_now = if done_now then turn_finished else caller_cancelled

pub data TextError : Type 0 where
  review_too_large no_review_text : TextError

-- turnResult.text, on the watcher's snapshot
unfoldable pub text : Watcher → Result TextError Bytes
text r =
    if not (is_empty r.review)
    then ok r.review
    else if r.overflow
    then err review_too_large
    else if not (is_empty r.messages)
    then ok r.messages
    else if not (is_empty r.deltas)
    then ok r.deltas
    else err no_review_text

unfoldable pub codex_error_code : ErrorInfo → Bytes
codex_error_code absent = []
codex_error_code unrecognized = codes "unrecognized"
codex_error_code (bare code) = code
codex_error_code (variants []) = codes "unrecognized"
codex_error_code (variants ((name, none) ∷ _)) = name
codex_error_code (variants ((name, some status) ∷ _)) =
    name ++ (codes ", http " ++ format_int status)

no_details : Bytes
no_details = codes "no error details"

with_code : Bytes → Bytes → Bytes
with_code msg code =
    if is_empty code then msg else msg ++ (codes " (codex error: " ++ (code ++ codes ")"))

message_of : Option TurnError → Bytes
unfolding codex_error_code no_details with_code
message_of none = no_details
message_of (some e) =
    with_code (if is_empty e.message then no_details else e.message) (codex_error_code e.info)

-- The turn's own error when it has a message, and the last reported one otherwise.
chosen_error : Option TurnError → Option TurnError → Option TurnError
chosen_error none last = last
chosen_error (some e) last = if is_empty e.message then last else some e

unfoldable pub error_message : Watcher → Bytes
unfolding message_of chosen_error
error_message r = message_of (chosen_error r.turn_err r.last_err)

pub data TurnEnd : Type 0 where
  text_error : TextError → TurnEnd
  -- ErrTurnFailed with its message
  turn_failed : Bytes → TurnEnd
  turn_interrupted : TurnEnd
  unexpected_status : Bytes → TurnEnd

pub record Review : Type 0 where
  pub turn_id : Bytes
  pub text : Bytes
  pub warnings : List Bytes
  pub usage : Option Usage

with_text : Result TextError Bytes → (Bytes → Review) → Result TurnEnd Review
with_text (ok t) review = ok (review t)
with_text (err e) review = err (text_error e)

outcome_of : Status → Watcher → Bytes → List Bytes → Result TurnEnd Review
unfolding text error_message with_text
outcome_of completed w turn warnings =
    with_text (text w)
      (λ t. record { turn_id = turn; text = t; warnings = warnings; usage = w.usage })
outcome_of failed w turn warnings = err (turn_failed (error_message w))
outcome_of interrupted w turn warnings = err turn_interrupted
outcome_of (other_status s) w turn warnings = err (unexpected_status s)

-- The end of `Review`, from the watcher after the usage window.
unfoldable pub turn_outcome : Watcher → Bytes → List Bytes → Result TurnEnd Review
unfolding outcome_of
turn_outcome w turn warnings = outcome_of w.status w turn warnings

-- A turn that is ready to be read as finished is never reported as closed or cancelled, and any
-- other is reported by what ended the wait.
pub await_turn_iff :
    (chosen : Ready) (done_now : Bool)
    → (await_turn chosen done_now ≡ turn_finished) ↔ ((chosen ≡ done) ⊎ (done_now ≡ true))
unfolding await_turn
await_turn_iff done b = (λ h. inl refl, λ h. refl)
await_turn_iff closed b = (λ h. ground arith, λ h. ground arith)
await_turn_iff cancelled b = (λ h. ground arith, λ h. ground arith)

-- A review that a completed turn returns is the review item when there is one; otherwise nothing had
-- overflowed, and it is the collected messages, or the deltas when no message was collected.
pub turn_outcome_ok :
    (w : Watcher) (turn : Bytes) (warnings : List Bytes) {r : Review}
    → turn_outcome w turn warnings ≡ ok r
    → (w.status ≡ completed)
      × (r.text ≢ [])
      × ((r.text ≡ w.review)
          ⊎ ((w.review ≡ [])
              × (w.overflow ≡ false)
              × ((r.text ≡ w.messages) ⊎ ((w.messages ≡ []) × (r.text ≡ w.deltas)))))
unfolding turn_outcome
turn_outcome_ok w turn warnings h = ground arith
