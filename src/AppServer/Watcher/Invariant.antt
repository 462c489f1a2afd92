-- ===== src/AppServer/Watcher/Invariant.antt =====
-- What holds of a turn's watcher whatever the app-server sends.
use counterpoint.Prelude.{
  ◌+◌, ◌≤◌, ◌≡◌, Bool, true, false, List, [], ◌∷◌, ◌++◌, none, some, length, length-append, arith,
  not, ◌&&◌, Bool-cases, inl, inr, if◌then◌else◌,
}
use counterpoint.Prelude.Text.{Bytes, codes}
use counterpoint.State.History.{invalid}
use counterpoint.AppServer.Usage.{invalid-resolve_usage}
use counterpoint.AppServer.Notification.{
  Message, turn_started, agent_message_delta, item_completed, token_usage, error, turn_completed,
  other_method, UsageNotification, ItemType, agent_message, exited_review_mode, other_item,
  ThreadItem,
}
use counterpoint.AppServer.Watcher.{
  Watcher, new_turn_watcher, append, handle, run, max_collected_text, max_unattributed_usage,
  append_messages, append_deltas, separator, dispatch, on_item, on_usage, is_usage, set_turn,
}

pub record IsSound (w : Watcher) : Type 0 where
  -- `done` is closed once, when the turn finishes, and never again
  pub closed_once : w.closes ≡ (if w.finished then 1 else 0)
  pub messages_bounded : length w.messages ≤ max_collected_text
  pub deltas_bounded : length w.deltas ≤ max_collected_text
  pub sample_bounded : length w.unattributed_usage ≤ max_unattributed_usage
  pub sample_counted : length w.unattributed_usage ≤ w.unattributed
  pub reports_counted : w.bad_usage + w.unattributed ≤ w.usage_seen
  pub usage_ok : invalid w.usage ≡ none

append_bounded :
    (over : Bool) (b s : Bytes)
    → length b ≤ max_collected_text
    → length (append over b s).0 ≤ max_collected_text
unfolding append
append_bounded true b s h = h
append_bounded false b s h = ground (arith, length-append b s)

append_messages-IsSound : (w : Watcher) (s : Bytes) → IsSound w → IsSound (append_messages w s)
unfolding append_messages
append_messages-IsSound w s v = ground (arith, length-append w.messages s)

append_deltas-IsSound : (w : Watcher) (s : Bytes) → IsSound w → IsSound (append_deltas w s)
unfolding append_deltas
append_deltas-IsSound w s v = ground (arith, length-append w.deltas s)

if-IsSound : (b : Bool) (w u : Watcher) → IsSound w → IsSound u → IsSound (if b then w else u)
if-IsSound true w u v v' = v
if-IsSound false w u v v' = v'

on_item-IsSound :
    (w : Watcher) (type : ItemType) (item : ThreadItem) → IsSound w → IsSound (on_item w type item)
unfolding on_item
on_item-IsSound w exited_review_mode item v = ground arith
on_item-IsSound w agent_message item v =
    append_messages-IsSound _ item.text (if-IsSound _ w _ v (append_messages-IsSound w separator v))
on_item-IsSound w other_item item v = v

on_usage-IsSound :
    (w : Watcher) (n : UsageNotification)
    → IsSound w
    → IsSound (on_usage (record w { usage_seen = w.usage_seen + 1 }) n)
unfolding on_usage
on_usage-IsSound w n v = ground (
  arith,
  invalid-resolve_usage n.usage,
  length-append w.unattributed_usage ((n.thread_id ++ (codes "/" ++ n.turn_id)) ∷ []),
)

-- Terminal state takes no further message but a usage report.
dispatch-IsSound :
    (w : Watcher) (m : Message)
    → w.finished && not (is_usage m) ≡ false
    → IsSound w
    → IsSound (dispatch w m)
unfolding dispatch
dispatch-IsSound w (turn_started (some n)) h v = ground arith
dispatch-IsSound w (agent_message_delta (some n)) h v =
    if-IsSound _ _ w (append_deltas-IsSound w n.delta v) v
dispatch-IsSound w (item_completed (some n)) h v =
    if-IsSound _ _ w (on_item-IsSound w n.item.type n.item v) v
dispatch-IsSound w (token_usage none) h v = ground arith
dispatch-IsSound w (token_usage (some n)) h v = on_usage-IsSound w n v
dispatch-IsSound w (error (some n)) h v = ground arith
dispatch-IsSound w (turn_completed (some n)) h v = ground arith
dispatch-IsSound w (turn_started none) h v = v
dispatch-IsSound w (agent_message_delta none) h v = v
dispatch-IsSound w (item_completed none) h v = v
dispatch-IsSound w (error none) h v = v
dispatch-IsSound w (turn_completed none) h v = v
dispatch-IsSound w other_method h v = v

handle-IsSound : (w : Watcher) (m : Message) → IsSound w → IsSound (handle w m)
unfolding handle
handle-IsSound w m v = elim (Bool-cases (w.finished && not (is_usage m))) [
  | inl late ↦ rw late v
  | inr h ↦ rw h (dispatch-IsSound w m h v)
]

run-IsSound : (w : Watcher) (ms : List Message) → IsSound w → IsSound (run w ms)
unfolding run
run-IsSound w [] v = v
run-IsSound w (m ∷ ms) v = run-IsSound (handle w m) ms (handle-IsSound w m v)

new-IsSound : (thread : Bytes) → IsSound (new_turn_watcher thread)
unfolding new_turn_watcher invalid
new-IsSound thread = ground arith

set_turn-IsSound : (w : Watcher) (id : Bytes) → IsSound w → IsSound (set_turn w id).0
unfolding set_turn
set_turn-IsSound w id v = ground arith

-- After any messages at all, before and after the turn id is set from the response: `done` has been
-- closed once if the turn has finished and never otherwise, the collected texts are within their
-- bound, the sample of foreign reports is within its bound and no larger than their count, every
-- refused or foreign report is among those seen, and the usage kept is one that the state file takes.
pub run-new-IsSound :
    (thread id : Bytes) (before after : List Message)
    → IsSound (run (set_turn (run (new_turn_watcher thread) before) id).0 after)
run-new-IsSound thread id before after =
    run-IsSound _ after (set_turn-IsSound _ id (run-IsSound _ before (new-IsSound thread)))
