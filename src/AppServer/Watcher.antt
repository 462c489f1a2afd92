-- ===== src/AppServer/Watcher.antt =====
-- turnWatcher of internal/appserver/client.go: what one turn's notifications add up to. The reader
-- goroutine handles one message at a time under the mutex, so a run is a sequence of messages.
pub mod Invariant
pub mod Verdict
pub mod Messages
use counterpoint.Prelude.{
  ℕ, suc, ◌+◌, Bool, true, false, not, ◌&&◌, ◌||◌, List, [], ◌∷◌, ◌++◌, Option, none, some, length,
  is_empty, ltb, if◌then◌else◌,
}
use counterpoint.Prelude.Text.{Bytes, codes, eq_text}
use counterpoint.State.Record.{Usage}
use counterpoint.AppServer.Usage.{valid, resolve_usage}
use counterpoint.AppServer.Notification.{
  TurnError, ItemType, exited_review_mode, agent_message, other_item, ThreadItem, Status,
  other_status, TurnNotification, Delta, ItemNotification, UsageNotification, ErrorNotification,
  Message, turn_started, agent_message_delta, item_completed, token_usage, error, turn_completed,
}

-- 16 << 20
abbrev pub max_collected_text : ℕ
max_collected_text = 16777216

abbrev pub max_unattributed_usage : ℕ
max_unattributed_usage = 4

pub record Watcher : Type 0 where
  pub thread_id : Bytes
  pub turn_id : Bytes
  pub review : Bytes
  pub messages : Bytes
  pub deltas : Bytes
  pub overflow : Bool
  pub status : Status
  pub turn_err : Option TurnError
  pub last_err : Option TurnError
  pub usage : Option Usage
  pub usage_seen : ℕ
  pub bad_usage : ℕ
  pub unattributed : ℕ
  pub unattributed_usage : List Bytes
  pub finished : Bool
  -- how often `done` has been closed; a second time would panic
  pub closes : ℕ

unfoldable pub new_turn_watcher : Bytes → Watcher
new_turn_watcher thread = record {
  thread_id = thread;
  turn_id = [];
  review = [];
  messages = [];
  deltas = [];
  overflow = false;
  status = other_status [];
  turn_err = none;
  last_err = none;
  usage = none;
  usage_seen = 0;
  bad_usage = 0;
  unattributed = 0;
  unattributed_usage = [];
  finished = false;
  closes = 0;
}

-- setTurn: whether the id agrees with an earlier turn/started.
unfoldable pub set_turn : Watcher → Bytes → Watcher × Bool
set_turn w id =
    if is_empty w.turn_id then (record w { turn_id = id }, true) else (w, eq_text w.turn_id id)

unfoldable pub matches : Watcher → Bytes → Bytes → Bool
matches w thread turn =
    not (is_empty w.turn_id)
    && (eq_text thread w.thread_id && (not (is_empty turn) && eq_text turn w.turn_id))

-- `append` on one builder: its text and the overflow mark.
unfoldable pub append : Bool → Bytes → Bytes → Bytes × Bool
append true b s = (b, true)
append false b s =
    if ltb max_collected_text (length b + length s) then (b, true) else (b ++ s, false)

append_messages : Watcher → Bytes → Watcher
unfolding append
append_messages w s =
    let (b, over) = append w.overflow w.messages s in record w { messages = b; overflow = over }

append_deltas : Watcher → Bytes → Watcher
unfolding append
append_deltas w s =
    let (b, over) = append w.overflow w.deltas s in record w { deltas = b; overflow = over }

on_turn_started : Watcher → TurnNotification → Watcher
on_turn_started w n =
    if eq_text n.thread_id w.thread_id && (is_empty w.turn_id && not (is_empty n.turn_id))
    then record w { turn_id = n.turn_id }
    else w

on_delta : Watcher → Delta → Watcher
unfolding append_deltas matches
on_delta w n = if matches w n.thread_id n.turn_id then append_deltas w n.delta else w

abbrev separator : Bytes
separator = codes "\n\n"

on_item : Watcher → ItemType → ThreadItem → Watcher
unfolding append_messages
on_item w exited_review_mode item = record w { review = item.review }
on_item w agent_message item =
    let w' = if is_empty w.messages then w else append_messages w separator in
    append_messages w' item.text
on_item w other_item item = w

on_item_completed : Watcher → ItemNotification → Watcher
unfolding on_item matches
on_item_completed w n = if matches w n.thread_id n.turn_id then on_item w n.item.type n.item else w

-- n.ThreadID + "/" + n.TurnID, sampled up to the bound
sample : List Bytes → Bytes → Bytes → List Bytes
sample xs thread turn =
    if ltb (length xs) max_unattributed_usage
    then xs ++ ((thread ++ (codes "/" ++ turn)) ∷ [])
    else xs

on_usage : Watcher → UsageNotification → Watcher
unfolding sample matches
on_usage w n =
    if is_empty n.thread_id || is_empty n.turn_id
    then record w { bad_usage = w.bad_usage + 1 }
    else if not (matches w n.thread_id n.turn_id)
    then record w {
      unattributed = w.unattributed + 1;
      unattributed_usage = sample w.unattributed_usage n.thread_id n.turn_id;
    }
    else if not (valid n.usage)
    then record w { bad_usage = w.bad_usage + 1 }
    else record w { usage = some (resolve_usage n.usage) }

on_token_usage : Watcher → Option UsageNotification → Watcher
unfolding on_usage
on_token_usage w none = record w { usage_seen = w.usage_seen + 1; bad_usage = w.bad_usage + 1 }
on_token_usage w (some n) = on_usage (record w { usage_seen = w.usage_seen + 1 }) n

on_error : Watcher → ErrorNotification → Watcher
unfolding matches
on_error w n =
    if matches w n.thread_id n.turn_id && not n.will_retry
    then record w { last_err = some n.error }
    else w

-- The loop over the completed turn's items: the last review among them stands.
unfoldable pub review_of_items : Bytes → List ThreadItem → Bytes
review_of_items review [] = review
review_of_items review (item ∷ items) =
    review_of_items
      (elim item.type [
        | exited_review_mode ↦ if is_empty item.review then review else item.review
        | _ ↦ review
      ])
      items

on_turn_completed : Watcher → TurnNotification → Watcher
unfolding matches
on_turn_completed w n =
    if matches w n.thread_id n.turn_id
    then record w {
      status = n.status;
      turn_err = n.error;
      review = if is_empty w.review then review_of_items w.review n.items else w.review;
      finished = true;
      closes = suc w.closes;
    }
    else w

-- The `switch` on the method, with parameters that decode.
dispatch : Watcher → Message → Watcher
unfolding on_turn_started on_delta on_item_completed on_token_usage on_error on_turn_completed
dispatch w (turn_started (some n)) = on_turn_started w n
dispatch w (agent_message_delta (some n)) = on_delta w n
dispatch w (item_completed (some n)) = on_item_completed w n
dispatch w (token_usage n) = on_token_usage w n
dispatch w (error (some n)) = on_error w n
dispatch w (turn_completed (some n)) = on_turn_completed w n
dispatch w _ = w

abbrev is_usage : Message → Bool
is_usage (token_usage _) = true
is_usage _ = false

unfoldable pub handle : Watcher → Message → Watcher
unfolding dispatch
handle w m = if w.finished && not (is_usage m) then w else dispatch w m

unfoldable pub run : Watcher → List Message → Watcher
run w [] = w
run w (m ∷ ms) = run (handle w m) ms
