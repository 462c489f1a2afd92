-- ===== src/AppServer/Conn.antt =====
-- The connection of internal/appserver/conn.go: its state, the messages, the queue to the writer and
-- the ways it ends. The codec of JSON is an argument.
pub mod Dispatch
pub mod Calls
pub mod Steps
pub mod Table
pub mod Sound
pub mod Wake
pub mod Bounds
pub mod Declined
use counterpoint.Prelude.{
  ℕ, suc, ◌+◌, Bool, true, false, not, ◌&&◌, ◌||◌, List, [], ◌∷◌, ◌++◌, Option, none, some, length,
  ltb, leb, ◌==◌, if◌then◌else◌, Result, ok, err,
}
use counterpoint.Prelude.Int.{ℤ, pos, eqb_ℤ}
use counterpoint.Prelude.Text.{Bytes}
use counterpoint.AppServer.Warnings.{Warnings, no_warnings}

abbrev pub max_message_size : ℕ
max_message_size = 16777216

abbrev pub outbox_size : ℕ
outbox_size = 64

-- A JSON-RPC error object; its code is an integer.
pub record ServerError : Type 0 where
  pub code : ℤ
  pub message : Bytes

-- A decoded line. An absent field is empty; `id`, `params` and `result` are the raw JSON.
pub record Envelope : Type 0 where
  pub id : Bytes
  pub method : Bytes
  pub params : Bytes
  pub result : Bytes
  pub error : Option ServerError

-- What is returned to a server-originated request.
pub data Answer : Type 0 where
  declined no_permissions no_answers : Answer
  denied : Bytes → Answer

-- A message that is encoded for the child. `params` of a request are the caller's.
pub data Outgoing : Type 0 where
  request : ℤ → Bytes → Bytes → Outgoing
  reply : Bytes → Answer → Outgoing
  refusal : Bytes → ServerError → Outgoing

-- encoding/json: a line as a message, a raw id as an int64, a result that the caller's type takes,
-- the item and the turn of a request's parameters, and an outgoing message as its bytes.
pub record Codec : Type 0 where
  pub decode : Bytes → Option Envelope
  pub int_of : Bytes → Option ℤ
  pub fits : Bytes → Bool
  pub item_and_turn : Bytes → Bytes × Bytes
  pub marshal : Outgoing → Option Bytes

-- The errors that end a connection or a send.
pub data ConnError : Type 0 where
  process_exited message_too_large client_closed write_backlog : ConnError
  encode_failed write_failed read_failed : ConnError

-- A reply channel, made with room for one message.
pub data Channel : Type 0 where
  unmade empty closed_channel : Channel
  holding : Envelope → Channel

-- An entry of `pending`: the id of a call and its reply channel.
pub record Entry : Type 0 where
  pub id : ℤ
  pub channel : ℕ

pub data CallError : Type 0 where
  sending : ConnError → CallError
  connection : ConnError → CallError
  server : ServerError → CallError
  undecodable context_ended : CallError

-- Where the goroutine of a call stands. It returns the result it decoded, if it wanted one.
pub data Phase : Type 0 where
  unborn : Phase
  -- its channel is registered, its message not yet encoded
  registered : Phase
  -- the message is encoded and the connection was found open
  queueing : Bytes → Phase
  waiting : Phase
  -- it has failed and its entry is still to be deleted
  leaving : CallError → Phase
  returned : Result CallError (Option Bytes) → Phase

-- Where the reader stands. While it fails the pending calls it owns the map it took.
pub data Reader : Type 0 where
  reading : Reader
  failing : ConnError → List Entry → Reader
  reaping reaped : Reader

-- The connection, its reply channels and the goroutines of its calls. Calls and channels have the
-- number of the call; the id of call n is n as an int64.
pub record Conn : Type 0 where
  pub next_id : ℕ
  pub pending : List Entry
  pub channels : ℕ → Channel
  pub calls : ℕ → Phase
  pub handlers : List ℕ
  pub next_handler : ℕ
  pub heard : List (ℕ × Envelope)
  pub warnings : Warnings
  pub exit_err : Option ConnError
  pub outbox : List Bytes
  pub reader : Reader
  pub closed : Bool
  pub stopped : Bool
  pub writer_done : Bool
  pub killed : Bool

abbrev pub spawn : Conn
spawn = record {
  next_id = 0;
  pending = [];
  channels = λ _. unmade;
  calls = λ _. unborn;
  handlers = [];
  next_handler = 0;
  heard = [];
  warnings = no_warnings;
  exit_err = none;
  outbox = [];
  reader = reading;
  closed = false;
  stopped = false;
  writer_done = false;
  killed = false;
}

-- What a goroutine must not do: send on a full or closed channel from the reader, or close a channel
-- twice.
pub data Fault : Type 0 where
  reader_blocked send_on_closed closed_twice : Fault

abbrev pub update {ℓ} : {A : Type ℓ} → (ℕ → A) → ℕ → A → ℕ → A
update f a x b = if b == a then x else f b

-- pending[id]
unfoldable pub lookup : ℤ → List Entry → Option ℕ
lookup id [] = none
lookup id (e ∷ es) = if eqb_ℤ e.id id then some e.channel else lookup id es

-- delete(pending, id)
unfoldable pub delete : ℤ → List Entry → List Entry
delete id [] = []
delete id (e ∷ es) = let rest = delete id es in if eqb_ℤ e.id id then rest else e ∷ rest

-- The error that is recorded first stays.
unfoldable pub first_reason : Option ConnError → ConnError → Option ConnError
first_reason none e = some e
first_reason (some r) e = some r

unfoldable pub terminate : ConnError → Conn → Conn
terminate e c = record c { exit_err = first_reason c.exit_err e; stopped = true; killed = true }

unfoldable pub closed_err : Conn → ConnError
closed_err c = elim c.exit_err [ none ↦ client_closed | some e ↦ e ]

encoded : Option Bytes → Result ConnError Bytes
encoded none = err encode_failed
encoded (some data_) =
    if ltb max_message_size (length data_ + 1)
    then err message_too_large
    else ok (data_ ++ (b'\n' ∷ []))

unfoldable pub encode_line : Codec → Outgoing → Result ConnError Bytes
unfolding encoded
encode_line k msg = encoded (k.marshal msg)

send_encoded : Result ConnError Bytes → Conn → Conn
unfolding terminate
send_encoded (err e) c = terminate e c
send_encoded (ok line) c =
    if ltb (length c.outbox) outbox_size
    then record c { outbox = c.outbox ++ (line ∷ []) }
    else terminate write_backlog c

unfoldable pub send_from_reader : Codec → Outgoing → Conn → Conn
unfolding send_encoded
send_from_reader k msg c = send_encoded (encode_line k msg) c

-- subscribe: the id of the handler, and its remover.
unfoldable pub subscribe : Conn → ℕ × Conn
subscribe c =
    let id = suc c.next_handler in
    (id, record c { next_handler = id; handlers = c.handlers ++ (id ∷ []) })

remove : ℕ → List ℕ → List ℕ
remove id [] = []
remove id (h ∷ hs) = let rest = remove id hs in if h == id then rest else h ∷ rest

unfoldable pub unsubscribe : ℕ → Conn → Conn
unfolding remove
unsubscribe id c = record c { handlers = remove id c.handlers }
