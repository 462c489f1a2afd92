-- ===== src/AppServer/Notification.antt =====
-- The notifications of internal/appserver/wire.go that a turn's watcher reads. Decoding is
-- encoding/json's: a message whose parameters do not decode carries `none`.
use counterpoint.Prelude.{Bool, List, Option}
use counterpoint.Prelude.Int.{ℤ}
use counterpoint.Prelude.Text.{Bytes}
use counterpoint.AppServer.Usage.{WireUsage}

-- codexErrorInfo: absent or null, a bare code, an object whose variants may carry an HTTP status (in
-- the order in which Go's map iteration meets them), or anything else.
pub data ErrorInfo : Type 0 where
  absent unrecognized : ErrorInfo
  bare : Bytes → ErrorInfo
  variants : List (Bytes × Option ℤ) → ErrorInfo

pub record TurnError : Type 0 where
  pub message : Bytes
  pub info : ErrorInfo

pub data ItemType : Type 0 where
  exited_review_mode agent_message other_item : ItemType

pub record ThreadItem : Type 0 where
  pub type : ItemType
  pub text : Bytes
  pub review : Bytes

pub data Status : Type 0 where
  completed failed interrupted : Status
  other_status : Bytes → Status

pub record TurnNotification : Type 0 where
  pub thread_id : Bytes
  pub turn_id : Bytes
  pub status : Status
  pub error : Option TurnError
  pub items : List ThreadItem

pub record Delta : Type 0 where
  pub thread_id : Bytes
  pub turn_id : Bytes
  pub delta : Bytes

pub record ItemNotification : Type 0 where
  pub thread_id : Bytes
  pub turn_id : Bytes
  pub item : ThreadItem

pub record UsageNotification : Type 0 where
  pub thread_id : Bytes
  pub turn_id : Bytes
  pub usage : Option WireUsage

pub record ErrorNotification : Type 0 where
  pub thread_id : Bytes
  pub turn_id : Bytes
  pub error : TurnError
  pub will_retry : Bool

pub data Message : Type 0 where
  turn_started : Option TurnNotification → Message
  agent_message_delta : Option Delta → Message
  item_completed : Option ItemNotification → Message
  token_usage : Option UsageNotification → Message
  error : Option ErrorNotification → Message
  turn_completed : Option TurnNotification → Message
  other_method : Message
