-- ===== src/AppServer/Conn/Calls.antt =====
-- internal/appserver/conn.go: `call` and the parts of `send` it goes through, as steps of the call's
-- goroutine. Which ready case a select takes is an argument; a step that is not enabled is `none`.
use counterpoint.Prelude.{
  ℕ, suc, Bool, not, ◌&&◌, ◌||◌, [], ◌∷◌, ◌++◌, Option, none, some, length, is_empty, ltb,
  if◌then◌else◌, Result, ok, err,
}
use counterpoint.Prelude.Int.{ℤ, pos, wrap64}
use counterpoint.Prelude.Text.{Bytes}
use counterpoint.AppServer.Conn.{
  Envelope, request, Codec, ConnError, Channel, unmade, empty, closed_channel, holding, CallError,
  sending, connection, server, undecodable, context_ended, Phase, registered, queueing, waiting,
  leaving, returned, Conn, update, delete, encode_line, closed_err, outbox_size,
}

-- nextID.Add(1) as an int64, at call n.
abbrev pub id_of : ℕ → ℤ
id_of n = wrap64 (pos n)

abbrev pub set_phase : ℕ → Phase → Conn → Conn
set_phase n p c = record c { calls = update c.calls n p }

-- The id, the channel and the entry; a call that has the id of an older one replaces its entry.
unfoldable pub register : Conn → Conn
register c =
    let n = suc c.next_id in
    record c {
      next_id = n;
      pending = record { id = id_of n; channel = n } ∷ delete (id_of n) c.pending;
      channels = update c.channels n empty;
      calls = update c.calls n registered;
    }

unfoldable pub prepared : ℕ → Result ConnError Bytes → Conn → Conn
prepared n (err e) c = set_phase n (leaving (sending e)) c
prepared n (ok line) c =
    if c.closed || c.writer_done
    then set_phase n (leaving (sending (closed_err c))) c
    else set_phase n (queueing line) c

-- send, up to its first select.
unfoldable pub prepare : Codec → ℕ → Bytes → Bytes → Conn → Option Conn
unfolding prepared
prepare k n method params c = elim (c.calls n) [
  | registered ↦ some (prepared n (encode_line k (request (id_of n) method params)) c)
  | _ ↦ none
]

-- The cases of send's second select, and of the select in call.
pub data Case : Type 0 where
  message_case context_case closed_case : Case

unfoldable pub enqueue : ℕ → Bytes → Case → Conn → Option Conn
enqueue n line message_case c =
    if ltb (length c.outbox) outbox_size
    then some (set_phase n waiting (record c { outbox = c.outbox ++ (line ∷ []) }))
    else none
enqueue n line context_case c = some (set_phase n (leaving context_ended) c)
enqueue n line closed_case c =
    if c.closed || c.writer_done
    then some (set_phase n (leaving (sending (closed_err c))) c)
    else none

-- send's second select.
unfoldable pub send : ℕ → Case → Conn → Option Conn
unfolding enqueue
send n which c = elim (c.calls n) [ queueing line ↦ enqueue n line which c | _ ↦ none ]

-- The message that a call received: `wanted` when the caller wants the result.
unfoldable pub outcome_of : Codec → Bool → Envelope → Result CallError (Option Bytes)
outcome_of k wanted env = elim env.error [
  | some e ↦ err (server e)
  | none ↦
      if wanted && not (is_empty env.result)
      then (if k.fits env.result then ok (some env.result) else err undecodable)
      else ok none
]

unfoldable pub received : Codec → ℕ → Bool → Channel → Conn → Option Conn
received k n wanted unmade c = none
received k n wanted empty c = none
received k n wanted (holding env) c = some (
    set_phase n (returned (outcome_of k wanted env))
      (record c { channels = update c.channels n empty }))
received k n wanted closed_channel c =
    some (set_phase n (returned (err (connection (closed_err c)))) c)

unfoldable pub awaited : Codec → ℕ → Bool → Case → Conn → Option Conn
unfolding received
awaited k n wanted message_case c = received k n wanted (c.channels n) c
awaited k n wanted context_case c = some (set_phase n (leaving context_ended) c)
awaited k n wanted closed_case c =
    if c.closed then some (set_phase n (returned (err (connection (closed_err c)))) c) else none

-- call's select.
unfoldable pub await : Codec → ℕ → Bool → Case → Conn → Option Conn
unfolding awaited
await k n wanted which c = elim (c.calls n) [ waiting ↦ awaited k n wanted which c | _ ↦ none ]

-- delete(c.pending, id), on the way out of a failed call.
unfoldable pub leave : ℕ → Conn → Option Conn
leave n c = elim (c.calls n) [
  | leaving e ↦
      some (set_phase n (returned (err e)) (record c { pending = delete (id_of n) c.pending }))
  | _ ↦ none
]
