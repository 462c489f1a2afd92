-- ===== src/AppServer/Conn/Steps.antt =====
-- internal/appserver/conn.go: the steps of the reader, the writer and the calls, and their
-- interleavings.
use counterpoint.Prelude.{
  ℕ, Bool, true, false, not, ◌||◌, List, [], ◌∷◌, Option, none, some, if◌then◌else◌, Result, ok,
  err,
}
use counterpoint.Prelude.Text.{Bytes}
use counterpoint.AppServer.Conn.{
  Codec, ConnError, process_exited, write_failed, Channel, closed_channel, Entry, Reader, reading,
  failing, reaping, reaped, Conn, Fault, closed_twice, update, first_reason, terminate, subscribe,
  unsubscribe,
}
use counterpoint.AppServer.Conn.Dispatch.{read_line}
use counterpoint.AppServer.Conn.Calls.{register, prepare, Case, send, await, leave}

is_exit : ConnError → Bool
is_exit process_exited = true
is_exit _ = false

-- The end of the stream: the reason is recorded and the pending calls are taken.
unfoldable pub end_reading : ConnError → Conn → Conn
end_reading e c = record c {
  exit_err = first_reason c.exit_err e;
  pending = [];
  reader = failing e c.pending;
}

close_channel : Channel → Result Fault Channel
close_channel closed_channel = err closed_twice
close_channel _ = ok closed_channel

fail_call : ConnError → Entry → List Entry → Result Fault Channel → Conn → Result Fault Conn
fail_call e x xs (err f) c = err f
fail_call e x xs (ok ch) c =
    ok (record c { channels = update c.channels x.channel ch; reader = failing e xs })

-- The next close of shutdown; with no call left, the end of shutdown and the kill of a child that
-- has not exited.
unfoldable pub shutdown : ConnError → List Entry → Conn → Result Fault Conn
unfolding close_channel fail_call is_exit
shutdown e [] c =
    if c.closed
    then err closed_twice
    else ok (record c {
      closed = true;
      stopped = true;
      killed = c.killed || not (is_exit e);
      reader = reaping;
    })
shutdown e (x ∷ xs) c = fail_call e x xs (close_channel (c.channels x.channel)) c

pub data Action : Type 0 where
  -- the reader
  line_read : Bytes → Action
  stream_ended : ConnError → Action
  shut_down process_reaped : Action
  -- the writer; `true` when the write succeeds
  written : Bool → Action
  writer_stopped : Action
  -- a call
  call_registered : Action
  call_prepared : ℕ → Bytes → Bytes → Action
  call_sent : ℕ → Case → Action
  call_awaited : ℕ → Bool → Case → Action
  call_left : ℕ → Action
  -- the client
  subscribed : Action
  unsubscribed : ℕ → Action
  terminated : ConnError → Action
  closing kill_after_grace : Action

unfoldable pub write : List Bytes → Bool → Conn → Option Conn
write [] done c = none
write (line ∷ lines) done c =
    if c.writer_done
    then none
    else if done
    then some (record c { outbox = lines })
    else some (record (terminate write_failed c) { outbox = lines; writer_done = true })

unfoldable pub at_reader : Reader → Result Fault Conn → Option (Result Fault Conn)
at_reader reading r = some r
at_reader _ r = none

-- A step that moves no channel of the reader's.
unfoldable pub sure : Option Conn → Option (Result Fault Conn)
sure none = none
sure (some c) = some (ok c)

-- One step; `none` when it is not enabled.
unfoldable pub step : Codec → Action → Conn → Option (Result Fault Conn)
unfolding write at_reader sure
step k (line_read line) c = at_reader c.reader (read_line k line c)
step k (stream_ended e) c = at_reader c.reader (ok (end_reading e c))
step k shut_down c = elim c.reader [ failing e xs ↦ some (shutdown e xs c) | _ ↦ none ]
step k process_reaped c = elim c.reader [
  | reaping ↦ some (ok (record c { reader = reaped }))
  | _ ↦ none
]
step k (written done) c = sure (write c.outbox done c)
step k writer_stopped c = if c.stopped then some (ok (record c { writer_done = true })) else none
step k call_registered c = some (ok (register c))
step k (call_prepared n method params) c = sure (prepare k n method params c)
step k (call_sent n which) c = sure (send n which c)
step k (call_awaited n wanted which) c = sure (await k n wanted which c)
step k (call_left n) c = sure (leave n c)
step k subscribed c = some (ok (subscribe c).1)
step k (unsubscribed h) c = some (ok (unsubscribe h c))
step k (terminated e) c = some (ok (terminate e c))
step k closing c = some (ok (record c { stopped = true }))
step k kill_after_grace c = some (ok (record c { killed = true }))

unfoldable pub run_on :
    (Conn → Result Fault Conn) → Option (Result Fault Conn) → Conn → Result Fault Conn
run_on rest none c = rest c
run_on rest (some (err f)) c = err f
run_on rest (some (ok c')) c = rest c'

-- An interleaving; a step that is not enabled is passed over.
unfoldable pub run : Codec → List Action → Conn → Result Fault Conn
unfolding run_on
run k [] c = ok c
run k (a ∷ later) c = run_on (run k later) (step k a c) c
