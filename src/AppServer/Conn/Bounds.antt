-- ===== src/AppServer/Conn/Bounds.antt =====
-- internal/appserver/conn.go: the bounds of the queue to the writer and of the warnings, in every
-- interleaving.
use counterpoint.Prelude.{
  ℕ, ◌≤◌, ◌≡◌, subst, Bool, List, [], ◌∷◌, Option, none, some, arith, Result, ok, err, length,
  length-append,
}
use counterpoint.Prelude.Int.{ℤ}
use counterpoint.Prelude.Text.{Bytes}
use counterpoint.AppServer.Warnings.{IsBounded, record_warning-IsBounded, total_bytes}
use counterpoint.AppServer.Conn.Sound.Run.{run-spawn-IsSound}
use counterpoint.AppServer.Conn.{
  Phase, unborn, registered, queueing, waiting, leaving, returned, Envelope, spawn, subscribe,
  unsubscribe, send_from_reader, send_encoded, Conn, Codec, ConnError, terminate, Fault,
  outbox_size, encode_line,
}
use counterpoint.AppServer.Conn.Dispatch.{
  read_line, dispatch, handle_response, handle_server_request, notify_handlers, add_warning,
  reply_to, warning_for,
}
use counterpoint.AppServer.Conn.Steps.{
  Action, line_read, stream_ended, shut_down, process_reaped, written, writer_stopped,
  call_registered, call_prepared, call_sent, call_awaited, call_left, subscribed, unsubscribed,
  terminated, closing, kill_after_grace, end_reading, shutdown, step, run, sure, at_reader, write,
  run_on,
}
use counterpoint.AppServer.Conn.Calls.{
  register, prepare, send, await, leave, Case, prepared, awaited, received, enqueue,
}

pub record IsWithin (c : Conn) : Type 0 where
  pub queue : length c.outbox ≤ outbox_size
  pub warned : IsBounded c.warnings

abbrev WithinStep : Conn → Option (Result Fault Conn) → Type 0
WithinStep c none = IsWithin c
WithinStep c (some (ok c')) = IsWithin c'
WithinStep c (some (err f)) = Unit

abbrev WithinMove : Conn → Option Conn → Type 0
WithinMove c none = Unit
WithinMove c (some c') = IsWithin c'

abbrev WithinResult : Result Fault Conn → Type 0
WithinResult (err f) = Unit
WithinResult (ok c') = IsWithin c'

module _ (k : Codec) (c : Conn) (v : IsWithin c) where
  prepare-IsWithin : (n : ℕ) (m p : Bytes) → WithinMove c (prepare k n m p c)
  unfolding prepare prepared
  prepare-IsWithin n m p = ground arith

  enqueue-IsWithin : (n : ℕ) (line : Bytes) (which : Case) → WithinMove c (enqueue n line which c)
  unfolding enqueue
  enqueue-IsWithin n line which = ground (arith, length-append c.outbox (line ∷ []))

  at_queueing :
      (n : ℕ) (which : Case) (p : Phase)
      → WithinMove c (elim p [ queueing line ↦ enqueue n line which c | _ ↦ none ])
  at_queueing n which (queueing line) = enqueue-IsWithin n line which
  at_queueing n which unborn = tt
  at_queueing n which registered = tt
  at_queueing n which waiting = tt
  at_queueing n which (leaving e) = tt
  at_queueing n which (returned r) = tt

  send-IsWithin : (n : ℕ) (which : Case) → WithinMove c (send n which c)
  unfolding send
  send-IsWithin n which = at_queueing n which (c.calls n)

  await-IsWithin : (n : ℕ) (w : Bool) (which : Case) → WithinMove c (await k n w which c)
  unfolding await awaited received
  await-IsWithin n w which = ground arith

  leave-IsWithin : (n : ℕ) → WithinMove c (leave n c)
  unfolding leave
  leave-IsWithin n = ground arith

  send_encoded-IsWithin : (r : Result ConnError Bytes) → IsWithin (send_encoded r c)
  unfolding send_encoded terminate
  send_encoded-IsWithin (err e) = ground arith
  send_encoded-IsWithin (ok line) = ground (arith, length-append c.outbox (line ∷ []))

  handle_response-IsWithin :
      (o : Option ℤ) (env : Envelope) → WithinResult (handle_response o env c)
  unfolding handle_response
  handle_response-IsWithin o env = ground arith

add_warning-IsWithin : (w : Bytes) (c : Conn) → IsWithin c → IsWithin (add_warning w c)
unfolding add_warning
add_warning-IsWithin w c v = record {
  queue = v.queue;
  warned = record_warning-IsBounded c.warnings w v.warned;
}

handle_server_request-IsWithin :
    (k : Codec) (env : Envelope) (c : Conn) → IsWithin c → IsWithin (handle_server_request k env c)
unfolding handle_server_request send_from_reader
handle_server_request-IsWithin k env c v =
    send_encoded-IsWithin k (add_warning (warning_for k env) c)
      (add_warning-IsWithin (warning_for k env) c v) (encode_line k (reply_to env))

dispatch-IsWithin :
    (k : Codec) (env : Envelope) (c : Conn) → IsWithin c → WithinResult (dispatch k env c)
unfolding dispatch notify_handlers
dispatch-IsWithin k env c v = ground (
  arith,
  handle_server_request-IsWithin k env c v,
  handle_response-IsWithin k c v (k.int_of env.id) env,
)

decoded-IsWithin :
    (k : Codec) (o : Option Envelope) (c : Conn)
    → IsWithin c
    → WithinResult (elim o [ none ↦ ok c | some env ↦ dispatch k env c ])
decoded-IsWithin k none c v = v
decoded-IsWithin k (some env) c v = dispatch-IsWithin k env c v

line_read-IsWithin :
    (k : Codec) (line : Bytes) (c : Conn)
    → IsWithin c
    → WithinStep c (at_reader c.reader (read_line k line c))
unfolding at_reader read_line
line_read-IsWithin k line c v = ground (arith, decoded-IsWithin k (k.decode line) c v)

step-IsWithin : (k : Codec) (a : Action) (c : Conn) → IsWithin c → WithinStep c (step k a c)
unfolding step
step-IsWithin k (line_read line) c v = line_read-IsWithin k line c v
step-IsWithin k (stream_ended e) c v = unfold at_reader end_reading in ground arith
step-IsWithin k shut_down c v = unfold shutdown in ground arith
step-IsWithin k process_reaped c v = ground arith
step-IsWithin k (written done) c v = unfold sure write terminate in ground arith
step-IsWithin k writer_stopped c v = ground arith
step-IsWithin k call_registered c v = unfold register in ground arith
step-IsWithin k (call_prepared n method params) c v =
    unfold sure in ground (arith, prepare-IsWithin k c v n method params)
step-IsWithin k (call_sent n which) c v = unfold sure in ground (arith, send-IsWithin k c v n which)
step-IsWithin k (call_awaited n wanted which) c v =
    unfold sure in ground (arith, await-IsWithin k c v n wanted which)
step-IsWithin k (call_left n) c v = unfold sure in ground (arith, leave-IsWithin k c v n)
step-IsWithin k subscribed c v = unfold subscribe in ground arith
step-IsWithin k (unsubscribed h) c v = unfold unsubscribe in ground arith
step-IsWithin k (terminated e) c v = unfold terminate in ground arith
step-IsWithin k closing c v = ground arith
step-IsWithin k kill_after_grace c v = ground arith

run_on-IsWithin :
    (k : Codec) (later : List Action) (o : Option (Result Fault Conn)) (c : Conn)
    → WithinStep c o
    → IsWithin c
    → ((b : Conn) → IsWithin b → WithinResult (run k later b))
    → WithinResult (run_on (run k later) o c)
unfolding run_on
run_on-IsWithin k later none c p v f = f c v
run_on-IsWithin k later (some (ok b)) c p v f = f b p
run_on-IsWithin k later (some (err e)) c p v f = tt

run-IsWithin :
    (k : Codec) (actions : List Action) (c : Conn) → IsWithin c → WithinResult (run k actions c)
unfolding run
run-IsWithin k [] c v = v
run-IsWithin k (a ∷ later) c v =
    run_on-IsWithin k later (step k a c) c (step-IsWithin k a c v) v (run-IsWithin k later)

result_lem : (r : Result Fault Conn) (c : Conn) → r ≡ ok c → WithinResult r → IsWithin c
result_lem (ok b) c h v = let same : b ≡ c = cc in subst IsWithin same v
result_lem (err f) c h v = absurd (cc)

-- In every state that an interleaving reaches, at most 64 messages are queued for the writer, and
-- the warnings are within their bounds of 32 entries and 8192 bytes.
pub run-spawn-IsWithin :
    (k : Codec) (actions : List Action) → (c : Conn) × (run k actions spawn ≡ ok c) × IsWithin c
unfolding total_bytes
run-spawn-IsWithin k actions =
    let (c, q, s) = run-spawn-IsSound k actions in
    let first : IsWithin spawn = record { queue = omega arith; warned = ground arith } in
    (c, q, result_lem (run k actions spawn) c q (run-IsWithin k actions spawn first))
