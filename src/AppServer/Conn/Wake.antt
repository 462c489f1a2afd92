-- ===== src/AppServer/Conn/Wake.antt =====
-- internal/appserver/conn.go: once the stream has ended, every waiting call is woken, with the reason
-- that was recorded first.
use counterpoint.Prelude.{
  ℕ, suc, ◌-◌, ◌+◌, ◌≤◌, ◌<◌, ◌≡◌, refl, subst, is_some, Bool, true, false, List, [], ◌∷◌, Option,
  none, some, arith, Result, ok, err, length,
}
use counterpoint.Prelude.Text.{Bytes}
use counterpoint.Prelude.Int.{ℤ}
use counterpoint.AppServer.Conn.Sound.{IsSound, IsEnding, reader-IsAt}
use counterpoint.AppServer.Conn.Sound.Run.{run-IsSound, run-spawn-IsSound, done_lem}
use counterpoint.AppServer.Conn.{
  Envelope, Entry, spawn, waiting, returned, connection, first_reason, subscribe, unsubscribe,
  send_from_reader, send_encoded, Conn, Codec, Reader, reading, failing, reaping, reaped, ConnError,
  terminate, closed_err, Fault,
}
use counterpoint.AppServer.Conn.Dispatch.{
  read_line, dispatch, handle_response, handle_server_request, notify_handlers,
}
use counterpoint.AppServer.Conn.Steps.{
  Action, line_read, stream_ended, shut_down, process_reaped, written, writer_stopped,
  call_registered, call_prepared, call_sent, call_awaited, call_left, subscribed, unsubscribed,
  terminated, closing, kill_after_grace, end_reading, shutdown, step, run, sure, at_reader, write,
  run_on,
}
use counterpoint.AppServer.Conn.Calls.{
  set_phase, register, prepare, send, await, leave, Case, closed_case, prepared, awaited, received,
  enqueue,
}

abbrev pub is_reading : Reader → Bool
is_reading reading = true
is_reading _ = false

-- The steps of shutdown that are left to the reader.
abbrev pub closes_left : Reader → ℕ
closes_left (failing e xs) = suc (length xs)
closes_left _ = 0

abbrev cost : Action → ℕ
cost shut_down = 1
cost _ = 0

abbrev pub shut_downs : List Action → ℕ
shut_downs [] = 0
shut_downs (a ∷ later) = cost a + shut_downs later

-- The recorded reason stays, and the reader's work after the stream's end is done by its own steps.
record Onward (done : ℕ) (c c' : Conn) : Type 0 where
  reason : (e : ConnError) → c.exit_err ≡ some e → c'.exit_err ≡ some e
  past : is_reading c.reader ≡ false → is_reading c'.reader ≡ false
  fewer : is_reading c.reader ≡ false → closes_left c'.reader ≤ closes_left c.reader - done

abbrev OnwardStep : ℕ → Conn → Option (Result Fault Conn) → Type 0
OnwardStep done c none = Onward done c c
OnwardStep done c (some (ok c')) = Onward done c c'
OnwardStep done c (some (err f)) = Unit

-- What the steps of calls leave as it is.
abbrev Fixed : Conn → Option Conn → Type 0
Fixed c none = Unit
Fixed c (some c') = (c'.reader ≡ c.reader) × (c'.exit_err ≡ c.exit_err)

prepare-Fixed : (k : Codec) (n : ℕ) (m p : Bytes) (c : Conn) → Fixed c (prepare k n m p c)
unfolding prepare prepared
prepare-Fixed k n m p c = ground arith

send-Fixed : (n : ℕ) (which : Case) (c : Conn) → Fixed c (send n which c)
unfolding send enqueue
send-Fixed n which c = ground arith

await-Fixed :
    (k : Codec) (n : ℕ) (w : Bool) (which : Case) (c : Conn) → Fixed c (await k n w which c)
unfolding await awaited received
await-Fixed k n w which c = ground arith

leave-Fixed : (n : ℕ) (c : Conn) → Fixed c (leave n c)
unfolding leave
leave-Fixed n c = ground arith

-- What a line leaves as it is.
abbrev Listening : Conn → Result Fault Conn → Type 0
Listening c (err f) = Unit
Listening c (ok c') =
    (c'.reader ≡ c.reader) × ((e : ConnError) → c.exit_err ≡ some e → c'.exit_err ≡ some e)

handle_server_request-Listening :
    (k : Codec) (env : Envelope) (c : Conn) → Listening c (ok (handle_server_request k env c))
unfolding handle_server_request send_from_reader send_encoded terminate first_reason
handle_server_request-Listening k env c = ground arith

handle_response-Listening :
    (o : Option ℤ) (env : Envelope) (c : Conn) → Listening c (handle_response o env c)
unfolding handle_response
handle_response-Listening o env c = ground arith

dispatch-Listening : (k : Codec) (env : Envelope) (c : Conn) → Listening c (dispatch k env c)
unfolding dispatch notify_handlers
dispatch-Listening k env c = ground (
  arith,
  handle_server_request-Listening k env c,
  handle_response-Listening (k.int_of env.id) env c,
)

decoded-Listening :
    (k : Codec) (o : Option Envelope) (c : Conn)
    → Listening c (elim o [ none ↦ ok c | some env ↦ dispatch k env c ])
decoded-Listening k none c = (refl, λ e p. p)
decoded-Listening k (some env) c = dispatch-Listening k env c

line_read-Onward :
    (k : Codec) (line : Bytes) (c : Conn) → OnwardStep 0 c (at_reader c.reader (read_line k line c))
unfolding at_reader read_line
line_read-Onward k line c = ground (arith, decoded-Listening k (k.decode line) c)

step-Onward : (k : Codec) (a : Action) (c : Conn) → OnwardStep (cost a) c (step k a c)
unfolding step
step-Onward k (line_read line) c = line_read-Onward k line c
step-Onward k (stream_ended e) c = unfold at_reader end_reading first_reason in ground arith
step-Onward k shut_down c = unfold shutdown in ground arith
step-Onward k process_reaped c = ground arith
step-Onward k (written done) c = unfold sure write terminate first_reason in ground arith
step-Onward k writer_stopped c = ground arith
step-Onward k call_registered c = unfold register in ground arith
step-Onward k (call_prepared n method params) c =
    unfold sure in ground (arith, prepare-Fixed k n method params c)
step-Onward k (call_sent n which) c = unfold sure in ground (arith, send-Fixed n which c)
step-Onward k (call_awaited n wanted which) c =
    unfold sure in ground (arith, await-Fixed k n wanted which c)
step-Onward k (call_left n) c = unfold sure in ground (arith, leave-Fixed n c)
step-Onward k subscribed c = unfold subscribe in ground arith
step-Onward k (unsubscribed h) c = unfold unsubscribe in ground arith
step-Onward k (terminated e) c = unfold terminate first_reason in ground arith
step-Onward k closing c = ground arith
step-Onward k kill_after_grace c = ground arith

Onward-trans : {m n : ℕ} {a b c : Conn} → Onward m a b → Onward n b c → Onward (m + n) a c
Onward-trans p q = record {
  reason = λ e h. q.reason e (p.reason e h);
  past = λ h. q.past (p.past h);
  fewer = λ h. omega (arith, p.fewer h, q.fewer (p.past h));
}

run_on-Onward :
    (k : Codec) (later : List Action) (done : ℕ) (o : Option (Result Fault Conn)) (c c' : Conn)
    → OnwardStep done c o
    → ((b : Conn) → run k later b ≡ ok c' → Onward (shut_downs later) b c')
    → run_on (run k later) o c ≡ ok c'
    → Onward (done + shut_downs later) c c'
unfolding run_on
run_on-Onward k later done none c c' p f h = Onward-trans p (f c h)
run_on-Onward k later done (some (ok b)) c c' p f h = Onward-trans p (f b h)
run_on-Onward k later done (some (err e)) c c' p f h = absurd (cc)

run-Onward :
    (k : Codec) (actions : List Action) (c c' : Conn)
    → run k actions c ≡ ok c'
    → Onward (shut_downs actions) c c'
unfolding run
run-Onward k [] c c' h = ground arith
run-Onward k (a ∷ later) c c' h =
    run_on-Onward k later (cost a) (step k a c) c c' (step-Onward k a c)
      (λ b. run-Onward k later b c') h

reached-IsSound :
    (k : Codec) (before : List Action) (c : Conn) → run k before spawn ≡ ok c → IsSound k c
reached-IsSound k before c h =
    let (b, q, s) = run-spawn-IsSound k before in let same : b ≡ c = cc in subst (IsSound k) same s

IsEnding-closed :
    (r : Reader) (closed : Bool) (why : Option ConnError)
    → is_reading r ≡ false
    → closes_left r ≡ 0
    → IsEnding r closed why
    → closed ≡ true
IsEnding-closed reading closed why p q h = absurd (cc)
IsEnding-closed (failing e xs) closed why p q h = absurd (omega (arith, q))
IsEnding-closed reaping closed why p q h = h.0
IsEnding-closed reaped closed why p q h = h.0

some_reason : (o : Option ConnError) → is_some o ≡ true → (e : ConnError) × (o ≡ some e)
some_reason none h = absurd (cc)
some_reason (some e) h = (e, refl)

await_closed :
    (k : Codec) (c : Conn) (n : ℕ) (wanted : Bool) (why : ConnError)
    → c.closed ≡ true
    → c.exit_err ≡ some why
    → c.calls n ≡ waiting
    → await k n wanted closed_case c ≡ some (set_phase n (returned (err (connection why))) c)
unfolding await awaited closed_err
await_closed k c n wanted why p q h = ground arith

-- Once the stream has ended, and the reader has taken the pending calls, any interleaving in which
-- it takes as many steps as calls were pending and one more goes through without a fault and closes
-- the connection. Every call that waits there can then return by the select's case of the closed
-- connection, and what it returns by that case is the reason recorded first.
pub run_wakes :
    (k : Codec) (before later : List Action) (c : Conn) (e : ConnError) (xs : List Entry)
    → run k before spawn ≡ ok c
    → c.reader ≡ failing e xs
    → length xs < shut_downs later
    → (c' : Conn) × (why : ConnError) × (run k later c ≡ ok c')
      × (c.exit_err ≡ some why)
      × (c'.closed ≡ true)
      × ((n : ℕ) (wanted : Bool)
          → c'.calls n ≡ waiting
          → await k n wanted closed_case c'
            ≡ some (set_phase n (returned (err (connection why))) c'))
run_wakes k before later c e xs h r few =
    let s = reached-IsSound k before c h in
    let (c', q, t) = done_lem (IsSound k) (run k later c) (run-IsSound later c s) in
    let on = run-Onward k later c c' q in
    let (why, w) = some_reason c.exit_err ((reader-IsAt (failing e xs) r s).at_ending.1) in
    let past : is_reading c.reader ≡ false = rw r refl in
    let left : closes_left c.reader ≡ suc (length xs) = rw r refl in
    let shut =
      IsEnding-closed c'.reader c'.closed c'.exit_err (on.past past)
        (omega (arith, on.fewer past, left)) t.ending in
    (c', why, q, w, shut, λ n wanted. await_closed k c' n wanted why shut (on.reason why w))
