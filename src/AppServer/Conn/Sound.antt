-- ===== src/AppServer/Conn/Sound.antt =====
-- internal/appserver/conn.go: every interleaving of the reader, the writer and the calls keeps the
-- connection sound.
pub mod Reading
pub mod Calling
pub mod Run
use counterpoint.Prelude.{
  ℕ, suc, ◌≡◌, refl, subst, Bool, true, false, not, ◌&&◌, ◌||◌, is_empty, List, [], ◌∷◌, ◌++◌,
  Option, none, some, is_some, arith, ltb, length, if◌then◌else◌, Result, ok, err, Bool-cases,
  Option-cases, inl, inr,
}
use counterpoint.Prelude.Int.{ℤ}
use counterpoint.Prelude.Text.{Bytes}
use counterpoint.AppServer.Conn.{
  Envelope, Codec, ConnError, Channel, unmade, empty, closed_channel, holding, Entry, CallError,
  sending, connection, server, undecodable, context_ended, Phase, unborn, registered, queueing,
  waiting, leaving, returned, Reader, reading, failing, reaping, reaped, Conn, Fault, spawn, update,
  lookup, delete, first_reason, terminate, send_encoded, send_from_reader, outbox_size,
  write_backlog, encode_line, subscribe, unsubscribe,
}
use counterpoint.AppServer.Conn.Calls.{
  id_of, set_phase, register, prepare, Case, message_case, context_case, closed_case, send,
  outcome_of, await, leave, enqueue,
}
use counterpoint.AppServer.Conn.Dispatch.{
  add_warning, warning_for, reply_to, is_blank, handle_server_request, notify_handlers,
  handle_response, dispatch, read_line,
}
use counterpoint.AppServer.Conn.Steps.{
  Action, line_read, stream_ended, shut_down, process_reaped, written, writer_stopped,
  call_registered, call_prepared, call_sent, call_awaited, call_left, subscribed, unsubscribed,
  terminated, closing, kill_after_grace, end_reading, shutdown, step, run,
}
use counterpoint.AppServer.Conn.Table.{
  IsTable, uses, uses-delete-lookup, delete-IsTable, register-IsTable, put-IsTable, receive-IsTable,
  close-IsTable,
}

-- The entries that the reader has taken.
abbrev pub taken_by : Reader → List Entry
taken_by (failing e xs) = xs
taken_by _ = []

-- The result comes from a message with the id of call n.
abbrev pub IsMatched : Codec → ℕ → Result CallError (Option Bytes) → Type 0
IsMatched k n r =
    (env : Envelope) × (wanted : Bool) × (k.int_of env.id ≡ some (id_of n))
    × (outcome_of k wanted env ≡ r)

-- What call n may return: a failure of its own, or what the server sent to it.
abbrev pub IsOwn : Codec → ℕ → Result CallError (Option Bytes) → Type 0
IsOwn k n (err (sending e)) = Unit
IsOwn k n (err (connection e)) = Unit
IsOwn k n (err context_ended) = Unit
IsOwn k n r = IsMatched k n r

abbrev pub IsAnswered : Codec → ℕ → Phase → Type 0
IsAnswered k n (leaving e) = IsOwn k n (err e)
IsAnswered k n (returned r) = IsOwn k n r
IsAnswered k n _ = Unit

-- `closed` is closed at the end of the shutdown, and a reason is recorded at its start.
abbrev pub IsEnding : Reader → Bool → Option ConnError → Type 0
IsEnding reading closed why = closed ≡ false
IsEnding (failing e xs) closed why = (closed ≡ false) × (is_some why ≡ true)
IsEnding _ closed why = (closed ≡ true) × (is_some why ≡ true)

pub record IsSound (k : Codec) (c : Conn) : Type 0 where
  pub table : IsTable k c.next_id (taken_by c.reader) c.pending c.channels
  pub answered : (n : ℕ) → IsAnswered k n (c.calls n)
  pub ending : IsEnding c.reader c.closed c.exit_err

-- The state after a step, which is the one before where the step is not enabled.
abbrev pub After : (Conn → Type 0) → Conn → Option (Result Fault Conn) → Type 0
After Holds c none = Holds c
After Holds c (some (ok c')) = Holds c'
After Holds c (some (err f)) = ⊥

abbrev pub Done : (Conn → Type 0) → Result Fault Conn → Type 0
Done Holds (ok c) = Holds c
Done Holds (err f) = ⊥

pub matched-IsOwn :
    (k : Codec) (n : ℕ) (r : Result CallError (Option Bytes)) → IsMatched k n r → IsOwn k n r
matched-IsOwn k n (ok r) m = m
matched-IsOwn k n (err (sending e)) m = tt
matched-IsOwn k n (err (connection e)) m = tt
matched-IsOwn k n (err context_ended) m = tt
matched-IsOwn k n (err (server e)) m = m
matched-IsOwn k n (err undecodable) m = m

pub first_reason_some : (o : Option ConnError) (e : ConnError) → is_some (first_reason o e) ≡ true
unfolding first_reason
first_reason_some none e = refl
first_reason_some (some r) e = refl

IsEnding-first_reason :
    (r : Reader) (closed : Bool) (o : Option ConnError) (e : ConnError)
    → IsEnding r closed o
    → IsEnding r closed (first_reason o e)
IsEnding-first_reason reading closed o e p = p
IsEnding-first_reason (failing x xs) closed o e (p, q) = (p, first_reason_some o e)
IsEnding-first_reason reaping closed o e (p, q) = (p, first_reason_some o e)
IsEnding-first_reason reaped closed o e (p, q) = (p, first_reason_some o e)

module _ {k : Codec} {c : Conn} (s : IsSound k c) where
  open s use {table, answered, ending}

  pub update_answered :
      (n : ℕ) (p : Phase) → IsAnswered k n p → (m : ℕ) → IsAnswered k m (update c.calls n p m)
  update_answered n p a m = ground (arith, answered m)

  pub set_phase-IsSound : (n : ℕ) (p : Phase) → IsAnswered k n p → IsSound k (set_phase n p c)
  set_phase-IsSound n p a = record {
    table = table;
    answered = update_answered n p a;
    ending = ending;
  }

  pub terminate-IsSound : (e : ConnError) → IsSound k (terminate e c)
  unfolding terminate
  terminate-IsSound e = record {
    table = table;
    answered = answered;
    ending = IsEnding-first_reason c.reader c.closed c.exit_err e ending;
  }

  pub register-IsSound : IsSound k (register c)
  unfolding register
  register-IsSound = record {
    table = register-IsTable table;
    answered = update_answered (suc c.next_id) registered tt;
    ending = ending;
  }

  pub delete-IsSound : (id : ℤ) → IsSound k (record c { pending = delete id c.pending })
  delete-IsSound id = record {
    table = delete-IsTable table id;
    answered = answered;
    ending = ending;
  }

-- What is known of the connection when its reader is at r.
pub record IsAt (k : Codec) (c : Conn) (r : Reader) : Type 0 where
  pub at_table : IsTable k c.next_id (taken_by r) c.pending c.channels
  pub at_ending : IsEnding r c.closed c.exit_err

pub reader-IsAt : {k : Codec} {c : Conn} (r : Reader) → c.reader ≡ r → IsSound k c → IsAt k c r
reader-IsAt {k} {c} r q s = subst (IsAt k c) q (record { at_table = s.table; at_ending = s.ending })
