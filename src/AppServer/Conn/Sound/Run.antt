-- ===== src/AppServer/Conn/Sound/Run.antt =====
-- internal/appserver/conn.go: the soundness of every interleaving.
use counterpoint.Prelude.{
  ◌≡◌, refl, Bool, true, false, List, [], ◌∷◌, Option, none, some, arith, if◌then◌else◌, Result, ok,
  err,
}
use counterpoint.Prelude.Text.{Bytes}
use counterpoint.AppServer.Conn.{
  Codec, write_failed, terminate, subscribe, unsubscribe, Reader, reading, failing, reaping, reaped,
  Conn, Fault, spawn, terminate, subscribe, unsubscribe,
}
use counterpoint.AppServer.Conn.Steps.{
  run_on, sure, at_reader, write, Action, line_read, stream_ended, shut_down, process_reaped,
  written, writer_stopped, call_registered, call_prepared, call_sent, call_awaited, call_left,
  subscribed, unsubscribed, terminated, closing, kill_after_grace, shutdown, step, run,
}
use counterpoint.AppServer.Conn.Table.{uses}
use counterpoint.AppServer.Conn.Sound.{
  reader-IsAt, IsSound, After, Done, terminate-IsSound, register-IsSound,
}
use counterpoint.AppServer.Conn.Sound.Reading.{
  read_line-IsSound, end_reading-IsSound, shutdown-IsSound,
}
use counterpoint.AppServer.Conn.Sound.Calling.{
  Moves, prepare-IsSound, send-IsSound, await-IsSound, leave-IsSound,
}

sure-After :
    (Holds : Conn → Type 0) (c : Conn) (o : Option Conn) → Moves Holds c o → After Holds c (sure o)
unfolding sure
sure-After Holds c none m = m
sure-After Holds c (some c') m = m

Done-After :
    (Holds : Conn → Type 0) (c : Conn) (r : Result Fault Conn)
    → Done Holds r
    → After Holds c (some r)
Done-After Holds c (ok c') m = m
Done-After Holds c (err f) m = m

module _ {k : Codec} {c : Conn} (s : IsSound k c) where
  at_reading :
      (r : Reader) (x : Result Fault Conn)
      → c.reader ≡ r
      → (c.reader ≡ reading → Done (IsSound k) x)
      → After (IsSound k) c (at_reader r x)
  unfolding at_reader
  at_reading reading x q f = Done-After (IsSound k) c x (f q)
  at_reading (failing e xs) x q f = s
  at_reading reaping x q f = s
  at_reading reaped x q f = s

  at_failing :
      (r : Reader)
      → c.reader ≡ r
      → After (IsSound k) c (elim r [ failing e xs ↦ some (shutdown e xs c) | _ ↦ none ])
  at_failing reading q = s
  at_failing (failing e xs) q =
      Done-After (IsSound k) c (shutdown e xs c) (shutdown-IsSound e xs q s)
  at_failing reaping q = s
  at_failing reaped q = s

  at_reaping :
      (r : Reader)
      → c.reader ≡ r
      → After
          (IsSound k)
          c
          (elim r [ reaping ↦ some (ok (record c { reader = reaped })) | _ ↦ none ])
  at_reaping reading q = s
  at_reaping (failing e xs) q = s
  at_reaping reaping q =
      let here = reader-IsAt reaping q s in
      record { table = here.at_table; answered = s.answered; ending = here.at_ending }
  at_reaping reaped q = s

  write_line-IsSound :
      (lines : List Bytes) (done over : Bool)
      → Moves (IsSound k) c (
          if over
          then none
          else if done
          then some (record c { outbox = lines })
          else some (record (terminate write_failed c) { outbox = lines; writer_done = true }))
  unfolding terminate
  write_line-IsSound lines done true = s
  write_line-IsSound lines true false = record {
    table = s.table;
    answered = s.answered;
    ending = s.ending;
  }
  write_line-IsSound lines false false =
      let t = terminate-IsSound s write_failed in
      record { table = s.table; answered = s.answered; ending = t.ending }

  write-IsSound : (lines : List Bytes) (done : Bool) → Moves (IsSound k) c (write lines done c)
  unfolding write
  write-IsSound [] done = s
  write-IsSound (line ∷ lines) done = write_line-IsSound lines done c.writer_done

  writer_stopped-IsSound :
      (stopped : Bool)
      → After (IsSound k) c (if stopped then some (ok (record c { writer_done = true })) else none)
  writer_stopped-IsSound true = record { table = s.table; answered = s.answered; ending = s.ending }
  writer_stopped-IsSound false = s

  pub step-IsSound : (a : Action) → After (IsSound k) c (step k a c)
  unfolding step
  step-IsSound (line_read line) = at_reading c.reader _ refl (λ _. read_line-IsSound line s)
  step-IsSound (stream_ended e) = at_reading c.reader _ refl (λ q. end_reading-IsSound e q s)
  step-IsSound shut_down = at_failing c.reader refl
  step-IsSound process_reaped = at_reaping c.reader refl
  step-IsSound (written done) = sure-After (IsSound k) c _ (write-IsSound c.outbox done)
  step-IsSound writer_stopped = writer_stopped-IsSound c.stopped
  step-IsSound call_registered = register-IsSound s
  step-IsSound (call_prepared n method params) =
      sure-After (IsSound k) c _ (prepare-IsSound s n method params)
  step-IsSound (call_sent n which) = sure-After (IsSound k) c _ (send-IsSound s n which)
  step-IsSound (call_awaited n wanted which) =
      sure-After (IsSound k) c _ (await-IsSound s n wanted which)
  step-IsSound (call_left n) = sure-After (IsSound k) c _ (leave-IsSound s n)
  step-IsSound subscribed =
      unfold subscribe in record { table = s.table; answered = s.answered; ending = s.ending }
  step-IsSound (unsubscribed h) =
      unfold unsubscribe in record { table = s.table; answered = s.answered; ending = s.ending }
  step-IsSound (terminated e) = terminate-IsSound s e
  step-IsSound closing = record { table = s.table; answered = s.answered; ending = s.ending }
  step-IsSound kill_after_grace = record {
    table = s.table;
    answered = s.answered;
    ending = s.ending;
  }

run_on-IsSound :
    {k : Codec} (c : Conn) (later : List Action) (o : Option (Result Fault Conn))
    → After (IsSound k) c o
    → ((c' : Conn) → IsSound k c' → Done (IsSound k) (run k later c'))
    → Done (IsSound k) (run_on (run k later) o c)
unfolding run_on
run_on-IsSound c later none s f = f c s
run_on-IsSound c later (some (ok c')) s f = f c' s
run_on-IsSound c later (some (err e)) s f = s

spawn-IsSound : (k : Codec) → IsSound k spawn
unfolding uses
spawn-IsSound k = record {
  table = record {
    once = λ n. omega arith;
    unfilled = λ n h. absurd (omega arith);
    fresh = λ n h. refl;
    named = tt;
    replies = λ n env h. absurd (cc);
  };
  answered = λ n. tt;
  ending = refl;
}

pub done_lem :
    (Holds : Conn → Type 0) (r : Result Fault Conn)
    → Done Holds r
    → (c : Conn) × (r ≡ ok c) × Holds c
done_lem Holds (ok c) m = (c, refl, m)
done_lem Holds (err f) m = absurd m

pub run-IsSound :
    {k : Codec} (actions : List Action) (c : Conn)
    → IsSound k c
    → Done (IsSound k) (run k actions c)
unfolding run
run-IsSound [] c s = s
run-IsSound {k} (a ∷ later) c s =
    run_on-IsSound c later (step k a c) (step-IsSound s a) (run-IsSound later)

-- However the reader, the writer and the calls interleave, the reader never blocks at a reply
-- channel, nothing is sent on a closed channel and none is closed twice. In every state reached, a
-- call that has returned a result, an error of the server or a result it cannot decode has it from a
-- message with the id of that call, each reply channel that the reader can still fill or close is
-- empty and stands in one entry, and the connection is closed only after a reason is recorded.
pub run-spawn-IsSound :
    (k : Codec) (actions : List Action) → (c : Conn) × (run k actions spawn ≡ ok c) × IsSound k c
run-spawn-IsSound k actions =
    done_lem (IsSound k) (run k actions spawn) (run-IsSound actions spawn (spawn-IsSound k))
