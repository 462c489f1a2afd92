-- ===== src/Tests/Conn.antt =====
-- The app-server connection at a concrete codec and concrete interleavings.
use counterpoint.Prelude.{
  ℕ, ◌≡◌, refl, true, false, Bool, List, [], ◌∷◌, Option, none, some, arith, ok, err,
}
use counterpoint.Prelude.Int.{ℤ, pos}
use counterpoint.Prelude.Text.{Bytes, codes}
use counterpoint.AppServer.Warnings.{no_warnings}
use counterpoint.AppServer.Conn.{
  ConnError, encode_line, first_reason, delete, Codec, Conn, Envelope, Outgoing, request, reply,
  refusal, process_exited, spawn, failing, unmade, empty, update, waiting, unborn, registered,
  queueing, returned, connection,
}
use counterpoint.AppServer.Conn.Dispatch.{dispatch, request_command_approval}
use counterpoint.AppServer.Conn.Calls.{
  prepare, register, send, message_case, closed_case, await, set_phase,
}
use counterpoint.AppServer.Conn.Steps.{
  Action, line_read, stream_ended, shut_down, written, call_registered, call_prepared, call_sent,
  call_awaited, run, step, end_reading,
}
use counterpoint.AppServer.Conn.Sound.{IsSound}
use counterpoint.AppServer.Conn.Sound.Run.{run-spawn-IsSound}
use counterpoint.AppServer.Conn.Wake.{run_wakes}
use counterpoint.AppServer.Conn.Bounds.{IsWithin, run-spawn-IsWithin}
use counterpoint.AppServer.Conn.Declined.{IsRefused, dispatch-IsRefused}

-- A line is the byte of its id and then the result.
decode_line : Bytes → Option Envelope
decode_line [] = none
decode_line (b ∷ result) =
    some (record { id = b ∷ []; method = []; params = []; result = result; error = none })

first_byte : Bytes → Option ℤ
first_byte [] = none
first_byte (b ∷ _) = some (pos b)

abbrev codec : Codec
codec = record {
  decode = decode_line;
  int_of = first_byte;
  fits = λ _. true;
  item_and_turn = λ _. ([], []);
  marshal = λ (m : Outgoing). elim m [
    | request id method params ↦ some method
    | reply id answer ↦ some id
    | refusal id e ↦ some id
  ];
}

abbrev ping : Bytes
ping = codes "ping"

abbrev call_made : List Action
call_made = call_registered ∷ call_prepared 1 ping [] ∷ call_sent 1 message_case ∷ []

abbrev call_answered : List Action
call_answered =
    call_registered
    ∷ call_prepared 1 ping []
    ∷ call_sent 1 message_case
    ∷ written true
    ∷ line_read (1 ∷ codes "pong")
    ∷ call_awaited 1 true message_case
    ∷ []

run-spawn-IsSound_example : (c : Conn) × (run codec call_answered spawn ≡ ok c) × IsSound codec c
run-spawn-IsSound_example = run-spawn-IsSound codec call_answered

run-spawn-IsWithin_example : (c : Conn) × (run codec call_made spawn ≡ ok c) × IsWithin c
run-spawn-IsWithin_example = run-spawn-IsWithin codec call_made

abbrev ended : Conn
ended = record {
  next_id = 1;
  pending = [];
  channels = update (λ _. unmade) 1 empty;
  calls =
      update (update (update (λ _. unborn) 1 registered) 1 (queueing (codes "ping\n"))) 1 waiting;
  handlers = [];
  next_handler = 0;
  heard = [];
  warnings = no_warnings;
  exit_err = some process_exited;
  outbox = codes "ping\n" ∷ [];
  reader = failing process_exited (record { id = pos 1; channel = 1 } ∷ []);
  closed = false;
  stopped = false;
  writer_done = false;
  killed = false;
}

abbrev until_ended : List Action
until_ended =
    call_registered
    ∷ call_prepared 1 ping []
    ∷ call_sent 1 message_case
    ∷ stream_ended process_exited
    ∷ []

ended_reached : run codec until_ended spawn ≡ ok ended
unfolding run step prepare register send encode_line end_reading first_reason delete
ended_reached = refl

run_wakes_example :
    (c' : Conn) × (why : ConnError) × (run codec (shut_down ∷ shut_down ∷ []) ended ≡ ok c')
    × (ended.exit_err ≡ some why)
    × (c'.closed ≡ true)
    × ((n : ℕ) (wanted : Bool)
        → c'.calls n ≡ waiting
        → await codec n wanted closed_case c'
          ≡ some (set_phase n (returned (err (connection why))) c'))
run_wakes_example =
    run_wakes codec until_ended (shut_down ∷ shut_down ∷ []) ended process_exited
      (record { id = pos 1; channel = 1 } ∷ []) ended_reached refl (omega arith)

abbrev approval : Envelope
approval = record {
  id = codes "7";
  method = request_command_approval;
  params = [];
  result = [];
  error = none;
}

dispatch-IsRefused_example :
    (c' : Conn) × (dispatch codec approval spawn ≡ ok c') × IsRefused codec approval spawn c'
dispatch-IsRefused_example = dispatch-IsRefused codec approval spawn refl refl
