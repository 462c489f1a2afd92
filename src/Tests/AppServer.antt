-- ===== src/Tests/AppServer.antt =====
-- The app-server client at concrete values.
use counterpoint.Prelude.{
  ◌≤◌, ◌≡◌, ◌↔◌, refl, true, false, List, [], ◌∷◌, ◌++◌, Option, none, some, arith, ok,
}
use counterpoint.Prelude.Int.{pos}
use counterpoint.Prelude.Text.{Bytes, codes, eq_text}
use counterpoint.AppServer.Usage.{WireBreakdown, WireUsage, valid}
use counterpoint.AppServer.Notification.{
  Status, completed, Message, turn_started, agent_message_delta, item_completed, turn_completed,
  agent_message,
}
use counterpoint.AppServer.Watcher.{Watcher, new_turn_watcher, set_turn, run, handle, matches}
use counterpoint.AppServer.Watcher.Invariant.{IsSound, run-new-IsSound}
use counterpoint.AppServer.Watcher.Messages.{joined, texts, joined-run}
use counterpoint.AppServer.Outcome.{Review, turn_outcome, text}
use counterpoint.AppServer.Warnings.{max_warning_bytes, total_bytes}
use counterpoint.AppServer.Policy.{
  Sandbox, SandboxPolicy, policy_workspace_write, approval_never, mem, collect, all_seen, same_set,
  check_sandbox, ThreadResponse, Thread, thread_from_response, start_thread, resume_thread,
}
use counterpoint.AppServer.Policy.SameSet.{Distinct}
use counterpoint.AppServer.Policy.Threads.{Allowed, Complies, check_sandbox_iff, resume_thread_ok}
use counterpoint.AppServer.Toml.{toml_string}
use counterpoint.AppServer.Toml.RoundTrip.{read_basic_string, read_basic_string-toml_string}

abbrev counters : WireBreakdown
counters = record {
  input_tokens = some (pos 10);
  cached_input_tokens = some (pos 2);
  cache_write_input_tokens = none;
  output_tokens = some (pos 5);
  reasoning_output_tokens = some (pos 1);
  total_tokens = some (pos 15);
}

abbrev report : Option WireUsage
report = some (record { last = some counters; total = some counters })

report-valid : valid report ≡ true
unfolding valid
report-valid = refl

abbrev thread_id : Bytes
thread_id = codes "t1"

abbrev turn_id : Bytes
turn_id = codes "u1"

abbrev started : Message
started = turn_started (
    some (record {
      thread_id = thread_id;
      turn_id = turn_id;
      status = Status.other_status (codes "inProgress");
      error = none;
      items = [];
    }))

abbrev said : Bytes → Message
said text = item_completed (
    some (record {
      thread_id = thread_id;
      turn_id = turn_id;
      item = record { type = agent_message; text = text; review = [] };
    }))

abbrev ended : Message
ended = turn_completed (
    some (record {
      thread_id = thread_id;
      turn_id = turn_id;
      status = completed;
      error = none;
      items = [];
    }))

run-new-IsSound_example : IsSound (
    run
      (set_turn (run (new_turn_watcher thread_id) (started ∷ [])) turn_id).0
      (said (codes "ok") ∷ ended ∷ []))
run-new-IsSound_example =
    run-new-IsSound thread_id turn_id (started ∷ []) (said (codes "ok") ∷ ended ∷ [])

abbrev running : Watcher
running = record {
  thread_id = thread_id;
  turn_id = turn_id;
  review = [];
  messages = [];
  deltas = [];
  overflow = false;
  status = Status.other_status [];
  turn_err = none;
  last_err = none;
  usage = none;
  usage_seen = 0;
  bad_usage = 0;
  unattributed = 0;
  unattributed_usage = [];
  finished = false;
  closes = 0;
}

abbrev finished : Watcher
finished = record running { messages = codes "ok"; status = completed; finished = true; closes = 1 }

abbrev foreign : Message
foreign =
    agent_message_delta
      (some (record { thread_id = codes "t2"; turn_id = turn_id; delta = codes "x" }))

foreign_lem : matches running (codes "t2") turn_id ≡ false
unfolding matches eq_text
foreign_lem = refl

no_overflow : (run running (said (codes "one") ∷ said (codes "two") ∷ ended ∷ [])).overflow ≡ false
unfolding run handle matches eq_text
no_overflow = refl

joined-run_example :
    (run running (said (codes "one") ∷ said (codes "two") ∷ ended ∷ [])).messages
    ≡ joined [] (texts thread_id turn_id (said (codes "one") ∷ said (codes "two") ∷ ended ∷ []))
joined-run_example =
    joined-run running (said (codes "one") ∷ said (codes "two") ∷ ended ∷ []) (λ e. cc) refl
      no_overflow

abbrev approved : Review
approved = record { turn_id = turn_id; text = codes "ok"; warnings = []; usage = none }

finished_ok : turn_outcome finished turn_id [] ≡ ok approved
unfolding turn_outcome
finished_ok = refl

small_list : total_bytes (codes "a" ∷ []) ≤ max_warning_bytes
unfolding total_bytes
small_list = omega arith

abbrev roots : List Bytes
roots = codes "/cache" ∷ codes "/tmp" ∷ []

roots-Distinct : Distinct roots
unfolding mem eq_text
roots-Distinct = (refl, (refl, tt))

abbrev build_policy : SandboxPolicy
build_policy = record {
  type = policy_workspace_write;
  network_access = false;
  writable_roots = codes "/tmp" ∷ codes "/cache" ∷ [];
  exclude_slash_tmp = true;
  exclude_tmpdir_env_var = true;
}

abbrev build_sandbox : Sandbox
build_sandbox = record { build = true; writable_roots = roots }

check_sandbox_iff_example :
    (check_sandbox build_policy build_sandbox ≡ ok tt) ↔ Allowed build_policy build_sandbox
check_sandbox_iff_example = check_sandbox_iff build_policy build_sandbox roots-Distinct

abbrev response : ThreadResponse
response = record {
  thread_id = thread_id;
  model = codes "m";
  reasoning_effort = none;
  approval_policy = some approval_never;
  sandbox = build_policy;
  cwd = codes "/work";
}

abbrev opened_thread : Thread
opened_thread = record { id = thread_id; model = codes "m"; reasoning_effort = [] }

resumed_ok :
    resume_thread (some response) thread_id (codes "/work") build_sandbox ≡ ok opened_thread
unfolding resume_thread thread_from_response check_sandbox same_set collect all_seen mem eq_text
resumed_ok = refl

resume_thread_ok_example :
    Complies response (codes "/work") build_sandbox × (opened_thread.id ≡ thread_id)
resume_thread_ok_example =
    resume_thread_ok response thread_id (codes "/work") build_sandbox {t = opened_thread}
      roots-Distinct resumed_ok

started_ok : start_thread (some response) (codes "/work") build_sandbox ≡ ok opened_thread
unfolding start_thread thread_from_response check_sandbox same_set collect all_seen mem eq_text
started_ok = refl

read_basic_string-toml_string_example :
    read_basic_string (toml_string (codes "a\"b\n") ++ codes ",x")
    ≡ some (codes "a\"b\n", codes ",x")
read_basic_string-toml_string_example = read_basic_string-toml_string (codes "a\"b\n") (codes ",x")
