-- ===== src/AppServer/Policy.antt =====
-- The policy checks of internal/appserver/client.go: `Sandbox.mode`, `sameSet`, `checkSandbox`,
-- `threadFromResponse` and the thread calls. The transport's answer to a call is an argument.
pub mod SameSet
pub mod Threads
use counterpoint.Prelude.{
  ℕ, Bool, true, false, not, ◌&&◌, ◌||◌, List, [], ◌∷◌, Option, none, some, length, is_empty, ◌==◌,
  if◌then◌else◌, Result, ok, err, ◌>>=◌, ◌>>◌, refuse_if,
}
use counterpoint.Prelude.Text.{Bytes, codes, eq_text}

pub record Sandbox : Type 0 where
  pub build : Bool
  pub writable_roots : List Bytes

unfoldable pub mode : Sandbox → Bytes
mode s = if s.build then codes "workspace-write" else codes "read-only"

-- The effective sandbox that the server reports.
pub record SandboxPolicy : Type 0 where
  pub type : Bytes
  pub network_access : Bool
  pub writable_roots : List Bytes
  pub exclude_slash_tmp : Bool
  pub exclude_tmpdir_env_var : Bool

abbrev pub policy_read_only : Bytes
policy_read_only = codes "readOnly"

abbrev pub policy_workspace_write : Bytes
policy_workspace_write = codes "workspaceWrite"

abbrev pub approval_never : Bytes
approval_never = codes "never"

-- seen[s]
unfoldable pub mem : Bytes → List Bytes → Bool
mem s [] = false
mem s (t ∷ ts) = eq_text s t || mem s ts

-- The first loop: `none` when a string comes a second time.
unfoldable pub collect : List Bytes → List Bytes → Option (List Bytes)
unfolding mem
collect seen [] = some seen
collect seen (s ∷ a) = let rest = collect (s ∷ seen) a in if mem s seen then none else rest

-- The second loop.
unfoldable pub all_seen : List Bytes → List Bytes → Bool
unfolding mem
all_seen seen [] = true
all_seen seen (s ∷ b) = mem s seen && all_seen seen b

seen_by : Option (List Bytes) → List Bytes → Bool
unfolding all_seen
seen_by none b = false
seen_by (some seen) b = all_seen seen b

unfoldable pub same_set : List Bytes → List Bytes → Bool
unfolding seen_by
same_set a b = if length a == length b then seen_by (collect [] a) b else false

pub data PolicyError : Type 0 where
  network_enabled wrong_sandbox temp_root_writable wrong_roots : PolicyError
  no_thread_id wrong_cwd wrong_approval wrong_thread : PolicyError
  call_failed : PolicyError

unfoldable pub check_sandbox : SandboxPolicy → Sandbox → Result PolicyError (Unit {0})
check_sandbox got want = do
  refuse_if got.network_access network_enabled
  if not want.build then refuse_if (not (eq_text got.type policy_read_only)) wrong_sandbox else do
    refuse_if (not (eq_text got.type policy_workspace_write)) wrong_sandbox
    refuse_if (not got.exclude_slash_tmp || not got.exclude_tmpdir_env_var) temp_root_writable
    refuse_if (not (same_set got.writable_roots want.writable_roots)) wrong_roots

-- `approval_policy` is the decoded string, or `none` where the field is no JSON string.
pub record ThreadResponse : Type 0 where
  pub thread_id : Bytes
  pub model : Bytes
  pub reasoning_effort : Option Bytes
  pub approval_policy : Option Bytes
  pub sandbox : SandboxPolicy
  pub cwd : Bytes

pub record Thread : Type 0 where
  pub id : Bytes
  pub model : Bytes
  pub reasoning_effort : Bytes

is_never : Option Bytes → Bool
is_never none = false
is_never (some approval) = eq_text approval approval_never

effort_of : Option Bytes → Bytes
effort_of none = []
effort_of (some effort) = effort

unfoldable pub thread_from_response : ThreadResponse → Bytes → Sandbox → Result PolicyError Thread
unfolding is_never effort_of
thread_from_response resp requested_cwd sb = do
  refuse_if (is_empty resp.thread_id) no_thread_id
  refuse_if (not (eq_text resp.cwd requested_cwd)) wrong_cwd
  refuse_if (not (is_never resp.approval_policy)) wrong_approval
  check_sandbox resp.sandbox sb
  ok (record {
    id = resp.thread_id;
    model = resp.model;
    reasoning_effort = effort_of resp.reasoning_effort;
  })

-- The answer to a call: `none` is a transport or server error.
answered : Option ThreadResponse → Result PolicyError ThreadResponse
answered none = err call_failed
answered (some resp) = ok resp

unfoldable pub start_thread : Option ThreadResponse → Bytes → Sandbox → Result PolicyError Thread
unfolding answered
start_thread answer cwd sb = do resp ← answered answer; thread_from_response resp cwd sb

unfoldable pub resume_thread :
    Option ThreadResponse → Bytes → Bytes → Sandbox → Result PolicyError Thread
unfolding answered
resume_thread answer thread_id cwd sb = do
  resp ← answered answer
  refuse_if (not (eq_text resp.thread_id thread_id)) wrong_thread
  thread_from_response resp cwd sb

-- The thread id that the server reports, or `none` for a failed call.
unfoldable pub unarchive_thread : Option Bytes → Bytes → Result PolicyError (Unit {0})
unarchive_thread none thread_id = err call_failed
unarchive_thread (some id) thread_id = refuse_if (not (eq_text id thread_id)) wrong_thread
