-- ===== src/AppServer/Policy/Threads.antt =====
-- A thread is used only under exactly the requested policy.
use counterpoint.Prelude.{
  ◌≡◌, ◌≢◌, ◌↔◌, ◌∙◌, Bool, true, false, List, [], Option, none, some, arith, ok, Bool-cases, inl,
  inr,
}
use counterpoint.Prelude.Text.{Bytes, eq_text_iff}
use counterpoint.AppServer.Policy.{
  Sandbox, SandboxPolicy, policy_read_only, policy_workspace_write, approval_never, check_sandbox,
  ThreadResponse, Thread, is_never, thread_from_response, resume_thread, start_thread,
}
use counterpoint.AppServer.Policy.SameSet.{Distinct, SameMembers, same_set_iff}

-- The effective policy that each requested sandbox asks for.
abbrev AllowedMode : Bool → SandboxPolicy → List Bytes → Type 0
AllowedMode false got roots = got.type ≡ policy_read_only
AllowedMode true got roots =
    (got.type ≡ policy_workspace_write)
    × (got.exclude_slash_tmp ≡ true)
    × (got.exclude_tmpdir_env_var ≡ true)
    × Distinct got.writable_roots
    × SameMembers got.writable_roots roots

abbrev pub Allowed : SandboxPolicy → Sandbox → Type 0
Allowed got want = (got.network_access ≡ false) × AllowedMode want.build got want.writable_roots

check_build_iff :
    (got : SandboxPolicy) (roots : List Bytes)
    → Distinct roots
    → (check_sandbox got (record { build = true; writable_roots = roots }) ≡ ok tt)
      ↔ Allowed got (record { build = true; writable_roots = roots })
unfolding check_sandbox
check_build_iff got roots d = (
  λ h.
      let same = (same_set_iff got.writable_roots roots d).0 (ground arith) in
      (
        ground arith,
        (
          ground (arith, eq_text_iff got.type policy_workspace_write),
          ground arith,
          ground arith,
          same.0,
          same.1,
        ),
      ),
  λ h.
      let same = (same_set_iff got.writable_roots roots d).1 (h.1.3, h.1.4) in
      ground (arith, eq_text_iff got.type policy_workspace_write),
)

check_read_only_iff :
    (got : SandboxPolicy) (roots : List Bytes)
    → (check_sandbox got (record { build = false; writable_roots = roots }) ≡ ok tt)
      ↔ Allowed got (record { build = false; writable_roots = roots })
unfolding check_sandbox
check_read_only_iff got roots = (
  λ h. ground (arith, eq_text_iff got.type policy_read_only),
  λ h. ground (arith, eq_text_iff got.type policy_read_only),
)

-- For distinct expected roots checkSandbox accepts exactly the requested policy: no network, and
-- either the read-only sandbox, or the workspace-write one without the temporary roots whose
-- writable roots are the expected ones.
pub check_sandbox_iff :
    (got : SandboxPolicy) (want : Sandbox)
    → Distinct want.writable_roots
    → (check_sandbox got want ≡ ok tt) ↔ Allowed got want
check_sandbox_iff got want d = elim (Bool-cases want.build) [
  | inl e ↦ rw e (check_build_iff got want.writable_roots d)
  | inr e ↦ rw e (check_read_only_iff got want.writable_roots)
]

-- What a response must say for its thread to be used.
pub record Complies (resp : ThreadResponse) (cwd : Bytes) (sb : Sandbox) : Type 0 where
  pub named : resp.thread_id ≢ []
  pub same_cwd : resp.cwd ≡ cwd
  pub never : resp.approval_policy ≡ some approval_never
  pub allowed : Allowed resp.sandbox sb

is_never_iff : (o : Option Bytes) → (is_never o ≡ true) ↔ (o ≡ some approval_never)
unfolding is_never
is_never_iff none = (λ h. absurd (cc), λ h. absurd (cc))
is_never_iff (some a) = (
  λ h. ground (arith, eq_text_iff a approval_never),
  λ h. ground (arith, eq_text_iff a approval_never),
)

checked :
    (resp : ThreadResponse) (cwd : Bytes) (sb : Sandbox) {t : Thread}
    → thread_from_response resp cwd sb ≡ ok t
    → (resp.thread_id ≢ [])
      × (resp.cwd ≡ cwd)
      × (resp.approval_policy ≡ some approval_never)
      × (check_sandbox resp.sandbox sb ≡ ok tt)
      × (t.id ≡ resp.thread_id)
unfolding thread_from_response
checked resp cwd sb h = ground (arith, eq_text_iff resp.cwd cwd, is_never_iff resp.approval_policy)

resumed_parts :
    (resp : ThreadResponse) (thread_id cwd : Bytes) (sb : Sandbox) {t : Thread}
    → resume_thread (some resp) thread_id cwd sb ≡ ok t
    → (resp.thread_id ≡ thread_id) × (thread_from_response resp cwd sb ≡ ok t)
unfolding resume_thread
resumed_parts resp thread_id cwd sb h = ground (arith, eq_text_iff resp.thread_id thread_id)

response-Complies :
    (resp : ThreadResponse) (cwd : Bytes) (sb : Sandbox) {t : Thread}
    → Distinct sb.writable_roots
    → thread_from_response resp cwd sb ≡ ok t
    → Complies resp cwd sb × (t.id ≡ resp.thread_id)
response-Complies resp cwd sb {t} d h =
    let (named, same, never, sandbox, id) = checked resp cwd sb {t = t} h in
    (
      record {
        named = named;
        same_cwd = same;
        never = never;
        allowed = (check_sandbox_iff resp.sandbox sb d).0 sandbox;
      },
      id,
    )

-- For a sandbox that names no writable root twice: a thread is resumed only as the one asked for, and
-- only when the server has reported the requested directory, the never approval policy and exactly
-- the requested sandbox.
pub resume_thread_ok :
    (resp : ThreadResponse) (thread_id cwd : Bytes) (sb : Sandbox) {t : Thread}
    → Distinct sb.writable_roots
    → resume_thread (some resp) thread_id cwd sb ≡ ok t
    → Complies resp cwd sb × (t.id ≡ thread_id)
resume_thread_ok resp thread_id cwd sb {t} d h =
    let (asked, accepted) = resumed_parts resp thread_id cwd sb {t = t} h in
    let (complies, id) = response-Complies resp cwd sb {t = t} d accepted in (complies, id ∙ asked)

-- A new thread is used only with a nonempty id, and only when the server has reported the requested
-- directory, the never approval policy and exactly the requested sandbox.
pub start_thread_ok :
    (resp : ThreadResponse) (cwd : Bytes) (sb : Sandbox) {t : Thread}
    → Distinct sb.writable_roots
    → start_thread (some resp) cwd sb ≡ ok t
    → Complies resp cwd sb × (t.id ≡ resp.thread_id)
unfolding start_thread
start_thread_ok resp cwd sb {t} d h = response-Complies resp cwd sb {t = t} d h
