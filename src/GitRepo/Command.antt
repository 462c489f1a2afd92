-- ===== src/GitRepo/Command.antt =====
-- internal/gitrepo/git.go: one git command, its bounded output, and the meaning of its failure. What
-- the process does is an argument.
pub mod Limits
use counterpoint.Prelude.{
  ◌&&◌, leb, Option, none, some, ℕ, Bool, true, false, not, ◌||◌, List, [], ◌∷◌, ◌++◌, length, take,
  ltb, ◌==◌, if◌then◌else◌, Result, ok, err, ◌>>=◌, ◌>>◌, refuse_if,
}
use counterpoint.Prelude.Text.{Bytes, codes, has_prefix, contains}
use counterpoint.Prelude.Trim.{trim_space, trim_right}
use counterpoint.GitRepo.Buffer.{BoundedBuffer, bounded_buffer, write_all}

abbrev pub max_stdout : ℕ
max_stdout = 1048576

abbrev pub max_stderr : ℕ
max_stderr = 65536

abbrev pub max_error_output : ℕ
max_error_output = 512

abbrev pub exit_not_found : ℕ
exit_not_found = 1

-- What a git process does: it writes its output, it exits with another status after its diagnostics,
-- the context ends it, or it cannot be run.
pub data Ran : Type 0 where
  succeeded : List Bytes → Ran
  exited : ℕ → List Bytes → Ran
  interrupted not_run : Ran

-- git, in one state of the machine: the directory, the extra environment and the arguments.
abbrev pub Git : Type 0
Git = Bytes → List Bytes → List Bytes → Ran

pub data GitError : Type 0 where
  context_ended launch_failed output_too_large unexpected_output : GitError
  exit_error : ℕ → Bytes → GitError
  invalid_branch branch_not_found no_primary_branch : GitError
  commit_not_found primary_branch_refused not_branch_tip not_head dirty_worktree : GitError
  no_merge_base invalid_commit instructions_invalid : GitError
  not_absolute not_repository unresolved : GitError

abbrev pub git_env_blocklist : List Bytes
git_env_blocklist =
    codes "GIT_DIR="
    ∷ codes "GIT_WORK_TREE="
    ∷ codes "GIT_INDEX_FILE="
    ∷ codes "GIT_COMMON_DIR="
    ∷ codes "GIT_OBJECT_DIRECTORY="
    ∷ codes "GIT_ALTERNATE_OBJECT_DIRECTORIES="
    ∷ codes "GIT_NAMESPACE="
    ∷ codes "GIT_TERMINAL_PROMPT="
    ∷ codes "LC_ALL="
    ∷ codes "GIT_OPTIONAL_LOCKS="
    ∷ []

unfoldable pub has_one_of : List Bytes → Bytes → Bool
has_one_of [] kv = false
has_one_of (p ∷ prefixes) kv = has_prefix kv p || has_one_of prefixes kv

unfoldable pub blocked : Bytes → Bool
unfolding has_one_of
blocked kv = has_one_of git_env_blocklist kv

abbrev pub pinned : List Bytes
pinned = codes "GIT_TERMINAL_PROMPT=0" ∷ codes "LC_ALL=C" ∷ codes "GIT_OPTIONAL_LOCKS=0" ∷ []

unfoldable pub unblocked : List Bytes → List Bytes
unblocked [] = []
unblocked (kv ∷ env) = let rest = unblocked env in if blocked kv then rest else kv ∷ rest

unfoldable pub clean_env : List Bytes → List Bytes
unfolding unblocked
clean_env env = unblocked env ++ pinned

unfoldable pub truncate : Bytes → Bytes
truncate s =
    let t = trim_space s in
    if ltb max_error_output (length t) then take max_error_output t ++ codes "..." else t

unfoldable pub result_of : ℕ → Ran → Result GitError (Bytes × Bool)
unfolding truncate write_all
result_of limit (succeeded writes) =
    let stdout = write_all (bounded_buffer limit) writes in
    ok (trim_right b'\n' stdout.buf, stdout.overflow)
result_of limit (exited code writes) =
    err (exit_error code (truncate (write_all (bounded_buffer max_stderr) writes).buf))
result_of limit interrupted = err context_ended
result_of limit not_run = err launch_failed

unfoldable pub run_bounded_env :
    Git → Bytes → ℕ → List Bytes → List Bytes → Result GitError (Bytes × Bool)
unfolding result_of
run_bounded_env g dir limit extra args = result_of limit (g dir extra args)

unfoldable pub run_bounded : Git → Bytes → ℕ → List Bytes → Result GitError (Bytes × Bool)
run_bounded g dir limit args = run_bounded_env g dir limit [] args

unfoldable pub run_with_limit : Git → Bytes → ℕ → List Bytes → Result GitError Bytes
run_with_limit g dir limit args = do
  (out, truncated) ← run_bounded g dir limit args
  refuse_if truncated output_too_large
  ok out

unfoldable pub run : Git → Bytes → List Bytes → Result GitError Bytes
run g dir args = run_with_limit g dir max_stdout args

unfoldable pub is_not_found : GitError → Bool
is_not_found (exit_error code stderr) = code == exit_not_found
is_not_found _ = false

-- A query whose "does not exist" is an answer.
unfoldable pub found : {A : Type 0} → Result GitError A → Result GitError (Option A)
unfolding is_not_found
found (ok a) = ok (some a)
found (err e) = if is_not_found e then ok none else err e
