-- ===== src/GitRepo/Checkout.antt =====
-- internal/gitrepo/checkout.go: the disposable checkout of a commit.
use counterpoint.Prelude.{
  ℕ, suc, Bool, false, not, ◌&&◌, List, [], ◌∷◌, ◌++◌, is_empty, ◌==◌, if◌then◌else◌, Result, ok,
  ◌>>=◌, ◌>>◌, refuse_if,
}
use counterpoint.Prelude.Text.{Bytes, codes}
use counterpoint.State.ObjectId.{is_object_id}
use counterpoint.GitRepo.Command.{Git, GitError, invalid_commit, max_stdout, run_bounded_env}

abbrev pub isolated_git_env : List Bytes
isolated_git_env =
    codes "GIT_CONFIG_GLOBAL=/dev/null"
    ∷ codes "GIT_CONFIG_SYSTEM=/dev/null"
    ∷ codes "GIT_CONFIG_NOSYSTEM=1"
    ∷ []

unfoldable pub clone_args : Bytes → Bytes → Bytes → List Bytes
clone_args hooks_dir common_dir dest =
    codes "-c"
    ∷ (codes "core.hooksPath=" ++ hooks_dir)
    ∷ codes "clone"
    ∷ codes "--quiet"
    ∷ codes "--shared"
    ∷ codes "--no-checkout"
    ∷ codes "--template="
    ∷ codes "--"
    ∷ common_dir
    ∷ dest
    ∷ []

unfoldable pub checkout_args : Bytes → Bytes → List Bytes
checkout_args hooks_dir commit =
    codes "-c"
    ∷ (codes "core.hooksPath=" ++ hooks_dir)
    ∷ codes "checkout"
    ∷ codes "--quiet"
    ∷ codes "--detach"
    ∷ commit
    ∷ codes "--"
    ∷ []

unfoldable pub clone_detached :
    Git → Bytes → Bytes → Bytes → Bytes → Bytes → Result GitError (Unit {0})
unfolding clone_args checkout_args
clone_detached g worktree common_dir dest commit hooks_dir = do
  refuse_if (not (is_object_id commit)) invalid_commit
  _ ← run_bounded_env g worktree max_stdout isolated_git_env (clone_args hooks_dir common_dir dest)
  _ ← run_bounded_env g dest max_stdout isolated_git_env (checkout_args hooks_dir commit)
  ok tt

-- len(strings.Split(out, "\n"))
line_count : Bytes → ℕ
line_count [] = 1
line_count (b ∷ out) = let n = line_count out in if b == b'\n' then suc n else n

-- The count, and whether the output was cut, which is reported with the count as an error.
unfoldable pub modified_tracked_files : Git → Bytes → Result GitError (ℕ × Bool)
unfolding line_count
modified_tracked_files g dir = do
  (out, truncated) ←
      run_bounded_env g dir max_stdout isolated_git_env
        (codes "status" ∷ codes "--porcelain" ∷ codes "--untracked-files=no" ∷ [])
  ok (if is_empty out && not truncated then (0, false) else (line_count out, truncated))
