-- ===== src/GitRepo/Repository.antt =====
-- internal/gitrepo/repo.go: opening the worktree that a path belongs to. The file system is an
-- argument.
use counterpoint.Prelude.{
  ℕ, Bool, false, not, ◌||◌, List, [], ◌∷◌, Option, none, some, is_empty, ◌==◌, if◌then◌else◌,
  Result, ok, err, ◌>>=◌, ◌>>◌, refuse_if,
}
use counterpoint.Prelude.Text.{Bytes, codes, contains}
use counterpoint.GitRepo.Command.{
  Git, GitError, exit_error, not_absolute, not_repository, unresolved, run,
}

-- path/filepath: whether a path is absolute, its join with another, and the path with its symbolic
-- links resolved.
pub record Paths : Type 0 where
  pub is_abs : Bytes → Bool
  pub join : Bytes → Bytes → Bytes
  pub eval_symlinks : Bytes → Option Bytes

pub record Repository : Type 0 where
  pub worktree : Bytes
  pub common_dir : Bytes

abbrev pub not_worktree_messages : List Bytes
not_worktree_messages = codes "not a git repository" ∷ codes "must be run in a work tree" ∷ []

contains_one_of : List Bytes → Bytes → Bool
contains_one_of [] stderr = false
contains_one_of (m ∷ ms) stderr = contains stderr m || contains_one_of ms stderr

unfoldable pub is_not_worktree : GitError → Bool
unfolding contains_one_of
is_not_worktree (exit_error code stderr) = contains_one_of not_worktree_messages stderr
is_not_worktree _ = false

resolved : Option Bytes → Result GitError Bytes
resolved none = err unresolved
resolved (some p) = ok p

worktree_error : Result GitError Bytes → Result GitError Bytes
worktree_error (ok out) = ok out
worktree_error (err e) = err (if is_not_worktree e then not_repository else e)

push : ℕ → List Bytes → List Bytes
push b [] = (b ∷ []) ∷ []
push b (l ∷ ls) = (b ∷ l) ∷ ls

-- strings.Split(out, "\n")
unfoldable pub split_lines : Bytes → List Bytes
unfolding push
split_lines [] = [] ∷ []
split_lines (b ∷ out) = let ls = split_lines out in if b == b'\n' then [] ∷ ls else push b ls

two_lines : List Bytes → Result GitError (Bytes × Bytes)
two_lines (a ∷ b ∷ []) = if is_empty a || is_empty b then err not_repository else ok (a, b)
two_lines _ = err not_repository

unfoldable pub open_repository : Paths → Git → Bytes → Result GitError Repository
unfolding resolved worktree_error two_lines
open_repository fs g path = do
  refuse_if (not (fs.is_abs path)) not_absolute
  dir ← resolved (fs.eval_symlinks path)
  out ←
      worktree_error
        (run g dir (codes "rev-parse" ∷ codes "--show-toplevel" ∷ codes "--git-common-dir" ∷ []))
  (top, common) ← two_lines (split_lines out)
  worktree ← resolved (fs.eval_symlinks top)
  common_dir ← resolved (fs.eval_symlinks (if fs.is_abs common then common else fs.join dir common))
  ok (record { worktree = worktree; common_dir = common_dir })
