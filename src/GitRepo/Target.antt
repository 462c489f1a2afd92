-- ===== src/GitRepo/Target.antt =====
-- internal/gitrepo/target.go: validation of a review target.
pub mod Answers
pub mod Validated
use counterpoint.Prelude.{
  ℕ, Bool, true, false, not, ◌&&◌, ◌||◌, List, [], ◌∷◌, ◌++◌, Option, none, some, is_empty,
  if◌then◌else◌, Result, ok, err, ◌>>=◌, ◌>>◌, refuse_if,
}
use counterpoint.Prelude.Text.{Bytes, codes, eq_text, has_prefix}
use counterpoint.State.ObjectId.{is_object_id}
use counterpoint.GitRepo.Command.{
  Git, GitError, commit_not_found, unexpected_output, dirty_worktree, no_merge_base,
  primary_branch_refused, not_branch_tip, not_head, max_stdout, run, run_bounded, found,
}
use counterpoint.GitRepo.Branch.{Branch, verify, resolve_branch, primary_branch}

pub record Target : Type 0 where
  pub branch : Branch
  pub commit : Bytes
  pub base : Bytes
  pub primary_name : Bytes
  pub primary_ref : Bytes
  pub history_rewritten : Bool

-- An answer that must be there and be a full object id.
unfoldable pub full_id : GitError → Option Bytes → Result GitError Bytes
full_id missing none = err missing
full_id missing (some oid) = do refuse_if (not (is_object_id oid)) unexpected_output; ok oid

unfoldable pub resolve_commit : Git → Bytes → Bytes → Result GitError Bytes
unfolding full_id
resolve_commit g dir commitish = do
  refuse_if (is_empty commitish || has_prefix commitish (codes "-")) commit_not_found
  answer ← found (run g dir (verify (commitish ++ codes "^{commit}")))
  full_id commit_not_found answer

-- The status output is cut at `limit` bytes.
unfoldable pub require_clean_bounded : Git → Bytes → ℕ → Result GitError (Unit {0})
require_clean_bounded g dir limit = do
  (out, truncated) ←
      run_bounded g dir limit
        (codes "status" ∷ codes "--porcelain" ∷ codes "--untracked-files=normal" ∷ [])
  refuse_if (not (is_empty out && not truncated)) dirty_worktree

unfoldable pub require_clean : Git → Bytes → Result GitError (Unit {0})
require_clean g dir = require_clean_bounded g dir max_stdout

unfoldable pub merge_base : Git → Bytes → Bytes → Bytes → Result GitError Bytes
unfolding full_id
merge_base g dir ref commit = do
  answer ← found (run g dir (codes "merge-base" ∷ codes "--" ∷ ref ∷ commit ∷ []))
  full_id no_merge_base answer

unfoldable pub is_missing : Option Bytes → Bool
is_missing none = true
is_missing (some _) = false

unfoldable pub known_commit : Result GitError Bytes → Result GitError Bool
known_commit (ok oid) = ok true
known_commit (err commit_not_found) = ok false
known_commit (err e) = err e

-- A previous tip that is gone, or is no ancestor of the commit.
unfoldable pub history_rewritten_since : Git → Bytes → Bytes → Bytes → Result GitError Bool
unfolding known_commit is_missing
history_rewritten_since g dir previous_tip commit = do
  known ← known_commit (resolve_commit g dir previous_tip)
  let ancestor =
      run g dir
        (codes "merge-base" ∷ codes "--is-ancestor" ∷ codes "--" ∷ previous_tip ∷ commit ∷ [])
  if known then (do answer ← found ancestor; ok (is_missing answer)) else ok true

unfoldable pub validate_target : Git → Bytes → Bytes → Bytes → Bytes → Result GitError Target
validate_target g dir branch_name commitish previous_tip = do
  branch ← resolve_branch g dir branch_name
  (primary_name, primary_ref) ← primary_branch g dir
  refuse_if (eq_text branch.name primary_name) primary_branch_refused
  commit ← resolve_commit g dir commitish
  refuse_if (not (eq_text commit branch.tip)) not_branch_tip
  head ← resolve_commit g dir (codes "HEAD")
  refuse_if (not (eq_text head commit)) not_head
  require_clean g dir
  base ← merge_base g dir primary_ref commit
  rewritten ←
      if is_empty previous_tip then ok false else history_rewritten_since g dir previous_tip commit
  ok (record {
    branch = branch;
    commit = commit;
    base = base;
    primary_name = primary_name;
    primary_ref = primary_ref;
    history_rewritten = rewritten;
  })
