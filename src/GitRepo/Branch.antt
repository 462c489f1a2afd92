-- ===== src/GitRepo/Branch.antt =====
-- internal/gitrepo/branch.go: local branches and the primary branch.
pub mod Names
use counterpoint.Prelude.{
  ◌≡◌, Bool, true, false, not, List, [], ◌∷◌, ◌++◌, Option, none, some, length, drop, is_empty,
  if◌then◌else◌, Result, ok, err, ◌>>=◌, ◌>>◌, refuse_if, refl,
}
use counterpoint.Prelude.Text.{Bytes, codes, has_prefix}
use counterpoint.State.ObjectId.{is_object_id}
use counterpoint.GitRepo.Command.{
  Git, GitError, invalid_branch, branch_not_found, no_primary_branch, unexpected_output, run, found,
}

abbrev pub heads_prefix : Bytes
heads_prefix = codes "refs/heads/"

abbrev pub remotes_prefix : Bytes
remotes_prefix = codes "refs/remotes/"

abbrev pub default_remote : Bytes
default_remote = codes "origin"

abbrev pub fallback_primary_names : List Bytes
fallback_primary_names = codes "main" ∷ codes "master" ∷ []

pub record Branch : Type 0 where
  pub name : Bytes
  pub ref : Bytes
  pub tip : Bytes

unfoldable pub normalize_branch_name : Bytes → Result GitError Bytes
normalize_branch_name name =
    if is_empty name
    then err invalid_branch
    else if has_prefix name heads_prefix
    then (let short = drop (length heads_prefix) name in
        if is_empty short then err invalid_branch else ok short)
    else if has_prefix name (codes "refs/")
    then err invalid_branch
    else if has_prefix name (codes "-")
    then err invalid_branch
    else ok name

-- The arguments that resolve a name, and nothing else, to an object id.
abbrev pub verify : Bytes → List Bytes
verify name =
    codes "rev-parse" ∷ codes "--verify" ∷ codes "--quiet" ∷ codes "--end-of-options" ∷ name ∷ []

is_there : Option Bytes → Bool
is_there none = false
is_there (some _) = true

unfoldable pub ref_exists : Git → Bytes → Bytes → Result GitError Bool
unfolding is_there
ref_exists g dir ref = do answer ← found (run g dir (verify ref)); ok (is_there answer)

unfoldable pub present : GitError → Option Bytes → Result GitError Bytes
present e none = err e
present e (some a) = ok a

-- The tip of a ref, or why there is none; a remote-tracking branch of the name makes no difference
-- to the kind of the error, but its lookup may fail.
unfoldable pub tip_of : Git → Bytes → Bytes → Option Bytes → Result GitError Bytes
tip_of g dir short (some tip) = do refuse_if (not (is_object_id tip)) unexpected_output; ok tip
tip_of g dir short none = do _ ← ref_exists g dir (remotes_prefix ++ short); err branch_not_found

unfoldable pub resolve_branch : Git → Bytes → Bytes → Result GitError Branch
unfolding tip_of present
resolve_branch g dir name = do
  short ← normalize_branch_name name
  let ref = heads_prefix ++ short
  checked ← found (run g dir (codes "check-ref-format" ∷ ref ∷ []))
  _ ← present invalid_branch checked
  answer ← found (run g dir (verify (ref ++ codes "^{commit}")))
  tip ← tip_of g dir short answer
  ok (record { name = short; ref = ref; tip = tip })

-- The first of the refs that exists.
first_existing : Git → Bytes → List Bytes → Result GitError (Option Bytes)
first_existing g dir [] = ok none
first_existing g dir (ref ∷ refs) = do
  exists ← ref_exists g dir ref
  if exists then ok (some ref) else first_existing g dir refs

primary_refs : Bytes → List Bytes
primary_refs name =
    (heads_prefix ++ name) ∷ (remotes_prefix ++ (default_remote ++ (codes "/" ++ name))) ∷ []

-- The local ref for name, otherwise the remote-tracking ref; `none` is ErrNoPrimaryBranch.
unfoldable pub primary_ref : Git → Bytes → Bytes → Result GitError (Option Bytes)
unfolding first_existing primary_refs
primary_ref g dir name = first_existing g dir (primary_refs name)

remote_name : Option Bytes → Result GitError Bytes
remote_name none = ok []
remote_name (some out) =
    let prefix = remotes_prefix ++ (default_remote ++ codes "/") in
    if has_prefix out prefix then ok (drop (length prefix) out) else err no_primary_branch

unfoldable pub remote_head_name : Git → Bytes → Result GitError Bytes
unfolding remote_name
remote_head_name g dir = do
  answer ← found (
      run g dir (
        codes "symbolic-ref"
        ∷ codes "--quiet"
        ∷ codes "--"
        ∷ (remotes_prefix ++ (default_remote ++ codes "/HEAD"))
        ∷ []))
  remote_name answer

-- The first name with a ref.
first_primary : Git → Bytes → List Bytes → Result GitError (Bytes × Bytes)
unfolding present
first_primary g dir [] = err no_primary_branch
first_primary g dir (name ∷ names) = do
  found_ref ← primary_ref g dir name
  elim found_ref [ some ref ↦ ok (name, ref) | none ↦ first_primary g dir names ]

unfoldable pub primary_branch : Git → Bytes → Result GitError (Bytes × Bytes)
unfolding first_primary
primary_branch g dir = do
  name ← remote_head_name g dir
  if is_empty name
      then first_primary g dir fallback_primary_names
      else first_primary g dir (name ∷ [])
