-- ===== src/GitRepo/Target/Validated.antt =====
-- internal/gitrepo/target.go: what ValidateTarget accepts, in terms of what git answers.
use counterpoint.Prelude.{Result-cases, inl, inr, ◌≡◌, ◌≢◌, ◌↔◌, arith, ok, refl}
use counterpoint.Prelude.Text.{Bytes, codes, eq_text_iff, eq_text_refl, has_prefix}
use counterpoint.GitRepo.Command.{Git}
use counterpoint.GitRepo.Branch.{resolve_branch, primary_branch}
use counterpoint.GitRepo.Target.{Target, resolve_commit, require_clean, merge_base, validate_target}
use counterpoint.GitRepo.Target.Answers.{
  IsCommit, IsNamed, IsMergeBase, IsClean, IsBranch, IsRewritten, rewritten, resolve_commit_iff,
  based_iff, clean_iff, branch_to, branch_from, rewritten_to, rewritten_from,
}

pub record IsValidated (g : Git) (dir branch_name commitish previous_tip : Bytes) (t : Target)
    : Type 0 where
  pub on_branch : IsBranch g dir branch_name t.branch
  pub primary : primary_branch g dir ≡ ok (t.primary_name, t.primary_ref)
  pub not_primary : t.branch.name ≢ t.primary_name
  pub named : IsNamed g dir commitish t.commit
  pub at_tip : t.commit ≡ t.branch.tip
  pub at_head : IsCommit g dir (codes "HEAD") t.commit
  pub clean : IsClean g dir
  pub based : IsMergeBase g dir t.primary_ref t.commit t.base
  pub rewritten_since : IsRewritten g dir previous_tip t.commit t.history_rewritten

module _ (g : Git) (dir branch_name commitish previous_tip : Bytes) (t : Target) where
  -- The steps of ValidateTarget, each with its result.
  record Steps : Type 0 where
    branch_ok : resolve_branch g dir branch_name ≡ ok t.branch
    primary_ok : primary_branch g dir ≡ ok (t.primary_name, t.primary_ref)
    other_name : t.branch.name ≢ t.primary_name
    commit_ok : resolve_commit g dir commitish ≡ ok t.commit
    tip_ok : t.commit ≡ t.branch.tip
    head_ok : resolve_commit g dir (codes "HEAD") ≡ ok t.commit
    clean_ok : require_clean g dir ≡ ok tt
    base_ok : merge_base g dir t.primary_ref t.commit ≡ ok t.base
    rewritten_ok : rewritten g dir previous_tip t.commit ≡ ok t.history_rewritten

  taken : validate_target g dir branch_name commitish previous_tip ≡ ok t → Steps
  unfolding validate_target rewritten
  taken h = elim (Result-cases (resolve_commit g dir (codes "HEAD"))) [
    | inl (head, q) ↦ ground (
      arith,
      q,
      eq_text_iff head t.commit,
      eq_text_iff t.commit t.branch.tip,
      eq_text_iff t.branch.name t.primary_name,
    )
    | inr (e, q) ↦ ground (arith, q)
  ]

  gives : Steps → validate_target g dir branch_name commitish previous_tip ≡ ok t
  unfolding validate_target rewritten
  gives h = ground (
    arith,
    h.branch_ok,
    h.primary_ok,
    h.commit_ok,
    h.tip_ok,
    h.head_ok,
    h.clean_ok,
    h.base_ok,
    h.rewritten_ok,
    eq_text_refl t.commit,
    eq_text_iff t.branch.name t.primary_name,
  )

  accepted :
      validate_target g dir branch_name commitish previous_tip ≡ ok t
      → IsValidated g dir branch_name commitish previous_tip t
  accepted h =
      let s = taken h in
      record {
        on_branch = branch_to g dir branch_name t.branch s.branch_ok;
        primary = s.primary_ok;
        not_primary = s.other_name;
        named = (resolve_commit_iff g dir commitish t.commit).0 s.commit_ok;
        at_tip = s.tip_ok;
        at_head = ((resolve_commit_iff g dir (codes "HEAD") t.commit).0 s.head_ok).commit;
        clean = (clean_iff g dir _ refl).0 s.clean_ok;
        based = (based_iff g dir t.primary_ref t.commit t.base _ refl).0 s.base_ok;
        rewritten_since =
            rewritten_to g dir previous_tip t.commit t.history_rewritten s.rewritten_ok;
      }

  accepts :
      IsValidated g dir branch_name commitish previous_tip t
      → validate_target g dir branch_name commitish previous_tip ≡ ok t
  unfolding has_prefix
  accepts h = gives (record {
    branch_ok = branch_from g dir branch_name t.branch h.on_branch;
    primary_ok = h.primary;
    other_name = h.not_primary;
    commit_ok = (resolve_commit_iff g dir commitish t.commit).1 h.named;
    tip_ok = h.at_tip;
    head_ok =
        (resolve_commit_iff g dir (codes "HEAD") t.commit).1
          (record { not_empty = refl; no_option = refl; commit = h.at_head });
    clean_ok = (clean_iff g dir _ refl).1 h.clean;
    base_ok = (based_iff g dir t.primary_ref t.commit t.base _ refl).1 h.based;
    rewritten_ok = rewritten_from g dir previous_tip t.commit t.history_rewritten h.rewritten_since;
  })

  -- ValidateTarget accepts exactly a commit that git resolves to a full object id, that is the tip
  -- of the local branch asked for, under refs/heads/, and the HEAD of the worktree, when git's
  -- status, complete within its bound, lists no change; the branch is not the primary one, and git
  -- finds a merge base with the primary branch. The history counts as rewritten exactly when an
  -- earlier tip was given that git does not know or that is no ancestor of the commit.
  pub validate_target_iff :
      (validate_target g dir branch_name commitish previous_tip ≡ ok t)
      ↔ IsValidated g dir branch_name commitish previous_tip t
  validate_target_iff = (accepted, accepts)
