-- ===== src/GitRepo/Target/Answers.antt =====
-- internal/gitrepo/target.go: what the steps of ValidateTarget find, in terms of what git answers.
use counterpoint.Prelude.{
  Result-cases, Bool-cases, inl, inr, ◌≡◌, ◌≢◌, ◌↔◌, ◌⊎◌, Bool, true, false, List, [], ◌∷◌, ◌++◌,
  ◌∙◌, ap, ℕ, arith, ok, err, Result, is_empty, if◌then◌else◌, refl,
}
use counterpoint.Prelude.Text.{Bytes, codes, has_prefix}
use counterpoint.GitRepo.Command.{
  Git, GitError, exit_error, commit_not_found, max_stdout, Ran, succeeded, exited, interrupted,
  not_run, result_of, run, run_with_limit, run_bounded_env, run_bounded, found, is_not_found,
}
use counterpoint.GitRepo.Branch.{
  heads_prefix, normalize_branch_name, Branch, verify, resolve_branch, tip_of, present,
}
use counterpoint.State.ObjectId.{is_object_id}
use counterpoint.GitRepo.Target.{
  resolve_commit, require_clean, require_clean_bounded, merge_base, full_id, known_commit,
  is_missing, history_rewritten_since,
}

module _ (g : Git) (dir : Bytes) where
  -- git resolves a revision to a commit with this full object id.
  pub record IsCommit (revision oid : Bytes) : Type 0 where
    pub resolved : run g dir (verify (revision ++ codes "^{commit}")) ≡ ok oid
    pub full : is_object_id oid ≡ true

  -- A revision that a caller gives: it is not empty and no option.
  pub record IsNamed (revision oid : Bytes) : Type 0 where
    pub not_empty : is_empty revision ≡ false
    pub no_option : has_prefix revision (codes "-") ≡ false
    pub commit : IsCommit revision oid

  resolved_iff :
      (revision oid : Bytes) (r : Result GitError Bytes)
      → run g dir (verify (revision ++ codes "^{commit}")) ≡ r
      → (resolve_commit g dir revision ≡ ok oid) ↔ IsNamed revision oid
  unfolding resolve_commit found full_id is_not_found
  resolved_iff revision oid (ok out) q =
      (λ h. ground (arith, q), λ h. ground (arith, q, h.commit.resolved))
  resolved_iff revision oid (err e) q =
      (λ h. absurd (ground (arith, q)), λ h. absurd (ground (arith, q, h.commit.resolved)))

  pub resolve_commit_iff :
      (revision oid : Bytes) → (resolve_commit g dir revision ≡ ok oid) ↔ IsNamed revision oid
  resolve_commit_iff revision oid = resolved_iff revision oid _ refl

  -- git finds a common ancestor of the two.
  pub record IsMergeBase (ref commit base : Bytes) : Type 0 where
    pub answer : run g dir (codes "merge-base" ∷ codes "--" ∷ ref ∷ commit ∷ []) ≡ ok base
    pub full_base : is_object_id base ≡ true

  pub based_iff :
      (ref commit base : Bytes) (r : Result GitError Bytes)
      → run g dir (codes "merge-base" ∷ codes "--" ∷ ref ∷ commit ∷ []) ≡ r
      → (merge_base g dir ref commit ≡ ok base) ↔ IsMergeBase ref commit base
  unfolding merge_base found full_id is_not_found
  based_iff ref commit base (ok out) q = (λ h. ground (arith, q), λ h. ground (arith, q, h.answer))
  based_iff ref commit base (err e) q =
      (λ h. absurd (ground (arith, q)), λ h. absurd (ground (arith, q, h.answer)))

  -- git reports no change, within the bound on its output.
  abbrev pub IsClean : Type 0
  IsClean =
      run_bounded g dir max_stdout
        (codes "status" ∷ codes "--porcelain" ∷ codes "--untracked-files=normal" ∷ [])
      ≡ ok ([], false)

  pub clean_iff :
      (r : Result GitError (Bytes × Bool))
      → run_bounded g dir max_stdout
          (codes "status" ∷ codes "--porcelain" ∷ codes "--untracked-files=normal" ∷ [])
        ≡ r
      → (require_clean g dir ≡ ok tt) ↔ IsClean
  unfolding require_clean require_clean_bounded
  clean_iff (ok ([], false)) q = (λ h. q, λ h. ground (arith, q))
  clean_iff (ok ([], true)) q =
      (λ h. absurd (ground (arith, q)), λ h. absurd (ground (arith, q, h)))
  clean_iff (ok (b ∷ out, t)) q =
      (λ h. absurd (ground (arith, q)), λ h. absurd (ground (arith, q, h)))
  clean_iff (err e) q = (λ h. absurd (ground (arith, q)), λ h. absurd (ground (arith, q, h)))

  -- The branch asked for, which git has under refs/heads/.
  pub record IsBranch (name : Bytes) (b : Branch) : Type 0 where
    pub normalized : normalize_branch_name name ≡ ok b.name
    pub local : b.ref ≡ heads_prefix ++ b.name
    pub well_formed : (out : Bytes) × (run g dir (codes "check-ref-format" ∷ b.ref ∷ []) ≡ ok out)
    pub tip_is : IsCommit b.ref b.tip

  pub branch_to : (name : Bytes) (b : Branch) → resolve_branch g dir name ≡ ok b → IsBranch name b
  unfolding resolve_branch present tip_of found is_not_found
  branch_to name b h =
      elim (Result-cases (run g dir (codes "check-ref-format" ∷ (heads_prefix ++ b.name) ∷ []))) [
        | inl (out, q) ↦ record {
          normalized = ground arith;
          local = ground arith;
          well_formed = (out, ground (arith, q));
          tip_is = ground (arith, q);
        }
        | inr (e, q) ↦ absurd (ground (arith, q))
      ]

  pub branch_from : (name : Bytes) (b : Branch) → IsBranch name b → resolve_branch g dir name ≡ ok b
  unfolding resolve_branch present tip_of found
  branch_from name b h =
      ground (arith, h.normalized, h.local, h.well_formed, h.tip_is.resolved, h.tip_is.full)

  -- git knows the commit of an earlier tip, or has none of that name.
  abbrev IsGone : Bytes → Type 0
  IsGone tip =
      (has_prefix tip (codes "-") ≡ true)
      ⊎ ((stderr : Bytes) × (run g dir (verify (tip ++ codes "^{commit}"))
            ≡ err (exit_error 1 stderr)))

  abbrev ancestry : Bytes → Bytes → Result GitError Bytes
  ancestry tip commit =
      run g dir (codes "merge-base" ∷ codes "--is-ancestor" ∷ codes "--" ∷ tip ∷ commit ∷ [])

  -- Whether the history since an earlier tip was rewritten: not without such a tip, and not when it
  -- is an ancestor of the commit; it was when git has no such commit, or it is no ancestor.
  abbrev pub IsRewritten : Bytes → Bytes → Bool → Type 0
  IsRewritten tip commit true =
      (is_empty tip ≡ false)
      × (IsGone tip
          ⊎ ((oid stderr : Bytes) × IsNamed tip oid
              × (ancestry tip commit ≡ err (exit_error 1 stderr))))
  IsRewritten tip commit false =
      (is_empty tip ≡ true) ⊎ ((oid out : Bytes) × IsNamed tip oid × (ancestry tip commit ≡ ok out))

  unfoldable pub rewritten : Bytes → Bytes → Result GitError Bool
  rewritten tip commit = if is_empty tip then ok false else history_rewritten_since g dir tip commit

  not_found_lem :
      (e : GitError) → is_not_found e ≡ true → (stderr : Bytes) × (e ≡ exit_error 1 stderr)
  unfolding is_not_found
  not_found_lem (exit_error code stderr) h = (stderr, ground arith)
  not_found_lem _ h = absurd (cc)

  result_not_missing : (limit : ℕ) (r : Ran) → result_of limit r ≢ err commit_not_found
  unfolding result_of
  result_not_missing limit (succeeded writes) h = cc
  result_not_missing limit (exited code writes) h = cc
  result_not_missing limit interrupted h = cc
  result_not_missing limit not_run h = cc

  run_not_missing : (args : List Bytes) → run g dir args ≢ err commit_not_found
  unfolding run run_with_limit run_bounded run_bounded_env
  run_not_missing args h = ground (arith, result_not_missing max_stdout (g dir [] args))

  gone_lem :
      (tip : Bytes) (r : Result GitError Bytes)
      → run g dir (verify (tip ++ codes "^{commit}")) ≡ r
      → is_empty tip ≡ false
      → resolve_commit g dir tip ≡ err commit_not_found
      → IsGone tip
  unfolding resolve_commit found full_id
  gone_lem tip (ok out) q n h = inl (ground (arith, q))
  gone_lem tip (err e) q n h = elim (Bool-cases (has_prefix tip (codes "-"))) [
    | inl dash ↦ inl dash
    | inr named ↦ elim (Bool-cases (is_not_found e)) [
      | inl missing ↦ let (stderr, same) = not_found_lem e missing in inr (stderr, q ∙ ap err same)
      | inr other ↦ absurd (run_not_missing (verify (tip ++ codes "^{commit}")) (ground (arith, q)))
    ]
  ]

  known_lem :
      (e : GitError) (x : Bool) → known_commit (err e) ≡ ok x → (e ≡ commit_not_found) × (x ≡ false)
  unfolding known_commit
  known_lem commit_not_found x h = (refl, ground arith)
  known_lem _ x h = absurd (cc)

  missing_lem :
      (tip commit : Bytes) (b : Bool) (e : GitError)
      → resolve_commit g dir tip ≡ err e
      → history_rewritten_since g dir tip commit ≡ ok b
      → (e ≡ commit_not_found) × (b ≡ true)
  unfolding history_rewritten_since
  missing_lem tip commit b e p h = elim (Result-cases (known_commit (err e))) [
    | inl (x, k) ↦ let (same, fails) = known_lem e x k in (same, ground (arith, p, k, fails))
    | inr (f, k) ↦ absurd (ground (arith, p, k))
  ]

  unrelated_lem :
      (tip commit oid : Bytes) (b : Bool) (e : GitError)
      → resolve_commit g dir tip ≡ ok oid
      → ancestry tip commit ≡ err e
      → history_rewritten_since g dir tip commit ≡ ok b
      → (is_not_found e ≡ true) × (b ≡ true)
  unfolding history_rewritten_since known_commit found is_missing
  unrelated_lem tip commit oid b e p q h = ground (arith, p, q)

  history_to :
      (tip commit : Bytes) (b : Bool) (k : Result GitError Bytes) (r : Result GitError Bytes)
      → resolve_commit g dir tip ≡ k
      → ancestry tip commit ≡ r
      → is_empty tip ≡ false
      → history_rewritten_since g dir tip commit ≡ ok b
      → IsRewritten tip commit b
  unfolding history_rewritten_since found known_commit is_missing
  history_to tip commit true (ok oid) (ok out) p q n h = absurd (ground (arith, p, q))
  history_to tip commit false (ok oid) (ok out) p q n h =
      inr (oid, out, (resolve_commit_iff tip oid).0 p, q)
  history_to tip commit true (ok oid) (err e) p q n h =
      let (missing, _) = unrelated_lem tip commit oid true e p q h in
      let (stderr, same) = not_found_lem e missing in
      (n, inr (oid, stderr, (resolve_commit_iff tip oid).0 p, q ∙ ap err same))
  history_to tip commit false (ok oid) (err e) p q n h =
      let (_, holds) = unrelated_lem tip commit oid false e p q h in absurd (cc)
  history_to tip commit true (err e) r p q n h =
      let (same, _) = missing_lem tip commit true e p h in
      (n, inl (gone_lem tip _ refl n (p ∙ ap err same)))
  history_to tip commit false (err e) r p q n h =
      let (_, holds) = missing_lem tip commit false e p h in absurd (cc)

  gone_from :
      (tip : Bytes)
      → is_empty tip ≡ false
      → IsGone tip
      → resolve_commit g dir tip ≡ err commit_not_found
  unfolding resolve_commit found full_id is_not_found
  gone_from tip n (inl dash) = ground (arith, dash)
  gone_from tip n (inr (stderr, q)) = ground (arith, q)

  pub rewritten_to :
      (tip commit : Bytes) (b : Bool) → rewritten tip commit ≡ ok b → IsRewritten tip commit b
  unfolding rewritten
  rewritten_to tip commit b h = elim (Bool-cases (is_empty tip)) [
    | inl q ↦ none_before b (rw q at h) q
    | inr q ↦ history_to tip commit b _ _ refl refl q (rw q at h)
  ]
    where
      none_before :
          (b : Bool)
          → Path (Result GitError Bool) (ok false) (ok b)
          → is_empty tip ≡ true
          → IsRewritten tip commit b
      none_before true h q = absurd (cc)
      none_before false h q = inl q

  pub rewritten_from :
      (tip commit : Bytes) (b : Bool) → IsRewritten tip commit b → rewritten tip commit ≡ ok b
  unfolding rewritten history_rewritten_since found known_commit is_missing is_not_found
  rewritten_from tip commit true (n, inl gone) = ground (arith, n, gone_from tip n gone)
  rewritten_from tip commit true (n, inr (oid, stderr, named, q)) =
      ground (arith, n, q, (resolve_commit_iff tip oid).1 named)
  rewritten_from tip commit false (inl n) = ground (arith, n)
  rewritten_from tip commit false (inr (oid, out, named, q)) =
      ground (arith, q, named.not_empty, (resolve_commit_iff tip oid).1 named)
