-- ===== src/GitRepo/Branch/Names.antt =====
-- internal/gitrepo/branch.go: the names that normalizeBranchName accepts, and the primary branch.
use counterpoint.Prelude.{
  Result-cases, ap, ◌∙◌, ◌≡◌, ◌≢◌, ◌↔◌, ◌⊎◌, inl, inr, refl, sym, true, false, List, [], ◌∷◌, ◌++◌,
  some, arith, ok, Bool-cases,
}
use counterpoint.Prelude.Text.{Bytes, codes, has_prefix, has_prefix_lem}
use counterpoint.GitRepo.Command.{Git}
use counterpoint.GitRepo.Branch.{
  remotes_prefix, default_remote, normalize_branch_name, heads_prefix, primary_branch, primary_ref,
  primary_refs, ref_exists, first_existing, first_primary, fallback_primary_names, remote_head_name,
}

-- `name` names the local branch `short`: in full, or by its short name.
abbrev pub Names : Bytes → Bytes → Type 0
Names name short =
    (short ≢ [])
    × ((name ≡ heads_prefix ++ short)
        ⊎ ((name ≡ short)
            × (has_prefix name (codes "refs/") ≡ false)
            × (has_prefix name (codes "-") ≡ false)))

heads_refs : (r : Bytes) → has_prefix (heads_prefix ++ r) (codes "refs/") ≡ true
unfolding has_prefix
heads_refs r = refl

full-normalize :
    (r short : Bytes)
    → (normalize_branch_name (heads_prefix ++ r) ≡ ok short) ↔ ((r ≡ short) × (r ≢ []))
unfolding normalize_branch_name has_prefix
full-normalize [] short = ground arith
full-normalize (x ∷ r) short = ground arith

short-normalize :
    (name short : Bytes)
    → has_prefix name heads_prefix ≡ false
    → (normalize_branch_name name ≡ ok short) ↔ (
        (name ≢ [])
        × (name ≡ short)
        × (has_prefix name (codes "refs/") ≡ false)
        × (has_prefix name (codes "-") ≡ false))
unfolding normalize_branch_name
short-normalize [] short h = ground arith
short-normalize (x ∷ name) short h = ground arith

heads_under_refs :
    (name : Bytes) → has_prefix name heads_prefix ≡ true → has_prefix name (codes "refs/") ≡ true
heads_under_refs name q = let (r, e) = has_prefix_lem name heads_prefix q in rw e (heads_refs r)

accepted : (name short : Bytes) → normalize_branch_name name ≡ ok short → Names name short
accepted name short h = elim (Bool-cases (has_prefix name heads_prefix)) [
  | inl q ↦
      let (r, e) = has_prefix_lem name heads_prefix q in
      let full : normalize_branch_name (heads_prefix ++ r) ≡ ok short =
        sym (ap normalize_branch_name e) ∙ h in
      let (same, ne) = (full-normalize r short).0 full in
      (λ z. ne (same ∙ z), inl (e ∙ ap (heads_prefix ++◌) same))
  | inr q ↦
      let (ne, same, refs, dash) = (short-normalize name short q).0 h in
      (λ z. ne (same ∙ z), inr (same, refs, dash))
]

accepts : (name short : Bytes) → Names name short → normalize_branch_name name ≡ ok short
accepts name short (ne, inl e) = rw e ((full-normalize short short).1 (refl, ne))
accepts name short (ne, inr (same, refs, dash)) = elim (Bool-cases (has_prefix name heads_prefix)) [
  | inl q ↦ let r = heads_under_refs name q in absurd (cc)
  | inr q ↦ (short-normalize name short q).1 (λ z. ne (sym same ∙ z), same, refs, dash)
]

-- normalizeBranchName accepts exactly the full ref of a branch with a nonempty name, and a nonempty
-- name that is under no other ref namespace and is no option; the result is the short name.
pub normalize_branch_name_iff :
    (name short : Bytes) → (normalize_branch_name name ≡ ok short) ↔ Names name short
normalize_branch_name_iff name short = (accepted name short, accepts name short)

-- What a primary branch is: a name and an existing ref of that name, a local one or origin's.
abbrev pub IsPrimary : Git → Bytes → Bytes → Bytes → Type 0
IsPrimary g dir name ref =
    (ref_exists g dir ref ≡ ok true)
    × ((ref ≡ heads_prefix ++ name)
        ⊎ ((ref ≡ remotes_prefix ++ (default_remote ++ (codes "/" ++ name)))
            × (ref_exists g dir (heads_prefix ++ name) ≡ ok false)))

primary_ref-IsPrimary :
    (g : Git) (dir name ref : Bytes)
    → primary_ref g dir name ≡ ok (some ref)
    → IsPrimary g dir name ref
unfolding primary_ref first_existing primary_refs
primary_ref-IsPrimary g dir name ref h = ground arith

first_primary-IsPrimary :
    (g : Git) (dir : Bytes) (names : List Bytes) (name ref : Bytes)
    → first_primary g dir names ≡ ok (name, ref)
    → IsPrimary g dir name ref
unfolding first_primary
first_primary-IsPrimary g dir [] name ref h = absurd (cc)
first_primary-IsPrimary g dir (n ∷ names) name ref h =
    ground (arith, primary_ref-IsPrimary g dir n ref, first_primary-IsPrimary g dir names name ref)

abbrev Among : Bytes → List Bytes → Type 0
Among name [] = ⊥
Among name (n ∷ names) = (name ≡ n) ⊎ Among name names

first_primary-Among :
    (g : Git) (dir : Bytes) (names : List Bytes) (name ref : Bytes)
    → first_primary g dir names ≡ ok (name, ref)
    → Among name names
unfolding first_primary
first_primary-Among g dir [] name ref h = absurd (cc)
first_primary-Among g dir (n ∷ names) name ref h =
    ground (arith, first_primary-Among g dir names name ref)

-- The primary branch has the name that origin's HEAD points at, or main or master when origin has
-- no HEAD, and a ref that exists: the local branch, or origin's only when there is no local one.
pub primary_branch-IsPrimary :
    (g : Git) (dir name ref : Bytes)
    → primary_branch g dir ≡ ok (name, ref)
    → IsPrimary g dir name ref
      × ((remote_head_name g dir ≡ ok name)
          ⊎ ((remote_head_name g dir ≡ ok []) × ((name ≡ codes "main") ⊎ (name ≡ codes "master"))))
unfolding primary_branch
primary_branch-IsPrimary g dir name ref h = elim (Result-cases (remote_head_name g dir)) [
  | inl ([], q) ↦ ground (
    arith,
    q,
    first_primary-IsPrimary g dir fallback_primary_names name ref,
    first_primary-Among g dir fallback_primary_names name ref,
  )
  | inl (b ∷ head, q) ↦ ground (
    arith,
    q,
    first_primary-IsPrimary g dir ((b ∷ head) ∷ []) name ref,
    first_primary-Among g dir ((b ∷ head) ∷ []) name ref,
  )
  | inr (e, q) ↦ ground (arith, q)
]
