-- ===== src/Tests/GitRepo.antt =====
-- The validation of targets at a concrete git.
use counterpoint.Prelude.Trim.{trim_right}
use counterpoint.State.ObjectId.{is_object_id}
use counterpoint.Prelude.{
  ◌≡◌, ◌↔◌, ◌⊎◌, refl, false, List, [], ◌∷◌, ◌++◌, ok, length, take, ltb, if◌then◌else◌,
}
use counterpoint.Prelude.Text.{has_prefix, Bytes, codes, eq_text}
use counterpoint.GitRepo.Buffer.{bounded_buffer, write_all, write_all_bounds, concat}
use counterpoint.GitRepo.Command.{
  run_bounded_env, run_bounded, run_with_limit, run, found, Git, Ran, succeeded, exited, not_run,
}
use counterpoint.GitRepo.Branch.{
  resolve_branch, ref_exists, primary_ref, normalize_branch_name, primary_branch, remote_head_name,
}
use counterpoint.GitRepo.Branch.Names.{
  Names, normalize_branch_name_iff, IsPrimary, primary_branch-IsPrimary,
}
use counterpoint.GitRepo.Target.{
  merge_base, require_clean_bounded, require_clean, resolve_commit, Target, validate_target,
}
use counterpoint.GitRepo.Target.Validated.{IsValidated, validate_target_iff}

write_all_bounds_example :
    let b = write_all (bounded_buffer 3) (codes "ab" ∷ codes "cd" ∷ []) in
    (b.buf ≡ take 3 (concat (codes "ab" ∷ codes "cd" ∷ [])))
    × (b.overflow ≡ ltb 3 (length (concat (codes "ab" ∷ codes "cd" ∷ []))))
write_all_bounds_example = write_all_bounds 3 (codes "ab" ∷ codes "cd" ∷ []) (refl, (refl, tt))

abbrev oid : Bytes
oid = codes "aaaaaaaaaaaaaaaaaaaaaaaaaaaaaaaaaaaaaaaa"

-- A clean repository with one commit, where origin has no HEAD.
answer : List Bytes → Ran
answer (cmd ∷ option ∷ _) =
    if eq_text cmd (codes "status")
    then succeeded []
    else if eq_text cmd (codes "symbolic-ref")
    then exited 1 []
    else if eq_text cmd (codes "ls-tree")
    then succeeded ((codes "100644 blob " ++ (oid ++ codes "\tCOUNTERPOINT.md")) ∷ [])
    else if eq_text cmd (codes "cat-file")
    then succeeded ((if eq_text option (codes "-s") then codes "5" else codes "Notes") ∷ [])
    else succeeded (oid ∷ [])
answer _ = not_run

abbrev git : Git
git = λ dir env args. answer args

abbrev dir : Bytes
dir = codes "/r"

normalize_branch_name_iff_example :
    (normalize_branch_name (codes "refs/heads/topic") ≡ ok (codes "topic"))
    ↔ Names (codes "refs/heads/topic") (codes "topic")
normalize_branch_name_iff_example =
    normalize_branch_name_iff (codes "refs/heads/topic") (codes "topic")

primary_is_main : primary_branch git dir ≡ ok (codes "main", codes "refs/heads/main")
unfolding primary_branch remote_head_name found run run_with_limit run_bounded run_bounded_env
    answer eq_text primary_ref ref_exists
primary_is_main = refl

primary_branch-IsPrimary_example :
    IsPrimary git dir (codes "main") (codes "refs/heads/main")
    × ((remote_head_name git dir ≡ ok (codes "main"))
        ⊎ ((remote_head_name git dir ≡ ok [])
            × ((codes "main" ≡ codes "main") ⊎ (codes "main" ≡ codes "master"))))
primary_branch-IsPrimary_example =
    primary_branch-IsPrimary git dir (codes "main") (codes "refs/heads/main") primary_is_main

abbrev target : Target
target = record {
  branch = record { name = codes "topic"; ref = codes "refs/heads/topic"; tip = oid };
  commit = oid;
  base = oid;
  primary_name = codes "main";
  primary_ref = codes "refs/heads/main";
  history_rewritten = false;
}

topic_accepted : validate_target git dir (codes "topic") oid [] ≡ ok target
unfolding validate_target resolve_branch normalize_branch_name has_prefix found run run_with_limit
    run_bounded run_bounded_env answer eq_text is_object_id trim_right primary_branch
    remote_head_name primary_ref ref_exists resolve_commit require_clean require_clean_bounded
    merge_base
topic_accepted = refl

validate_target_iff_example :
    (validate_target git dir (codes "topic") oid [] ≡ ok target)
    ↔ IsValidated git dir (codes "topic") oid [] target
validate_target_iff_example = validate_target_iff git dir (codes "topic") oid [] target
