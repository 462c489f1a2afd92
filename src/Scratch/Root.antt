-- ===== src/Scratch/Root.antt =====
-- internal/scratch/scratch.go: the scratch root and its overlap with the repository.
use counterpoint.Prelude.{
  ◌≢◌, Bool-cases, inl, inr, ◌∙◌, length, ℕ, zero, suc, ◌≡◌, ◌↔◌, refl, Bool, true, false, not,
  ◌||◌, [], ◌∷◌, ◌++◌, append_assoc, sym, Option, none, some, is_empty, arith, if◌then◌else◌,
  Result, ok, err, refuse_if,
}
use counterpoint.Prelude.Text.{
  Bytes, codes, eq_text, eq_text_iff, has_prefix, has_prefix_lem, has_prefix-append,
}

pub data RootError : Type 0 where
  relative_env relative_configured no_cache_dir relative_root inspect_failed no_ancestor
        unresolved :
      RootError
  overlaps_repository : RootError

pub data Lstat : Type 0 where
  exists missing failed : Lstat

-- The environment and path/filepath; `env_root` is empty when it is not set.
pub record Paths : Type 0 where
  pub env_root : Bytes
  pub user_cache_dir : Option Bytes
  pub is_abs : Bytes → Bool
  pub join : Bytes → Bytes → Bytes
  pub clean : Bytes → Bytes
  pub dir : Bytes → Bytes
  pub base : Bytes → Bytes
  pub lstat : Bytes → Lstat
  pub eval_symlinks : Bytes → Option Bytes

unfoldable pub resolve_root : Paths → Bytes → Result RootError Bytes
resolve_root p configured =
    if not (is_empty p.env_root)
    then (if p.is_abs p.env_root then ok p.env_root else err relative_env)
    else if not (is_empty configured)
    then (if p.is_abs configured then ok configured else err relative_configured)
    else elim p.user_cache_dir [
      | none ↦ err no_cache_dir
      | some dir ↦ ok (p.join dir (codes "counterpoint/checkouts"))
    ]

joined : Paths → Bytes → Option Bytes → Result RootError Bytes
joined p rest none = err unresolved
joined p rest (some resolved) = ok (p.join resolved rest)

-- The loop to the nearest existing ancestor; each turn takes one component off the path.
unfoldable pub nearest : Paths → ℕ → Bytes → Bytes → Result RootError Bytes
unfolding joined
nearest p zero existing rest = err no_ancestor
nearest p (suc fuel) existing rest =
    let parent = p.dir existing in
    let up = nearest p fuel parent (p.join (p.base existing) rest) in
    elim (p.lstat existing) [
      | exists ↦ joined p rest (p.eval_symlinks existing)
      | failed ↦ err inspect_failed
      | missing ↦ if eq_text parent existing then err no_ancestor else up
    ]

-- A cleaned path has no more components than bytes.
unfoldable pub canonical_root : Paths → Bytes → Result RootError Bytes
canonical_root p root =
    if p.is_abs root
    then nearest p (suc (length (p.clean root))) (p.clean root) []
    else err relative_root

unfoldable pub is_within : Bytes → Bytes → Bool
is_within path dir = has_prefix path (dir ++ (b'/' ∷ []))

unfoldable pub reject_overlap : Bytes → Bytes → Result RootError (Unit {0})
reject_overlap root dir =
    refuse_if (eq_text root dir || (is_within root dir || is_within dir root)) overlaps_repository

-- `path` names something under `dir`.
abbrev IsUnder : Bytes → Bytes → Type 0
IsUnder path dir = (r : Bytes) × (path ≡ dir ++ (b'/' ∷ r))

is_within_iff : (path dir : Bytes) → (is_within path dir ≡ true) ↔ IsUnder path dir
unfolding is_within
is_within_iff path dir = (
  λ h.
      let (r, e) = has_prefix_lem path (dir ++ (b'/' ∷ [])) h in
      (r, e ∙ append_assoc dir (b'/' ∷ []) r),
  λ (r, e).
      rw (e ∙ sym (append_assoc dir (b'/' ∷ []) r)) (has_prefix-append (dir ++ (b'/' ∷ [])) r),
)

overlap_parts :
    (root dir : Bytes)
    → (reject_overlap root dir ≡ ok tt)
      ↔ ((eq_text root dir ≡ false) × (is_within root dir ≡ false) × (is_within dir root ≡ false))
unfolding reject_overlap
overlap_parts root dir = ground arith

false_iff : {P : Type 0} (b : Bool) → (b ≡ true) ↔ P → (b ≡ false) ↔ (P → ⊥)
false_iff true (f, g) = (λ h. absurd (cc), λ n. absurd (n (f refl)))
false_iff false (f, g) = (λ h p. let e = g p in absurd (cc), λ n. refl)

-- What a name under a directory is; under "/" no further slash stands before it.
abbrev pub under : Bytes → Bytes → Bytes
under dir r = if eq_text dir (codes "/") then b'/' ∷ r else dir ++ (b'/' ∷ r)

-- `path` is inside the directory `dir`.
abbrev pub IsInside : Bytes → Bytes → Type 0
IsInside path dir = (r : Bytes) × (path ≡ under dir r)

under_lem : (dir r : Bytes) → dir ≢ codes "/" → under dir r ≡ dir ++ (b'/' ∷ r)
under_lem dir r n = elim (Bool-cases (eq_text dir (codes "/"))) [
  | inl q ↦ absurd (n ((eq_text_iff dir (codes "/")).0 q))
  | inr q ↦ rw q refl
]

is_within-IsInside :
    (path dir : Bytes) → dir ≢ codes "/" → (is_within path dir ≡ true) ↔ IsInside path dir
is_within-IsInside path dir n =
    let (f, g) = is_within_iff path dir in
    (
      λ h. let (r, e) = f h in (r, e ∙ sym (under_lem dir r n)),
      λ (r, e). g (r, e ∙ under_lem dir r n),
    )

-- For a scratch root and a repository's directory neither of which is "/", the root of the file
-- system: rejectOverlap lets the scratch root pass exactly when it is another path than the
-- directory, neither is inside the directory nor has the directory inside it.
pub reject_overlap_iff :
    (root dir : Bytes)
    → root ≢ codes "/"
    → dir ≢ codes "/"
    → (reject_overlap root dir ≡ ok tt)
      ↔ (((root ≡ dir) → ⊥) × (IsInside root dir → ⊥) × (IsInside dir root → ⊥))
reject_overlap_iff root dir m n =
    let (f, g) = overlap_parts root dir in
    let (a, a') = false_iff (eq_text root dir) (eq_text_iff root dir) in
    let (b, b') = false_iff (is_within root dir) (is_within-IsInside root dir n) in
    let (c, c') = false_iff (is_within dir root) (is_within-IsInside dir root m) in
    (λ h. let (x, y, z) = f h in (a x, b y, c z), λ (x, y, z). g (a' x, b' y, c' z))
