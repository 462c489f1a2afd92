-- ===== src/Config/Loaded.antt =====
-- internal/config/config.go: what Load accepts, and what the configuration then says.
use counterpoint.Prelude.{
  ap, sym, ◌∙◌, ◌≡◌, ◌≢◌, ◌↔◌, ◌⊎◌, inl, inr, refl, true, [], ◌∷◌, Option, none, some, arith, ok,
  Result-cases, subst,
}
use counterpoint.Prelude.Text.{Bytes, codes}
use counterpoint.Config.Files.{
  IsLocated, IsFile, IsAbsent, path_of_iff, read_to, read_from, IsAbsent-iff,
}
use counterpoint.Config.Says.{
  IsObject, IsText, IsAcceptedEffort, parse_iff, text_iff, effort_accepted_iff,
}
use counterpoint.Config.{
  Machine, Config, Fields, path_of, read, parse, text, absolute, effort_of, effort_accepted,
  resolve, load,
}

-- A path setting: absent with its key, and otherwise the absolute path that the file names.
abbrev pub IsPath : Machine → Fields → Bytes → Bytes → Type 0
IsPath m fields key value =
    (IsText m key fields none × (value ≡ []))
    ⊎ (IsText m key fields (some value) × (value ≢ []) × (m.is_abs value ≡ true))

abbrev pub IsEffort : Machine → Fields → Bytes → Type 0
IsEffort m fields value =
    (IsText m (codes "review_effort") fields none × (value ≡ codes "high"))
    ⊎ (IsText m (codes "review_effort") fields (some value) × IsAcceptedEffort value)

pub record IsConfigured (m : Machine) (c : Config) (raw : Bytes) (fields : Fields) : Type 0 where
  pub located : IsLocated m c.path
  pub bytes : IsFile m c.path raw
  pub parsed : IsObject m raw fields
  pub effort : IsEffort m fields c.review_effort
  pub state : IsPath m fields (codes "state_file") c.state_file
  pub checkout : IsPath m fields (codes "checkout_dir") c.checkout_dir

abbrev pub IsDefault : Machine → Config → Bytes → Type 0
IsDefault m c path =
    IsLocated m path
    × IsAbsent m path
    × (c ≡ record { review_effort = codes "high"; state_file = []; checkout_dir = []; path = [] })

absolute_to :
    (m : Machine) (key : Bytes) (fields : Fields) (value : Bytes)
    → absolute m key fields ≡ ok value
    → IsPath m fields key value
unfolding absolute
absolute_to m key fields value h = elim (Result-cases (text m key fields)) [
  | inr (e, q) ↦ absurd (ground (arith, q))
  | inl (none, q) ↦ inl ((text_iff m key fields none).0 q, ground (arith, q))
  | inl (some [], q) ↦ absurd (ground (arith, q))
  | inl (some (b ∷ v), q) ↦
      let same : b ∷ v ≡ value = ground (arith, q) in
      let is_text = (text_iff m key fields (some (b ∷ v))).0 q in
      inr (
        subst (λ (x : Bytes). IsText m key fields (some x) × (x ≢ []) × (m.is_abs x ≡ true)) same
          (is_text, (λ e. cc), ground (arith, q)))
]

absolute_from :
    (m : Machine) (key : Bytes) (fields : Fields) (value : Bytes)
    → IsPath m fields key value
    → absolute m key fields ≡ ok value
unfolding absolute
absolute_from m key fields value (inl (t, e)) = ground (arith, (text_iff m key fields none).1 t, e)
absolute_from m key fields [] (inr (t, ne, abs)) = absurd (ne refl)
absolute_from m key fields (b ∷ value) (inr (t, ne, abs)) =
    ground (arith, (text_iff m key fields (some (b ∷ value))).1 t, abs)

IsEffort-to :
    (m : Machine) (fields : Fields) (value : Bytes)
    → effort_of m fields ≡ ok value
    → IsEffort m fields value
unfolding effort_of
IsEffort-to m fields value h = elim (Result-cases (text m (codes "review_effort") fields)) [
  | inr (e, q) ↦ absurd (ground (arith, q))
  | inl (none, q) ↦ inl ((text_iff m (codes "review_effort") fields none).0 q, ground (arith, q))
  | inl (some v, q) ↦
      let same : v ≡ value = ground (arith, q) in
      let is_text = (text_iff m (codes "review_effort") fields (some v)).0 q in
      let accepted : effort_accepted v ≡ true = ground (arith, q) in
      inr (
        subst (λ (x : Bytes). IsText m (codes "review_effort") fields (some x) × IsAcceptedEffort x)
          same (is_text, (effort_accepted_iff v).0 accepted))
]

effort_from :
    (m : Machine) (fields : Fields) (value : Bytes)
    → IsEffort m fields value
    → effort_of m fields ≡ ok value
unfolding effort_of
effort_from m fields value (inl (t, e)) =
    ground (arith, (text_iff m (codes "review_effort") fields none).1 t, e)
effort_from m fields value (inr (t, a)) = ground (
  arith,
  (text_iff m (codes "review_effort") fields (some value)).1 t,
  (effort_accepted_iff value).1 a,
)

resolve_iff :
    (m : Machine) (path raw : Bytes) (fields : Fields) (c : Config)
    → parse m raw ≡ ok fields
    → (resolve m path (some raw) ≡ ok c) ↔ (
        (c.path ≡ path)
        × IsEffort m fields c.review_effort
        × IsPath m fields (codes "state_file") c.state_file
        × IsPath m fields (codes "checkout_dir") c.checkout_dir)
unfolding resolve
resolve_iff m path raw fields c p = (
  λ h.
      let (same, e, s, t) : (c.path ≡ path)
          × (effort_of m fields ≡ ok c.review_effort)
          × (absolute m (codes "state_file") fields ≡ ok c.state_file)
          × (absolute m (codes "checkout_dir") fields ≡ ok c.checkout_dir) =
        ground (arith, p) in
      (
        same,
        IsEffort-to m fields c.review_effort e,
        absolute_to m (codes "state_file") fields c.state_file s,
        absolute_to m (codes "checkout_dir") fields c.checkout_dir t,
      ),
  λ (a, b, d, g). ground (
    arith,
    p,
    a,
    effort_from m fields c.review_effort b,
    absolute_from m (codes "state_file") fields c.state_file d,
    absolute_from m (codes "checkout_dir") fields c.checkout_dir g,
  ),
)

read_before :
    (m : Machine) (c : Config)
    → load m ≡ ok c
    → (path : Bytes) × (o : Option Bytes) × (path_of m ≡ ok path)
      × (read m path ≡ ok o)
      × (resolve m path o ≡ ok c)
unfolding load
read_before m c h = elim (Result-cases (path_of m)) [
  | inr (e, q) ↦ absurd (ground (arith, q))
  | inl (path, q) ↦ elim (Result-cases (read m path)) [
    | inr (e, r) ↦ absurd (ground (arith, q, r))
    | inl (o, r) ↦ (path, o, q, r, ground (arith, q, r))
  ]
]

parsed_before :
    (m : Machine) (path raw : Bytes) (c : Config)
    → resolve m path (some raw) ≡ ok c
    → (fields : Fields) × (parse m raw ≡ ok fields)
unfolding resolve
parsed_before m path raw c h = elim (Result-cases (parse m raw)) [
  | inr (e, q) ↦ absurd (ground (arith, q))
  | inl (fields, q) ↦ (fields, q)
]

abbrev IsLoaded : Machine → Config → Type 0
IsLoaded m c =
    ((path : Bytes) × IsDefault m c path)
    ⊎ ((raw : Bytes) × (fields : Fields) × IsConfigured m c raw fields)

IsLoaded-resolve :
    (m : Machine) (c : Config) (path : Bytes) (o : Option Bytes)
    → path_of m ≡ ok path
    → read m path ≡ ok o
    → resolve m path o ≡ ok c
    → IsLoaded m c
unfolding resolve
IsLoaded-resolve m c path none q r s =
    inl (path, ((path_of_iff m path).0 q, (IsAbsent-iff m path).0 r, cc))
IsLoaded-resolve m c path (some raw) q r s =
    let (fields, p) = parsed_before m path raw c s in
    let (same, effort, state, checkout) = (resolve_iff m path raw fields c p).0 s in
    inr (
      raw,
      fields,
      record {
        located = (path_of_iff m c.path).0 (q ∙ ap ok (sym same));
        bytes = read_to m c.path raw (ap (read m) same ∙ r);
        parsed = (parse_iff m raw fields).0 p;
        effort = effort;
        state = state;
        checkout = checkout;
      },
    )

loaded : (m : Machine) (c : Config) → load m ≡ ok c → IsLoaded m c
loaded m c h = let (path, o, q, r, s) = read_before m c h in IsLoaded-resolve m c path o q r s

load_lem :
    (m : Machine) (path : Bytes) (o : Option Bytes) (c : Config)
    → path_of m ≡ ok path
    → read m path ≡ ok o
    → resolve m path o ≡ ok c
    → load m ≡ ok c
unfolding load
load_lem m path o c q r h = ground (arith, q, r, h)

loads : (m : Machine) (c : Config) → IsLoaded m c → load m ≡ ok c
unfolding load
loads m c (inl (path, (q, r, e))) =
    unfold resolve in ground (arith, (path_of_iff m path).1 q, (IsAbsent-iff m path).1 r, e)
loads m c (inr (raw, fields, s)) =
    let parsed = (parse_iff m raw fields).1 s.parsed in
    let done : resolve m c.path (some raw) ≡ ok c =
      (resolve_iff m c.path raw fields c parsed).1 (refl, s.effort, s.state, s.checkout) in
    let located = (path_of_iff m c.path).1 s.located in
    let bytes = read_from m c.path raw s.bytes in load_lem m c.path (some raw) c located bytes done

-- Load gives the defaults exactly when there is no file. Otherwise it gives exactly what the file
-- says: a regular file of at most 64 KiB, one JSON object with nothing after it and with known keys
-- alone; each path is absent or a JSON string with an absolute path, and the effort is absent, which
-- means high, or one of low, medium, high and xhigh. The file is at the absolute path that the
-- environment names, or in the user's configuration directory when it names none.
pub load_iff :
    (m : Machine) (c : Config)
    → (load m ≡ ok c) ↔ (
        ((path : Bytes) × IsDefault m c path)
        ⊎ ((raw : Bytes) × (fields : Fields) × IsConfigured m c raw fields))
load_iff m c = (loaded m c, loads m c)
