-- ===== src/Config.antt =====
-- internal/config/config.go: the configuration file and the values that it may set. The environment,
-- the file system and encoding/json are arguments.
pub mod Files
pub mod Says
pub mod Loaded
use counterpoint.Prelude.{
  ℕ, suc, ◌+◌, Bool, true, false, not, ◌&&◌, ◌||◌, List, [], ◌∷◌, ◌++◌, Option, none, some,
  is_empty, take, length, ltb, if◌then◌else◌, Result, ok, err, ◌>>=◌, ◌>>◌, refuse_if,
}
use counterpoint.Prelude.Text.{Bytes, codes, eq_text}
use counterpoint.Prelude.Trim.{trim_space}

abbrev pub max_bytes : ℕ
max_bytes = 65536

abbrev pub default_reasoning_effort : Bytes
default_reasoning_effort = codes "high"

abbrev pub accepted_efforts : List Bytes
accepted_efforts = codes "low" ∷ codes "medium" ∷ codes "high" ∷ codes "xhigh" ∷ []

-- slices.Contains
unfoldable pub contains_text : List Bytes → Bytes → Bool
contains_text [] s = false
contains_text (t ∷ ts) s = eq_text t s || contains_text ts s

unfoldable pub effort_accepted : Bytes → Bool
unfolding contains_text
effort_accepted s = contains_text accepted_efforts s

abbrev pub known_keys : List Bytes
known_keys = codes "review_effort" ∷ codes "state_file" ∷ codes "checkout_dir" ∷ []

abbrev pub Fields : Type 0
Fields = List (Bytes × Bytes)

-- What decoding a file into a pointer to an object gives.
pub data Document : Type 0 where
  undecodable null_document : Document
  object : Fields → Document

pub record FileInfo : Type 0 where
  pub is_dir : Bool
  pub is_regular : Bool
  pub size : ℕ

pub data Lookup (A : Type 0) : Type 0 where
  missing failed : Lookup A
  present : A → Lookup A

-- An open file: its type at the descriptor, and its content, which may change until it is read.
pub record File : Type 0 where
  pub info : Option FileInfo
  pub content : Option Bytes

-- `env_path` is empty when it is not set; `at_end` says that the decoder finds nothing after the first
-- value.
pub record Machine : Type 0 where
  pub env_path : Bytes
  pub user_config_dir : Option Bytes
  pub is_abs : Bytes → Bool
  pub join : List Bytes → Bytes
  pub stat : Bytes → Lookup FileInfo
  pub open_file : Bytes → Lookup File
  pub document : Bytes → Document
  pub at_end : Bytes → Bool
  pub string_of : Bytes → Option Bytes

pub data ConfigError : Type 0 where
  relative_env_path no_config_dir stat_failed open_failed read_failed : ConfigError
  invalid : ConfigError

pub record Config : Type 0 where
  pub review_effort : Bytes
  pub state_file : Bytes
  pub checkout_dir : Bytes
  pub path : Bytes

-- Path: the location of the file.
unfoldable pub path_of : Machine → Result ConfigError Bytes
path_of m =
    if is_empty m.env_path
    then elim m.user_config_dir [
      | none ↦ err no_config_dir
      | some dir ↦ ok (m.join (dir ∷ codes "counterpoint" ∷ codes "config.json" ∷ []))
    ]
    else if m.is_abs m.env_path
    then ok m.env_path
    else err relative_env_path

unfoldable pub regular : FileInfo → Result ConfigError (Unit {0})
regular info = do
  refuse_if info.is_dir invalid
  refuse_if (not info.is_regular) invalid
  refuse_if (ltb max_bytes info.size) invalid

unfoldable pub limited : Option Bytes → Result ConfigError (Option Bytes)
limited none = err read_failed
limited (some content) =
    let raw = take (max_bytes + 1) content in
    if ltb max_bytes (length raw) then err invalid else ok (some raw)

unfoldable pub read_file : Lookup File → Result ConfigError (Option Bytes)
unfolding limited
read_file missing = ok none
read_file failed = err open_failed
read_file (present f) = elim f.info [
  | none ↦ err stat_failed
  | some info ↦ (do regular info; limited f.content)
]

-- `none` when there is no file.
unfoldable pub read : Machine → Bytes → Result ConfigError (Option Bytes)
unfolding read_file
read m path = elim (m.stat path) [
  | missing ↦ ok none
  | failed ↦ err stat_failed
  | present info ↦ (do regular info; read_file (m.open_file path))
]

unfoldable pub all_known : Fields → Bool
all_known [] = true
all_known ((key, _) ∷ fields) = contains_text known_keys key && all_known fields

unfoldable pub parse : Machine → Bytes → Result ConfigError Fields
unfolding all_known
parse m raw = elim (m.document raw) [
  | undecodable ↦ err invalid
  | null_document ↦ err invalid
  | object fields ↦ (do
    refuse_if (not (m.at_end raw)) invalid
    refuse_if (not (all_known fields)) invalid
    ok fields)
]

unfoldable pub lookup : Bytes → Fields → Option Bytes
lookup key [] = none
lookup key ((k, v) ∷ fields) = if eq_text k key then some v else lookup key fields

unfoldable pub decoded : Option Bytes → Result ConfigError (Option Bytes)
decoded none = err invalid
decoded (some s) = ok (some s)

-- The value of a key, or `none` when it is absent.
unfoldable pub text : Machine → Bytes → Fields → Result ConfigError (Option Bytes)
unfolding decoded
text m key fields = elim (lookup key fields) [
  | none ↦ ok none
  | some raw ↦
      if eq_text (trim_space raw) (codes "null") then err invalid else decoded (m.string_of raw)
]

unfoldable pub absolute : Machine → Bytes → Fields → Result ConfigError Bytes
absolute m key fields = do
  value ← text m key fields
  elim value [
    | none ↦ ok []
    | some v ↦ (do refuse_if (is_empty v) invalid; refuse_if (not (m.is_abs v)) invalid; ok v)
  ]

unfoldable pub effort_of : Machine → Fields → Result ConfigError Bytes
effort_of m fields = do
  value ← text m (codes "review_effort") fields
  elim value [
    | none ↦ ok default_reasoning_effort
    | some effort ↦ (do refuse_if (not (effort_accepted effort)) invalid; ok effort)
  ]

unfoldable pub resolve : Machine → Bytes → Option Bytes → Result ConfigError Config
resolve m path none = ok (record {
  review_effort = default_reasoning_effort;
  state_file = [];
  checkout_dir = [];
  path = [];
})
resolve m path (some raw) = do
  fields ← parse m raw
  effort ← effort_of m fields
  state_file ← absolute m (codes "state_file") fields
  checkout_dir ← absolute m (codes "checkout_dir") fields
  ok (record {
    review_effort = effort;
    state_file = state_file;
    checkout_dir = checkout_dir;
    path = path;
  })

unfoldable pub load : Machine → Result ConfigError Config
unfolding resolve
load m = do path ← path_of m; raw ← read m path; resolve m path raw
