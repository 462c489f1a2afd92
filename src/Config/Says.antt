-- ===== src/Config/Says.antt =====
-- internal/config/config.go: what parse, text and EffortAccepted find in a file.
use counterpoint.Prelude.{
  ◌≡◌, ◌≢◌, ◌↔◌, ◌⊎◌, inl, inr, refl, true, [], ◌∷◌, Option, none, some, All, arith, ok,
  Option-cases,
}
use counterpoint.Prelude.Text.{Bytes, codes, eq_text_iff}
use counterpoint.Prelude.Trim.{trim_space}
use counterpoint.Config.{
  Machine, Fields, Document, undecodable, null_document, object, all_known, parse, lookup, decoded,
  text, contains_text, known_keys, effort_accepted,
}

-- The keys that a file may set.
abbrev pub IsKnown : Bytes → Type 0
IsKnown key =
    (key ≡ codes "review_effort") ⊎ ((key ≡ codes "state_file") ⊎ (key ≡ codes "checkout_dir"))

-- The file is one JSON object with nothing after it and with known keys alone.
pub record IsObject (m : Machine) (raw : Bytes) (fields : Fields) : Type 0 where
  pub document_is : m.document raw ≡ object fields
  pub ends : m.at_end raw ≡ true
  pub known : All (λ (f : Bytes × Bytes). IsKnown f.0) fields

IsKnown-iff : (key : Bytes) → (contains_text known_keys key ≡ true) ↔ IsKnown key
unfolding contains_text
IsKnown-iff key = ground (
  arith,
  eq_text_iff (codes "review_effort") key,
  eq_text_iff (codes "state_file") key,
  eq_text_iff (codes "checkout_dir") key,
)

all_known_to :
    (fields : Fields) → all_known fields ≡ true → All (λ (f : Bytes × Bytes). IsKnown f.0) fields
unfolding all_known
all_known_to [] h = tt
all_known_to ((key, value) ∷ fields) h =
    ((IsKnown-iff key).0 (ground arith), all_known_to fields (ground arith))

all_known_from :
    (fields : Fields) → All (λ (f : Bytes × Bytes). IsKnown f.0) fields → all_known fields ≡ true
unfolding all_known
all_known_from [] h = refl
all_known_from ((key, value) ∷ fields) (k, ks) =
    rw ((IsKnown-iff key).1 k) (all_known_from fields ks)

parsed_as :
    (m : Machine) (raw : Bytes) (d : Document) (fields : Fields)
    → m.document raw ≡ d
    → parse m raw ≡ ok fields
    → IsObject m raw fields
unfolding parse
parsed_as m raw undecodable fields q h = absurd (ground (arith, q))
parsed_as m raw null_document fields q h = absurd (ground (arith, q))
parsed_as m raw (object fs) fields q h = ground (arith, q, all_known_to fs)

parse_from :
    (m : Machine) (raw : Bytes) (fields : Fields) → IsObject m raw fields → parse m raw ≡ ok fields
unfolding parse
parse_from m raw fields h = ground (arith, h.document_is, h.ends, all_known_from fields h.known)

pub parse_iff :
    (m : Machine) (raw : Bytes) (fields : Fields)
    → (parse m raw ≡ ok fields) ↔ IsObject m raw fields
parse_iff m raw fields = (parsed_as m raw _ fields refl, parse_from m raw fields)

-- The value of a key: absent, or a JSON string and not null.
abbrev pub IsText : Machine → Bytes → Fields → Option Bytes → Type 0
IsText m key fields none = lookup key fields ≡ none
IsText m key fields (some v) =
    (raw : Bytes) × (lookup key fields ≡ some raw)
    × (trim_space raw ≢ codes "null")
    × (m.string_of raw ≡ some v)

said :
    (m : Machine) (key : Bytes) (fields : Fields) (l o : Option Bytes)
    → lookup key fields ≡ l
    → text m key fields ≡ ok o
    → IsText m key fields o
unfolding text decoded
said m key fields none none q h = q
said m key fields none (some v) q h = absurd (ground (arith, q))
said m key fields (some raw) none q h = elim (Option-cases (m.string_of raw)) [
  | inl e ↦ absurd (ground (arith, q, e))
  | inr (v, e) ↦ absurd (ground (arith, q, e))
]
said m key fields (some raw) (some v) q h =
    let e : trim_space raw ≢ codes "null" =
      ground (arith, q, eq_text_iff (trim_space raw) (codes "null")) in
    (
      raw,
      q,
      e,
      elim (Option-cases (m.string_of raw)) [
        | inl x ↦ absurd (ground (arith, q, x))
        | inr (w, x) ↦ ground (arith, q, x)
      ],
    )

text_from :
    (m : Machine) (key : Bytes) (fields : Fields) (o : Option Bytes)
    → IsText m key fields o
    → text m key fields ≡ ok o
unfolding text decoded
text_from m key fields none q = ground (arith, q)
text_from m key fields (some v) (raw, q, n, e) =
    ground (arith, q, e, eq_text_iff (trim_space raw) (codes "null"))

pub text_iff :
    (m : Machine) (key : Bytes) (fields : Fields) (o : Option Bytes)
    → (text m key fields ≡ ok o) ↔ IsText m key fields o
text_iff m key fields o = (said m key fields _ o refl, text_from m key fields o)

-- The efforts that a review accepts.
abbrev pub IsAcceptedEffort : Bytes → Type 0
IsAcceptedEffort v =
    (v ≡ codes "low") ⊎ ((v ≡ codes "medium") ⊎ ((v ≡ codes "high") ⊎ (v ≡ codes "xhigh")))

pub effort_accepted_iff : (v : Bytes) → (effort_accepted v ≡ true) ↔ IsAcceptedEffort v
unfolding effort_accepted contains_text
effort_accepted_iff v = ground (
  arith,
  eq_text_iff (codes "low") v,
  eq_text_iff (codes "medium") v,
  eq_text_iff (codes "high") v,
  eq_text_iff (codes "xhigh") v,
)
