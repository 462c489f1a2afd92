-- ===== src/State/Request.antt =====
-- internal/state/request.go: the identity of a review request, its workflow key and its hash. The
-- hex SHA-256 of the standard library is the argument `hex_sum`.
pub mod Injective
use counterpoint.Prelude.{ℕ, ◌/◌, ◌%◌, ◌^◌, Bool, List, [], ◌∷◌, ◌++◌, length, if◌then◌else◌}
use counterpoint.Prelude.Text.{Bytes, codes}

pub record Request : Type 0 where
  pub identity : Bytes
  pub branch_ref : Bytes
  pub commit : Bytes
  pub base : Bytes
  pub branch_notes : Bytes
  pub build : Bool

unfoldable pub key : Request → Bytes
key r = r.identity ++ (codes "::" ++ r.branch_ref)

abbrev pub build_marker : Bytes
build_marker = codes "build"

-- binary.BigEndian.PutUint64
unfoldable pub put_uint64 : ℕ → Bytes
put_uint64 v =
    (v / 2 ^ 56 % 256)
    ∷ (v / 2 ^ 48 % 256)
    ∷ (v / 2 ^ 40 % 256)
    ∷ (v / 2 ^ 32 % 256)
    ∷ (v / 2 ^ 24 % 256)
    ∷ (v / 2 ^ 16 % 256)
    ∷ (v / 2 ^ 8 % 256)
    ∷ (v % 256)
    ∷ []

unfoldable pub fields : Request → List Bytes
fields r =
    r.identity
    ∷ r.branch_ref
    ∷ r.commit
    ∷ r.base
    ∷ r.branch_notes
    ∷ (if r.build then build_marker ∷ [] else [])

-- What the loop writes into the hash: each field behind its length.
unfoldable pub stream : List Bytes → Bytes
stream [] = []
stream (f ∷ fs) = put_uint64 (length f) ++ (f ++ stream fs)

unfoldable pub hash : (Bytes → Bytes) → Request → Bytes
unfolding fields stream
hash hex_sum r = hex_sum (stream (fields r))
