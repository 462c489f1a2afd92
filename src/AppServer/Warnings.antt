-- ===== src/AppServer/Warnings.antt =====
-- The bounded warnings of internal/appserver/conn.go (`recordWarning`, `takeWarnings`,
-- `identifiers`) and `AppendWarning` of client.go.
use counterpoint.Prelude.{
  ℕ, suc, ◌+◌, ◌≤◌, ◌≡◌, Bool, true, false, ◌&&◌, ◌||◌, List, [], ◌∷◌, ◌++◌, length, take, ltb, leb,
  is_empty, length-append, arith, if◌then◌else◌,
}
use counterpoint.Prelude.Text.{Bytes, codes}
use counterpoint.Prelude.Decimal.{format_nat}

abbrev pub max_warnings : ℕ
max_warnings = 32

abbrev pub max_warning_bytes : ℕ
max_warning_bytes = 8192

abbrev pub max_identifier_len : ℕ
max_identifier_len = 64

-- The warnings of a connection.
pub record Warnings : Type 0 where
  pub warnings : List Bytes
  pub warning_bytes : ℕ
  pub warnings_omitted : ℕ

abbrev pub no_warnings : Warnings
no_warnings = record { warnings = []; warning_bytes = 0; warnings_omitted = 0 }

unfoldable pub record_warning : Warnings → Bytes → Warnings
record_warning c w =
    if leb max_warnings (length c.warnings) || ltb max_warning_bytes (c.warning_bytes + length w)
    then record c { warnings_omitted = c.warnings_omitted + 1 }
    else record c { warnings = c.warnings ++ (w ∷ []); warning_bytes = c.warning_bytes + length w }

unfoldable pub omitted_marker : ℕ → Bytes
omitted_marker n =
    format_nat n
    ++ (codes " additional app-server warnings omitted (bounded at "
        ++ (format_nat max_warnings
            ++ (codes " entries or " ++ (format_nat max_warning_bytes ++ codes " bytes)"))))

unfoldable pub take_warnings : Warnings → List Bytes × Warnings
unfolding omitted_marker
take_warnings c = (
  if ltb 0 c.warnings_omitted
      then c.warnings ++ (omitted_marker c.warnings_omitted ∷ [])
      else c.warnings,
  no_warnings,
)

-- The bytes of a list of warnings.
unfoldable pub total_bytes : List Bytes → ℕ
total_bytes [] = 0
total_bytes (w ∷ ws) = length w + total_bytes ws

unfoldable pub append_warning : List Bytes → Bytes → List Bytes × Bool
unfolding total_bytes
append_warning list w =
    if leb max_warnings (length list) || ltb max_warning_bytes (total_bytes list + length w)
    then (list, false)
    else (list ++ (w ∷ []), true)

unfoldable pub truncate_identifier : Bytes → Bytes
truncate_identifier id =
    if ltb max_identifier_len (length id) then take max_identifier_len id ++ codes "..." else id

-- The request's item and turn ids in a warning.
unfoldable pub identifiers : Bytes → Bytes → Bytes
unfolding truncate_identifier
identifiers item turn =
    let item_part = codes "item " ++ truncate_identifier item in
    let turn_part = codes "turn " ++ truncate_identifier turn in
    if is_empty item
    then (if is_empty turn then [] else codes " (" ++ (turn_part ++ codes ")"))
    else if is_empty turn
    then codes " (" ++ (item_part ++ codes ")")
    else codes " (" ++ (item_part ++ (codes ", " ++ (turn_part ++ codes ")")))

-- Within the contract: at most 32 entries and 8192 bytes, the bytes counted as they are.
pub record IsBounded (c : Warnings) : Type 0 where
  pub few : length c.warnings ≤ max_warnings
  pub small : c.warning_bytes ≤ max_warning_bytes
  pub counted : c.warning_bytes ≡ total_bytes c.warnings

total_bytes-append : (xs ys : List Bytes) → total_bytes (xs ++ ys) ≡ total_bytes xs + total_bytes ys
unfolding total_bytes
total_bytes-append [] ys = omega arith
total_bytes-append (x ∷ xs) ys = omega (arith, total_bytes-append xs ys)

total_bytes_one : (w : Bytes) → total_bytes (w ∷ []) ≡ length w
unfolding total_bytes
total_bytes_one w = omega arith

pub record_warning-IsBounded :
    (c : Warnings) (w : Bytes) → IsBounded c → IsBounded (record_warning c w)
unfolding record_warning
record_warning-IsBounded c w v = ground (
  arith,
  length-append c.warnings (w ∷ []),
  total_bytes-append c.warnings (w ∷ []),
  total_bytes_one w,
)

-- A run of warnings.
unfoldable pub record_all : Warnings → List Bytes → Warnings
record_all c [] = c
record_all c (w ∷ ws) = record_all (record_warning c w) ws

record_all-IsBounded : (c : Warnings) (ws : List Bytes) → IsBounded c → IsBounded (record_all c ws)
unfolding record_all
record_all-IsBounded c [] v = v
record_all-IsBounded c (w ∷ ws) v =
    record_all-IsBounded (record_warning c w) ws (record_warning-IsBounded c w v)

record_warning_count :
    (c : Warnings) (w : Bytes)
    → let c' = record_warning c w in
      length c'.warnings + c'.warnings_omitted ≡ suc (length c.warnings + c.warnings_omitted)
unfolding record_warning
record_warning_count c w = ground (arith, length-append c.warnings (w ∷ []))

record_all_count :
    (c : Warnings) (ws : List Bytes)
    → let c' = record_all c ws in
      length c'.warnings + c'.warnings_omitted ≡ length c.warnings + c.warnings_omitted + length ws
unfolding record_all
record_all_count c [] = omega arith
record_all_count c (w ∷ ws) =
    omega (arith, record_all_count (record_warning c w) ws, record_warning_count c w)

-- Whatever warnings come after a take, the collection is within both bounds, counts its bytes
-- exactly, and has recorded or counted as omitted every one of them; the next take returns at most
-- one entry more than the bound.
pub record_all_bounds :
    (ws : List Bytes)
    → let c = record_all no_warnings ws in
      IsBounded c
      × (length c.warnings + c.warnings_omitted ≡ length ws)
      × (length (take_warnings c).0 ≤ max_warnings + 1)
unfolding take_warnings
record_all_bounds ws =
    let v = record_all-IsBounded no_warnings ws (unfold total_bytes in omega arith) in
    let count = record_all_count no_warnings ws in
    (
      v,
      omega arith,
      ground (
        arith,
        length-append (record_all no_warnings ws).warnings
            (omitted_marker (record_all no_warnings ws).warnings_omitted ∷ []),
      ),
    )

-- AppendWarning keeps a list within both bounds, and refuses, with the list as it was, exactly a
-- warning that would exceed one of them.
pub append_warning_bounds :
    (list : List Bytes) (w : Bytes)
    → length list ≤ max_warnings
    → total_bytes list ≤ max_warning_bytes
    → let (list', added) = append_warning list w in
      (length list' ≤ max_warnings)
      × (total_bytes list' ≤ max_warning_bytes)
      × (list' ≡ (if added then list ++ (w ∷ []) else list))
      × (added
          ≡ (ltb (length list) max_warnings && leb (total_bytes list + length w) max_warning_bytes))
unfolding append_warning
append_warning_bounds list w h k =
    ground (arith, length-append list (w ∷ []), total_bytes-append list (w ∷ []), total_bytes_one w)
