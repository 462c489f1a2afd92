-- ===== src/GitRepo/Instructions.antt =====
-- internal/gitrepo/instructions.go: the reviewer instructions of a commit.
pub mod Quotable
use counterpoint.Prelude.{
  ℕ, zero, suc, ◌+◌, ◌*◌, ◌-◌, Bool, true, false, not, ◌&&◌, ◌||◌, List, [], ◌∷◌, ◌++◌, Option,
  none, some, is_empty, ltb, leb, ◌==◌, if◌then◌else◌, Result, ok, err, ◌>>=◌, ◌>>◌, refuse_if,
}
use counterpoint.Prelude.Int.{ℤ, pos, negsuc, max_int, ltb_ℤ}
use counterpoint.Prelude.Text.{Bytes, codes, eq_text}
use counterpoint.State.ObjectId.{is_object_id}
use counterpoint.GitRepo.Command.{
  Git, GitError, commit_not_found, unexpected_output, instructions_invalid, run, run_with_limit,
}
use counterpoint.Prelude.Trim.{space_size, trim_right, trim_space}
use counterpoint.GitRepo.Utf8.{valid_string}

abbrev pub instructions_file : Bytes
instructions_file = codes "COUNTERPOINT.md"

abbrev pub max_instructions_bytes : ℕ
max_instructions_bytes = 16384

-- strings.Cut at one byte: what stands before it, or `none` when it does not occur.
unfoldable pub cut : ℕ → Bytes → Option Bytes
cut c [] = none
cut c (b ∷ s) =
    let rest = cut c s in
    if b == c then some [] else elim rest [ none ↦ none | some r ↦ some (b ∷ r) ]

push : ℕ → List Bytes → List Bytes
push b [] = (b ∷ []) ∷ []
push b (w ∷ ws) = (b ∷ w) ∷ ws

-- strings.Fields: an empty first word says that the text begins with space. The number says how many
-- bytes of a white space rune are still to be passed over.
words : ℕ → Bytes → List Bytes
unfolding push
words k [] = [] ∷ []
words (suc k) (b ∷ s) = words k s
words zero (b ∷ s) = elim (space_size (b ∷ s)) [
  | zero ↦ push b (words 0 s)
  | suc k ↦ [] ∷ words k s
]

without_empty : List Bytes → List Bytes
without_empty [] = []
without_empty (w ∷ ws) = let rest = without_empty ws in if is_empty w then rest else w ∷ rest

unfoldable pub fields : Bytes → List Bytes
unfolding words without_empty
fields s = without_empty (words 0 s)

-- strconv.ParseInt in base ten for 64 bits.
digits_from : ℕ → Bytes → Option ℕ
digits_from n [] = some n
digits_from n (b ∷ s) =
    let rest = digits_from (10 * n + (b - b'0')) s in
    if leb b'0' b && leb b b'9' then rest else none

magnitude : Bytes → Option ℕ
unfolding digits_from
magnitude [] = none
magnitude (b ∷ s) = digits_from 0 (b ∷ s)

positive : Option ℕ → Option ℤ
positive none = none
positive (some n) = if leb n max_int then some (pos n) else none

negative : Option ℕ → Option ℤ
negative none = none
negative (some n) =
    if n == 0 then some (pos 0) else if leb n (max_int + 1) then some (negsuc (n - 1)) else none

unfoldable pub parse_int : Bytes → Option ℤ
unfolding magnitude positive negative
parse_int [] = none
parse_int (b ∷ s) =
    if b == b'-'
    then negative (magnitude s)
    else if b == b'+'
    then positive (magnitude s)
    else positive (magnitude (b ∷ s))

-- "<mode> <type> <object>", of an ls-tree entry.
pub record TreeEntry : Type 0 where
  pub mode : Bytes
  pub type : Bytes
  pub object : Bytes

unfoldable pub three_fields : List Bytes → Option TreeEntry
three_fields (mode ∷ type ∷ object ∷ []) =
    some (record { mode = mode; type = type; object = object })
three_fields _ = none

unfoldable pub parsed : Option Bytes → Option TreeEntry
unfolding three_fields
parsed none = none
parsed (some meta) = three_fields (fields meta)

unfoldable pub tree_entry : Bytes → Option TreeEntry
unfolding cut parsed
tree_entry entry = parsed (cut 9 entry)

-- The object id of a regular file.
unfoldable pub regular_file : Option TreeEntry → Result GitError Bytes
regular_file none = err unexpected_output
regular_file (some e) = do
  refuse_if (eq_text e.mode (codes "120000")) instructions_invalid
  refuse_if (eq_text e.mode (codes "160000")) instructions_invalid
  refuse_if
      (not (eq_text e.type (codes "blob"))
        || not (eq_text e.mode (codes "100644")) && not (eq_text e.mode (codes "100755")))
      instructions_invalid
  refuse_if (not (is_object_id e.object)) unexpected_output
  ok e.object

unfoldable pub size_of : Option ℤ → Result GitError ℤ
size_of none = err unexpected_output
size_of (some n) = ok n

-- The blob, once the entry is known to be a regular file.
unfoldable pub read_blob : Git → Bytes → Bytes → Result GitError Bytes
unfolding size_of
read_blob g dir oid = do
  size_text ← run g dir (codes "cat-file" ∷ codes "-s" ∷ oid ∷ [])
  size ← size_of (parse_int size_text)
  refuse_if (ltb_ℤ (pos max_instructions_bytes) size) instructions_invalid
  text ←
      run_with_limit g dir (max_instructions_bytes + 1) (codes "cat-file" ∷ codes "blob" ∷ oid ∷ [])
  refuse_if (not (valid_string text)) instructions_invalid
  ok (if is_empty (trim_space text) then [] else text)

unfoldable pub read_instructions : Git → Bytes → Bytes → Result GitError Bytes
read_instructions g dir commit = do
  refuse_if (not (is_object_id commit)) commit_not_found
  out ← run g dir (codes "ls-tree" ∷ codes "-z" ∷ commit ∷ codes "--" ∷ instructions_file ∷ [])
  let entry = trim_right 0 out
  if is_empty entry then ok [] else (do oid ← regular_file (tree_entry entry); read_blob g dir oid)
