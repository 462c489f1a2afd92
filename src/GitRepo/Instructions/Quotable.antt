-- ===== src/GitRepo/Instructions/Quotable.antt =====
-- internal/gitrepo/instructions.go: what the text that ReadInstructions returns can be.
use counterpoint.Prelude.{
  ◌+◌, ◌≤◌, ◌≡◌, ◌⊎◌, true, List, [], ◌∷◌, length, is_empty, ok, some, ◌++◌, false,
}
use counterpoint.Prelude.Text.{Bytes, codes}
use counterpoint.Prelude.Int.{ℤ, pos, ltb_ℤ}
use counterpoint.GitRepo.Command.{Git, run, run_with_limit}
use counterpoint.Prelude.Trim.{trim_right, trim_space}
use counterpoint.GitRepo.Utf8.{valid_string}
use counterpoint.State.ObjectId.{is_object_id}
use counterpoint.GitRepo.Instructions.{max_instructions_bytes, instructions_file, fields, parse_int}

abbrev read_args : Bytes → List Bytes
read_args oid = codes "cat-file" ∷ codes "blob" ∷ oid ∷ []

abbrev list_args : Bytes → List Bytes
list_args commit = codes "ls-tree" ∷ codes "-z" ∷ commit ∷ codes "--" ∷ instructions_file ∷ []

-- The modes of a regular file.
abbrev pub IsFileMode : Bytes → Type 0
IsFileMode mode = (mode ≡ codes "100644") ⊎ (mode ≡ codes "100755")

-- One entry of ls-tree, "<mode> <type> <object>\t<path>", for a regular file.
pub record IsFileEntry (entry object : Bytes) : Type 0 where
  pub meta : Bytes
  pub name : Bytes
  pub mode : Bytes
  pub split : entry ≡ meta ++ (9 ∷ name)
  pub blob_of : fields meta ≡ mode ∷ codes "blob" ∷ object ∷ []
  pub file_mode : IsFileMode mode
  pub full_object : is_object_id object ≡ true

-- The text is the blob of the regular file that the commit has under the name of the instructions,
-- and git says of it that it is within the limit.
pub record IsQuotable (g : Git) (dir commit text entry object : Bytes) : Type 0 where
  pub full : is_object_id commit ≡ true
  pub listed : run g dir (list_args commit) ≡ ok entry
  pub regular : IsFileEntry (trim_right 0 entry) object
  pub sized :
      (out : Bytes) × (size : ℤ) × (run g dir (codes "cat-file" ∷ codes "-s" ∷ object ∷ [])
        ≡ ok out)
      × (parse_int out ≡ some size)
      × (ltb_ℤ (pos max_instructions_bytes) size ≡ false)
  pub blob : run_with_limit g dir (max_instructions_bytes + 1) (read_args object) ≡ ok text
  pub utf8 : valid_string text ≡ true
  pub visible : is_empty (trim_space text) ≡ false
  pub short : length text ≤ max_instructions_bytes + 1

abbrev Read : Git → Bytes → Bytes → Bytes → Type 0
Read g dir oid text =
    (valid_string text ≡ true)
    × (is_empty (trim_space text) ≡ false)
    × (run_with_limit g dir (max_instructions_bytes + 1) (read_args oid) ≡ ok text)

abbrev Sized : Git → Bytes → Bytes → Type 0
Sized g dir oid =
    (out : Bytes) × (size : ℤ) × (run g dir (codes "cat-file" ∷ codes "-s" ∷ oid ∷ []) ≡ ok out)
    × (parse_int out ≡ some size)
    × (ltb_ℤ (pos max_instructions_bytes) size ≡ false)
