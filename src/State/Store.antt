-- ===== src/State/Store.antt =====
-- internal/state/state.go: the state file, its lookup and replay, and how it is read and saved.
-- encoding/json and the file system are arguments: `Codec` and `Files`.
pub mod Write
pub mod Lookup
pub mod Storable
pub mod Calls
pub mod Saved
use counterpoint.Prelude.{
  ℕ, suc, ◌+◌, ◌-◌, ◌^◌, ◌≡◌, Bool, true, false, not, ◌&&◌, ◌||◌, List, [], ◌∷◌, ◌++◌, Option, none,
  some, length, take, ltb, is_empty, if◌then◌else◌, Result, ok, err, ◌>>=◌,
}
use counterpoint.Prelude.Int.{ℤ, pos, ltb_ℤ, eqb_ℤ}
use counterpoint.Prelude.Text.{Bytes, codes, eq_text}
use counterpoint.State.Record.{Workflow, empty_workflow, equal}
use Write.{Files, write_atomic}

-- SameReplayFields: the comparison of the fields that record the completed review.
unfoldable pub same_replay_fields : Workflow → Workflow → Bool
same_replay_fields w o =
    eq_text w.thread_id o.thread_id
    && (eq_text w.last_commit o.last_commit
        && (eq_text w.last_base o.last_base
            && (eq_text w.last_request_hash o.last_request_hash
                && (eqb_ℤ w.round o.round
                    && (eq_text w.last_review o.last_review
                        && equal w.last_warnings o.last_warnings)))))

-- map[string]Workflow
abbrev pub Workflows : Type 0
Workflows = List (Bytes × Workflow)

unfoldable pub get : Workflows → Bytes → Option Workflow
get [] key = none
get ((k, w) ∷ m) key = if eq_text k key then some w else get m key

unfoldable pub put : Workflows → Bytes → Workflow → Workflows
put [] key w = (key, w) ∷ []
put ((k, v) ∷ m) key w = if eq_text k key then (k, w) ∷ m else (k, v) ∷ put m key w

-- Replay: the stored record, when the last completed request has this hash.
unfoldable pub replay : Workflows → Bytes → Bytes → Option Workflow
replay m key hash = elim (get m key) [
  | none ↦ none
  | some w ↦ if is_empty hash || not (eq_text w.last_request_hash hash) then none else some w
]

abbrev pub version : ℤ
version = pos 2

abbrev pub oldest_readable_version : ℤ
oldest_readable_version = pos 1

-- 16 << 20
abbrev pub max_state_file_size : ℕ
max_state_file_size = 16777216

-- The on-disk shape; a nil map is `none`.
pub record Envelope : Type 0 where
  pub version : ℤ
  pub workflows : Option Workflows

-- json.Unmarshal into an envelope and json.MarshalIndent of one.
pub record Codec : Type 0 where
  pub decode : Bytes → Option Envelope
  pub encode : Envelope → Option Bytes

pub data ReadError : Type 0 where
  not_exist too_large read_failed : ReadError

-- What opening the path gives: nothing there, a failure, or a file to read.
pub data Opened : Type 0 where
  missing unreadable : Opened
  file : Bytes → Opened

-- io.ReadAll of a reader limited to limit + 1 bytes.
unfoldable pub read_bounded : Opened → ℕ → Result ReadError Bytes
read_bounded missing limit = err not_exist
read_bounded unreadable limit = err read_failed
read_bounded (file content) limit =
    let got = take (limit + 1) content in if ltb limit (length got) then err too_large else ok got

pub data LoadError : Type 0 where
  reading : ReadError → LoadError
  malformed unsupported_version : LoadError

or_empty : Option Workflows → Workflows
or_empty none = []
or_empty (some m) = m

unfoldable pub check_version : Envelope → Result LoadError Workflows
unfolding or_empty
check_version env =
    if ltb_ℤ env.version oldest_readable_version || ltb_ℤ version env.version
    then err unsupported_version
    else ok (or_empty env.workflows)

unfoldable pub parse : Codec → Result ReadError Bytes → Result LoadError Workflows
unfolding check_version
parse c (err not_exist) = ok []
parse c (err e) = err (reading e)
parse c (ok content) = elim (c.decode content) [
  | none ↦ err malformed
  | some env ↦ check_version env
]

-- The mark that Load leaves: set on success, and otherwise as it was.
loaded_after : Bool → Result LoadError Workflows → Bool
loaded_after mark (ok _) = true
loaded_after mark (err _) = mark

-- Load, with the store's `loaded` mark before and after it; the mark is reset first.
unfoldable pub load : Codec → Opened → Bool → Result LoadError Workflows × Bool
unfolding read_bounded parse loaded_after
load c f loaded =
    let reset = false in
    let r = parse c (read_bounded f max_state_file_size) in (r, loaded_after reset r)

pub data SaveError : Type 0 where
  not_loaded nil_state encoding make_dir_failed write_failed : SaveError
  -- TooLargeError, with the size and the limit
  state_too_large : ℕ → ℕ → SaveError

unfoldable pub encode_state : Codec → Workflows → Result SaveError Bytes
encode_state c m = elim (c.encode (record { version = version; workflows = some m })) [
  | none ↦ err encoding
  | some text ↦
      let content = text ++ (codes "\n") in
      if ltb max_state_file_size (length content)
      then err (state_too_large (length content) max_state_file_size)
      else ok content
]

written : Bool → Result SaveError (Unit {0})
written true = ok tt
written false = err write_failed

save_content :
    (f : Files) → Bytes → f.Disk × Bool → Result SaveError (Unit {0}) × f.Disk × List f.Disk
unfolding written
save_content f content (d, false) = (err make_dir_failed, d, d ∷ [])
save_content f content (d, true) =
    let (done, final, seen) = write_atomic f content d in (written done, final, d ∷ seen)

-- Save: `loaded` is the store's mark, and `none` a nil state. It returns the disk that it leaves and
-- the disks that it passes through.
unfoldable pub save :
    (f : Files)
    → Codec
    → Bool
    → Option Workflows
    → f.Disk
    → Result SaveError (Unit {0}) × f.Disk × List f.Disk
unfolding encode_state save_content
save f c false m d = (err not_loaded, d, [])
save f c true none d = (err nil_state, d, [])
save f c true (some m) d = elim (encode_state c m) [
  | err e ↦ (err e, d, [])
  | ok content ↦ save_content f content (f.make_dir d)
]
