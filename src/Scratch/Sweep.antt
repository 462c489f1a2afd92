-- ===== src/Scratch/Sweep.antt =====
-- internal/scratch/sweep.go: judging and sweeping one workflow directory. What another process does
-- between the steps is in the two states of the directory that the sweep sees.
pub mod Safe
use counterpoint.Prelude.{
  ℕ, zero, suc, ◌+◌, ◌-◌, Bool, true, false, not, ◌&&◌, ◌||◌, List, [], ◌∷◌, ◌++◌, Option, none,
  some, is_some, ltb, ◌==◌, if◌then◌else◌,
}
use counterpoint.Prelude.Text.{Bytes, codes, eq_text, has_prefix}
use counterpoint.State.Lock.{Flock, taken, would_block, failed}
use counterpoint.Scratch.Tree.{
  Kind, regular, link, special, Node, leaf, directory, Nodes, no_nodes, named, Removal, RemoveError,
  remove_tree, kept,
}

-- Nanoseconds: 72 hours.
abbrev pub max_cache_age : ℕ
max_cache_age = 259200000000000

abbrev pub used_name : Bytes
used_name = codes "used"

abbrev pub cache_name : Bytes
cache_name = codes "cache"

abbrev pub trash_prefix : Bytes
trash_prefix = codes "trash-"

-- The items that the sweep moves out of use, in its order.
abbrev pub live_items : List Bytes
live_items = cache_name ∷ codes "checkout" ∷ codes "tmp" ∷ codes "hooks" ∷ used_name ∷ []

-- Fstatat in the directory, not following links.
unfoldable pub find : Bytes → Nodes → Option Node
find name no_nodes = none
find name (named n node rest) = if eq_text n name then some node else find name rest

unfoldable pub without : Bytes → Nodes → Nodes
without name no_nodes = no_nodes
without name (named n node rest) =
    let others = without name rest in if eq_text n name then others else named n node others

unfoldable pub is_trash : Bytes → Bool
is_trash name = has_prefix name trash_prefix

unfoldable pub has_trash : Nodes → Bool
unfolding is_trash
has_trash no_nodes = false
has_trash (named n node rest) = is_trash n || has_trash rest

file_time : Option Node → ℕ
file_time (some (leaf regular mtime stuck)) = mtime
file_time _ = 0

dir_time : Option Node → ℕ
dir_time (some (directory device mtime access stuck children)) = mtime
dir_time _ = 0

is_file : Option Node → Bool
is_file (some (leaf regular mtime stuck)) = true
is_file _ = false

-- The stamp's time, else the cache's, else the zero time.
unfoldable pub last_use : Nodes → ℕ
unfolding is_file file_time dir_time
last_use d =
    if is_file (find used_name d)
    then file_time (find used_name d)
    else dir_time (find cache_name d)

unfoldable pub stale : ℕ → Nodes → Bool
stale now d = not (last_use d == 0) && ltb max_cache_age (now - last_use d)

-- What fstat tells of the lock file.
pub record LockFile : Type 0 where
  pub is_regular : Bool
  pub links : ℕ
  pub device : ℕ
  pub inode : ℕ

-- Opening the entry as a directory, without following a link.
pub data Opening : Type 0 where
  not_a_directory open_failed opened : Opening

-- One visit: what each call answers, in the order of the calls. `alive` is how many checks of the
-- context pass.
pub record Visit : Type 0 where
  pub opening : Opening
  pub stat : Option ℕ
  pub lock_seen : Option LockFile
  pub before : Option Nodes
  pub lock_opened : Option LockFile
  pub flock : Flock
  pub under_lock : Nodes
  pub lists : Bool
  pub moves : Bytes → Bool
  pub suffix : Bytes → Bytes
  pub lists_again : Bool
  pub alive : ℕ

pub data SweepError : Type 0 where
  entry_open_failed entry_stat_failed entry_list_failed lock_failed : SweepError
  not_removed : RemoveError → SweepError

-- `after` is what the directory holds at the end, or `none` when the sweep never had its lock.
pub record Swept : Type 0 where
  pub after : Option Nodes
  pub did : Bool
  pub error : Option SweepError

-- Renameat onto a trash name; a link is left in place.
unfoldable pub move_item : Visit → Bytes → Nodes × Bool → Nodes × Bool
move_item v name (d, did) = elim (find name d) [
  | none ↦ (d, did)
  | some (leaf link mtime stuck) ↦ (d, did)
  | some node ↦
      if v.moves name
      then (let trash = trash_prefix ++ v.suffix name in
          (named trash node (without trash (without name d)), true))
      else (d, did)
]

unfoldable pub move_items : Visit → List Bytes → Nodes × Bool → Nodes × Bool
move_items v [] s = s
move_items v (name ∷ names) s = move_items v names (move_item v name s)

-- What clearing the trash leaves, and the errors of removeTree in order.
pub record Clearing : Type 0 where
  pub left : Nodes
  pub errors : List RemoveError

unfoldable pub next_trash : Bytes → Removal → Nodes → (ℕ → Clearing) → Clearing
next_trash name r rest go = elim r.error [
  | none ↦ (let c = go r.alive in record { left = kept r.left name c.left; errors = c.errors })
  | some e ↦
      -- an ended context ends the loop
      elim r.alive [
        | zero ↦ record { left = kept r.left name rest; errors = e ∷ [] }
        | suc n ↦ (let c = go n in record { left = kept r.left name c.left; errors = e ∷ c.errors })
      ]
]

unfoldable pub clear_trash : ℕ → ℕ → Nodes → Clearing
unfolding next_trash is_trash
clear_trash alive base no_nodes = record { left = no_nodes; errors = [] }
clear_trash alive base (named name node rest) =
    let skipped = clear_trash alive base rest in
    let cleared =
      next_trash name (remove_tree alive base node) rest (λ n. clear_trash n base rest) in
    if is_trash name then cleared else record skipped { left = named name node skipped.left }

first_error : List RemoveError → Option SweepError
first_error [] = none
first_error (e ∷ _) = some (not_removed e)

-- Under the lock.
unfoldable pub sweep_locked : ℕ → ℕ → Visit → Swept
unfolding first_error
sweep_locked now base v =
    if not v.lists
    then record { after = some v.under_lock; did = false; error = some entry_list_failed }
    else (let (d, did) =
          (if stale now v.under_lock
            then move_items v live_items (v.under_lock, false)
            else (v.under_lock, false)) in
        if not v.lists_again
        then record { after = some d; did = did; error = some entry_list_failed }
        else (let c = clear_trash v.alive base d in
            record { after = some c.left; did = did; error = first_error c.errors }))

unfoldable pub untouched : Option SweepError → Swept
untouched e = record { after = none; did = false; error = e }

pub is_regular_lock : Option LockFile → Bool
is_regular_lock none = false
is_regular_lock (some l) = l.is_regular

-- The opened lock is the file that the ownership check saw, under one name.
unfoldable pub same_lock : Option LockFile → Option LockFile → Bool
same_lock (some seen) (some l) =
    l.is_regular && (l.links == 1 && (l.device == seen.device && l.inode == seen.inode))
same_lock _ _ = false

-- TryLockFile, without waiting; a held lock means a review elsewhere.
unfoldable pub try_lock : ℕ → ℕ → Visit → Flock → Swept
unfolding untouched
try_lock now base v taken = sweep_locked now base v
try_lock now base v would_block = untouched none
try_lock now base v failed = untouched (some lock_failed)

unfoldable pub judge : ℕ → ℕ → Visit → Option Nodes → Swept
unfolding untouched try_lock
judge now base v none = untouched (some entry_list_failed)
judge now base v (some d) =
    if not (has_trash d) && not (stale now d)
    then untouched none
    else if same_lock v.lock_seen v.lock_opened
    then try_lock now base v v.flock
    else untouched none

unfoldable pub owned : ℕ → Visit → Option ℕ → Swept
unfolding untouched is_regular_lock judge
owned now v none = untouched (some entry_stat_failed)
owned now v (some base) =
    if is_regular_lock v.lock_seen then judge now base v v.before else untouched none

unfoldable pub entered : ℕ → Visit → Opening → Swept
unfolding untouched owned
entered now v not_a_directory = untouched none
entered now v open_failed = untouched (some entry_open_failed)
entered now v opened = owned now v v.stat

unfoldable pub sweep_entry : ℕ → Visit → Swept
unfolding entered
sweep_entry now v = entered now v v.opening
