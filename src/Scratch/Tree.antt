-- ===== src/Scratch/Tree.antt =====
-- internal/scratch/sweep.go: a directory tree and `removeTree`.
pub mod Removed
use counterpoint.Prelude.{
  ℕ, zero, suc, ◌+◌, Bool, true, false, not, ◌&&◌, ◌||◌, List, [], ◌∷◌, ◌++◌, Option, none, some,
  ◌==◌, if◌then◌else◌,
}
use counterpoint.Prelude.Text.{Bytes}

-- What lstat tells of an entry that is no directory.
pub data Kind : Type 0 where
  regular link special : Kind

-- Whether a directory can be opened, and then listed.
pub data Access : Type 0 where
  readable unopenable unlistable : Access

-- A tree of entries. `mtime` counts from the zero time; an entry that is stuck cannot be unlinked.
mutual
  pub data Node : Type 0 where
    leaf : (kind : Kind) (mtime : ℕ) (stuck : Bool) → Node
    directory : (device mtime : ℕ) (access : Access) (stuck : Bool) (children : Nodes) → Node

  pub data Nodes : Type 0 where
    no_nodes : Nodes
    named : (name : Bytes) (node : Node) (rest : Nodes) → Nodes

pub data RemoveError : Type 0 where
  interrupted unlink_failed open_failed list_failed rmdir_failed : RemoveError

-- What removeTree leaves of an entry, how many more checks the context passes, and the error.
pub record Removal : Type 0 where
  pub left : Option Node
  pub alive : ℕ
  pub error : Option RemoveError

-- The same for the children of a directory.
pub record Emptying : Type 0 where
  pub left : Nodes
  pub alive : ℕ
  pub error : Option RemoveError

unfoldable pub kept : Option Node → Bytes → Nodes → Nodes
kept none name rest = rest
kept (some n) name rest = named name n rest

is_empty_dir : Nodes → Bool
is_empty_dir no_nodes = true
is_empty_dir (named _ _ _) = false

-- The end of a directory: its children gone, it is removed; else it stays with what is left.
close_dir : ℕ → ℕ → Bool → Emptying → Removal
unfolding is_empty_dir
close_dir device mtime stuck e =
    let rest = directory device mtime readable stuck e.left in
    elim e.error [
      | some err ↦ record { left = some rest; alive = e.alive; error = some err }
      | none ↦
          if is_empty_dir e.left && not stuck
          then record { left = none; alive = e.alive; error = none }
          else record { left = some rest; alive = e.alive; error = some rmdir_failed }
    ]

-- The loop over the children stops at the first error.
next_child : Bytes → Removal → Nodes → (ℕ → Emptying) → Emptying
unfolding kept
next_child name r rest go = elim r.error [
  | some err ↦ record { left = kept r.left name rest; alive = r.alive; error = some err }
  | none ↦
      let e = go r.alive in
      record { left = kept r.left name e.left; alive = e.alive; error = e.error }
]

unfoldable mutual
  unfolding close_dir next_child

  -- `alive` is how many checks of the context pass; `base` is the device of the workflow directory.
  pub remove_tree : ℕ → ℕ → Node → Removal
  remove_tree zero base node = record { left = some node; alive = 0; error = some interrupted }
  remove_tree (suc alive) base (leaf kind mtime stuck) =
      if stuck
      then record { left = some (leaf kind mtime stuck); alive = alive; error = some unlink_failed }
      else record { left = none; alive = alive; error = none }
  remove_tree (suc alive) base (directory device mtime access stuck children) =
      let same = some (directory device mtime access stuck children) in
      let emptied = remove_children alive base children in
      elim access [
        | unopenable ↦ record { left = same; alive = alive; error = some open_failed }
        | unlistable ↦
            if device == base
            then record { left = same; alive = alive; error = some list_failed }
            else record { left = same; alive = alive; error = none }
        | readable ↦
            if device == base
            then close_dir device mtime stuck emptied
            else record { left = same; alive = alive; error = none }
      ]

  pub remove_children : ℕ → ℕ → Nodes → Emptying
  remove_children alive base no_nodes = record { left = no_nodes; alive = alive; error = none }
  remove_children alive base (named name node rest) =
      next_child name (remove_tree alive base node) rest (λ n. remove_children n base rest)
