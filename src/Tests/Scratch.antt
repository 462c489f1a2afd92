-- ===== src/Tests/Scratch.antt =====
-- The disposable checkouts and their sweep at concrete trees.
use counterpoint.Prelude.{ℕ, ◌≡◌, ◌↔◌, ◌≤◌, refl, true, false, List, [], none, some, ok}
use counterpoint.Prelude.Text.{eq_text, has_prefix, Bytes, codes}
use counterpoint.State.Lock.{taken}
use counterpoint.Scratch.Tree.{
  Node, Nodes, leaf, directory, regular, readable, no_nodes, named, remove_tree,
}
use counterpoint.Scratch.Tree.Removed.{
  foreign, left_foreign, is_removable, size, left-remove_tree_lem,
}
use counterpoint.Scratch.Sweep.{
  without, move_item, move_items, clear_trash, sweep_locked, last_use, has_trash, Visit, LockFile,
  opened, sweep_entry, stale, find, same_lock,
}
use counterpoint.Scratch.Sweep.Safe.{IsKept, sweep_entry-IsKept}
use counterpoint.Scratch.Root.{reject_overlap, IsInside, reject_overlap_iff}
use counterpoint.Scratch.Prepare.{System, Event, there, prepare_checkout}
use counterpoint.Scratch.Prepare.Locked.{waiting, Settled, lock_state, prepare_checkout-Settled}

abbrev file : Node
file = leaf regular 1 false

-- A file beside a directory on another device.
abbrev tree : Node
tree =
    directory 1 0 readable false
      (named (codes "a") file (named (codes "b") (directory 2 0 readable false no_nodes) no_nodes))

left-remove_tree_lem_example :
    (left_foreign 1 (remove_tree 9 1 tree).left ≡ foreign 1 tree)
    × (is_removable 1 tree ≡ true
        → size tree ≤ 9
        → ((remove_tree 9 1 tree).left ≡ none) × ((remove_tree 9 1 tree).error ≡ none))
left-remove_tree_lem_example = left-remove_tree_lem 9 1 tree

abbrev lock_file : LockFile
lock_file = record { is_regular = true; links = 1; device = 1; inode = 7 }

abbrev old_entry : Nodes
old_entry = named (codes "used") file (named (codes "other") file no_nodes)

-- An unused workflow with a file that is not the sweep's.
abbrev visit : Visit
visit = record {
  opening = opened;
  stat = some 1;
  lock_seen = some lock_file;
  before = some old_entry;
  lock_opened = some lock_file;
  flock = taken;
  under_lock = old_entry;
  lists = true;
  moves = λ _. true;
  suffix = λ _. codes "0";
  lists_again = true;
  alive = 5;
}

abbrev late : ℕ
late = 259200000000009

abbrev rest : Nodes
rest = named (codes "other") file no_nodes

visit_swept : (sweep_entry late visit).after ≡ some rest
unfolding sweep_entry has_trash has_prefix stale last_use find eq_text same_lock sweep_locked
    clear_trash move_items move_item remove_tree without
visit_swept = refl

sweep_entry-IsKept_example :
    (visit.flock ≡ taken)
    × (same_lock visit.lock_seen visit.lock_opened ≡ true)
    × ((sweep_entry late visit).did ≡ true → stale late visit.under_lock ≡ true)
    × ((name : Bytes) → IsKept late visit name → find name rest ≡ find name visit.under_lock)
sweep_entry-IsKept_example = sweep_entry-IsKept late visit rest visit_swept

reject_overlap_iff_example : (reject_overlap (codes "/cache") (codes "/repo") ≡ ok tt) ↔ (
    ((codes "/cache" ≡ codes "/repo") → ⊥)
    × (IsInside (codes "/cache") (codes "/repo") → ⊥)
    × (IsInside (codes "/repo") (codes "/cache") → ⊥))
reject_overlap_iff_example =
    reject_overlap_iff (codes "/cache") (codes "/repo") (λ e. absurd (cc)) (λ e. absurd (cc))

abbrev system : System
system = record {
  root = true;
  overlaps_worktree = false;
  overlaps_common_dir = false;
  make_root = λ _. ok tt;
  make_workflow_dir = λ _. ok tt;
  workflow_dir = λ _. there;
  acquire_lock = λ _. ok tt;
  stamp = λ _. ok tt;
  context_ended = λ _. false;
  lstat = λ _ _. there;
  remove_all = λ _ _. ok tt;
  make = λ _ _. ok tt;
  clone_detached = λ _. ok tt;
  release = λ _. ok tt;
}

no_log : List Event
no_log = []

not_held : lock_state no_log ≡ some waiting
unfolding lock_state no_log
not_held = refl

prepare_checkout-Settled_example :
    Settled (prepare_checkout system no_log).0 (prepare_checkout system no_log).1
prepare_checkout-Settled_example = prepare_checkout-Settled system no_log not_held
