-- ===== src/Scratch/Tree/Removed.antt =====
-- internal/scratch/sweep.go: what removeTree removes, and what it leaves.
use counterpoint.Prelude.{
  ℕ, zero, suc, ◌+◌, ◌-◌, not, ◌&&◌, ◌≤◌, ◌≡◌, refl, Bool, true, false, List, [], ◌∷◌, ◌++◌, Option,
  none, some, ◌==◌, arith, if◌then◌else◌, ap,
}
use counterpoint.Prelude.Text.{Bytes}
use counterpoint.Scratch.Tree.{
  readable, Node, Nodes, leaf, directory, no_nodes, named, Removal, Emptying, remove_tree,
  remove_children, close_dir, next_child, kept, is_empty_dir,
}

-- The topmost directories that stand on another device.
unfoldable mutual
  pub foreign : ℕ → Node → List Node
  foreign base (leaf kind mtime stuck) = []
  foreign base (directory device mtime access stuck children) =
      let inner = all_foreign base children in
      if device == base then inner else directory device mtime access stuck children ∷ []

  pub all_foreign : ℕ → Nodes → List Node
  all_foreign base no_nodes = []
  all_foreign base (named name node rest) = foreign base node ++ all_foreign base rest

pub left_foreign : ℕ → Option Node → List Node
left_foreign base none = []
left_foreign base (some n) = foreign base n

foreign-kept :
    (base : ℕ) (o : Option Node) (name : Bytes) (rest : Nodes)
    → all_foreign base (kept o name rest) ≡ left_foreign base o ++ all_foreign base rest
unfolding kept all_foreign left_foreign
foreign-kept base none name rest = refl
foreign-kept base (some n) name rest = refl

empty_foreign : (base : ℕ) (ns : Nodes) → is_empty_dir ns ≡ true → all_foreign base ns ≡ []
unfolding is_empty_dir all_foreign
empty_foreign base no_nodes h = refl
empty_foreign base (named n m r) h = absurd (cc)

foreign-close_dir :
    (base device mtime : ℕ) (stuck : Bool) (e : Emptying)
    → (device == base) ≡ true
    → left_foreign base (close_dir device mtime stuck e).left ≡ all_foreign base e.left
unfolding close_dir left_foreign foreign
foreign-close_dir base device mtime stuck e h = ground (arith, h, empty_foreign base e.left)

mutual
  unfolding remove_tree foreign left_foreign next_child

  left-remove_tree :
      (alive base : ℕ) (node : Node)
      → left_foreign base (remove_tree alive base node).left ≡ foreign base node
  left-remove_tree zero base node = refl
  left-remove_tree (suc alive) base (leaf k m s) = ground arith
  left-remove_tree (suc alive) base (directory device mtime access stuck children) = ground (
    arith,
    foreign-close_dir base device mtime stuck (remove_children alive base children),
    left-remove_children alive base children,
  )

  left-remove_children :
      (alive base : ℕ) (ns : Nodes)
      → all_foreign base (remove_children alive base ns).left ≡ all_foreign base ns
  left-remove_children alive base no_nodes = refl
  left-remove_children alive base (named name node rest) =
      let r = remove_tree alive base node in
      let e = remove_children r.alive base rest in
      ground (
        arith,
        left-remove_tree alive base node,
        left-remove_children r.alive base rest,
        foreign-kept base r.left name rest,
        foreign-kept base r.left name e.left,
      )

-- How many entries a tree has.
unfoldable mutual
  pub size : Node → ℕ
  size (leaf kind mtime stuck) = 1
  size (directory device mtime access stuck children) = suc (sizes children)

  pub sizes : Nodes → ℕ
  sizes no_nodes = 0
  sizes (named name node rest) = size node + sizes rest

-- Every entry can be removed, and every directory stands on the device.
unfoldable mutual
  pub is_removable : ℕ → Node → Bool
  is_removable base (leaf kind mtime stuck) = not stuck
  is_removable base (directory device mtime access stuck children) = elim access [
    | readable ↦ device == base && (not stuck && are_removable base children)
    | _ ↦ false
  ]

  pub are_removable : ℕ → Nodes → Bool
  are_removable base no_nodes = true
  are_removable base (named name node rest) = is_removable base node && are_removable base rest

mutual
  unfolding remove_tree next_child close_dir kept is_empty_dir size is_removable

  removed :
      (alive base : ℕ) (node : Node)
      → is_removable base node ≡ true
      → size node ≤ alive
      → remove_tree alive base node
        ≡ record { left = none; alive = alive - size node; error = none }
  removed zero base (leaf k m s) h le = absurd (omega (arith, le))
  removed zero base (directory d m a s cs) h le = absurd (omega (arith, le))
  removed (suc alive) base (leaf k m s) h le = ground (arith, h)
  removed (suc alive) base (directory d m a s cs) h le =
      ground (arith, h, le, emptied alive base cs)

  emptied :
      (alive base : ℕ) (ns : Nodes)
      → are_removable base ns ≡ true
      → sizes ns ≤ alive
      → remove_children alive base ns
        ≡ record { left = no_nodes; alive = alive - sizes ns; error = none }
  emptied alive base no_nodes h le = ground arith
  emptied alive base (named name node rest) h le =
      ground (arith, h, le, removed alive base node, emptied (alive - size node) base rest)

-- removeTree keeps every directory on another device exactly as it is, wherever it stops and whatever
-- fails. A tree on one device whose entries can all be removed is removed whole, without an error,
-- when the context lasts for one check of each entry.
pub left-remove_tree_lem :
    (alive base : ℕ) (node : Node)
    → (left_foreign base (remove_tree alive base node).left ≡ foreign base node)
      × (is_removable base node ≡ true
          → size node ≤ alive
          → ((remove_tree alive base node).left ≡ none)
            × ((remove_tree alive base node).error ≡ none))
left-remove_tree_lem alive base node = (
  left-remove_tree alive base node,
  λ h le. (
    ap (λ (r : Removal). r.left) (removed alive base node h le),
    ap (λ (r : Removal). r.error) (removed alive base node h le),
  ),
)
