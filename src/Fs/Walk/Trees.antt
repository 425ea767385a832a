-- ===== src/Fs/Walk/Trees.antt =====
-- B-trees as they stand on disk: what it means that the block at an address holds a tree.
use btrfs_peek.Prelude.{ℕ, zero, suc, ◌+◌, ◌≡◌, List, [], ◌∷◌, ◌++◌, Result, ok, length, All}
use btrfs_peek.Disk.Keys.{Key}
use btrfs_peek.Fs.Nodes.{Node, level, nritems, item, ptr}
use btrfs_peek.Fs.Walk.Scan.{Items, Below, StartsFrom}

-- A tree of a height: the items of a leaf, or the children with their first keys and addresses.
abbrev pub Tree : ℕ → Type 0
Tree zero = Items
Tree (suc h) = List (Key × ℕ × Tree h)

abbrev pub items_of : {A : Type 0} → (A → Items) → List (Key × ℕ × A) → Items
items_of f [] = []
items_of f ((k, a, t) ∷ r) = f t ++ items_of f r

-- The items of a tree, in order.
abbrev pub items : (h : ℕ) → Tree h → Items
items zero t = t
items (suc h) t = items_of (items h) t

-- The slots of a leaf from `i` on hold these items.
abbrev pub LeafSlots : Node → ℕ → Items → Type 0
LeafSlots node i [] = Unit {0}
LeafSlots node i (x ∷ xs) = (item node i ≡ ok x) × LeafSlots node (i + 1) xs

abbrev pub ChildSlots : {A : Type 0} → (A → ℕ → Type 0) → Node → ℕ → List (Key × ℕ × A) → Type 0
ChildSlots P node i [] = Unit {0}
ChildSlots P node i ((k, a, t) ∷ r) = (ptr node i ≡ ok (k, a)) × P t a × ChildSlots P node (i + 1) r

module _ {C : Type 0} (read_node : ℕ → C → Result Node × C) (IsGood : C → Type 0) where
  -- In every good cache the read of `a` gives `node`, and leaves a good cache.
  abbrev pub Stores : ℕ → Node → Type 0
  Stores a node = (c : C) → IsGood c → (c' : C) × (read_node a c ≡ (ok node, c')) × IsGood c'

  -- The block at the address holds the tree.
  abbrev pub Holds : (h : ℕ) → Tree h → ℕ → Type 0
  Holds zero t a =
      (node : Node) × Stores a node
      × (nritems node ≡ ok (length t))
      × (level node ≡ ok 0)
      × LeafSlots node 0 t
  Holds (suc h) t a =
      (node : Node) × Stores a node
      × (nritems node ≡ ok (length t))
      × (level node ≡ ok (suc h))
      × ChildSlots (Holds h) node 0 t

-- The items below a child are below the first key of its right sibling.
abbrev pub BelowNext : {A : Type 0} → Items → List (Key × ℕ × A) → Type 0
BelowNext xs [] = Unit {0}
BelowNext xs ((k, _, _) ∷ _) = All (Below k) xs

abbrev pub OrderedChildren : {A : Type 0} → (A → Items) → (A → Type 0) → List (Key × ℕ × A) → Type 0
OrderedChildren f P [] = Unit {0}
OrderedChildren f P ((k, a, t) ∷ r) =
    P t × StartsFrom k (f t) × BelowNext (f t) r × OrderedChildren f P r

-- Below an interior node every child has an item, the first from the child's key on, and all its
-- items are below the next child's key.
abbrev pub IsOrdered : (h : ℕ) → Tree h → Type 0
IsOrdered zero t = Unit {0}
IsOrdered (suc h) t = OrderedChildren (items h) (IsOrdered h) t
