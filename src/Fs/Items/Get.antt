-- ===== src/Fs/Items/Get.antt =====
-- A lookup finds the item with its key.
use btrfs_peek.Prelude.{
  ℕ, zero, suc, ◌+◌, ◌<◌, ◌≡◌, refl, Bool, true, not, ◌&&◌, Option, none, some, List, [], ◌∷◌,
  arith, Result, ok, err, length, All, if◌then◌else◌,
}
use btrfs_peek.Disk.Bytes.{Bytes}
use btrfs_peek.Disk.External.{External}
use btrfs_peek.Disk.Keys.{Key, ltb_key, leb_key}
use btrfs_peek.Disk.Keys.Order.{ltb_key_irrefl, ltb_key_trans}
use btrfs_peek.Fs.Mirrors.{Filesystem}
use btrfs_peek.Fs.Nodes.{Node, nritems, level}
use btrfs_peek.Fs.Blocks.{Cache, fetch, read_node}
use btrfs_peek.Fs.Blocks.Cached.{IsGood, read_node-fetch}
use btrfs_peek.Fs.Walk.Scan.{Items, scan}
use btrfs_peek.Fs.Walk.Ranges.{IsSorted, finished}
use btrfs_peek.Fs.Walk.Trees.{Tree, items, LeafSlots, ChildSlots, Holds, IsOrdered}
use btrfs_peek.Fs.Walk.Refines.{Agrees, walk-scan}
use btrfs_peek.Fs.Items.{keep_first, out_of, get}

-- The payload under a key.
unfoldable pub find_item : Key → Items → Option Bytes
find_item key [] = none
find_item key ((k, d) ∷ xs) =
    if not (ltb_key k key) && not (ltb_key key k) then some d else find_item key xs

find_item_past :
    (key k : Key) (xs : Items)
    → ltb_key key k ≡ true
    → All (λ (y : Key × Bytes). ltb_key k y.0 ≡ true) xs
    → find_item key xs ≡ none
unfolding find_item
find_item_past key k [] p h = refl
find_item_past key k (x ∷ xs) p h =
    ground (arith, ltb_key_trans key k x.0 p h.0, find_item_past key k xs p h.1)

scan-find_item :
    (key : Key) (xs : Items)
    → IsSorted xs
    → finished (scan keep_first key key xs none) ≡ (ok tt, find_item key xs)
unfolding scan find_item
scan-find_item key [] h = refl
scan-find_item key (x ∷ xs) (first, rest) =
    ground (arith, scan-find_item key xs rest, find_item_past key x.0 xs)

-- The block at an address, read from the devices, holds the tree.
abbrev pub OnDisk : External → Filesystem → (h : ℕ) → Tree h → ℕ → Type 0
OnDisk x fs zero t a =
    (node : Node) × (fetch x fs a ≡ ok node)
    × (nritems node ≡ ok (length t))
    × (level node ≡ ok 0)
    × LeafSlots node 0 t
OnDisk x fs (suc h) t a =
    (node : Node) × (fetch x fs a ≡ ok node)
    × (nritems node ≡ ok (length t))
    × (level node ≡ ok (suc h))
    × ChildSlots (OnDisk x fs h) node 0 t

module _ (x : External) (fs : Filesystem) where
  stores :
      (a : ℕ) (node : Node)
      → fetch x fs a ≡ ok node
      → (c : Cache) → IsGood x fs c
      → (c' : Cache) × (read_node x fs a c ≡ (ok node, c')) × IsGood x fs c'
  stores a node e c g = let (c', r, g') = read_node-fetch x fs a c g in (c', rw e at r, g')

  ChildSlots-map :
      {A : Type 0} {P Q : A → ℕ → Type 0} (f : (t : A) (a : ℕ) → P t a → Q t a) (node : Node)
      (i : ℕ) (ts : List (Key × ℕ × A))
      → ChildSlots P node i ts
      → ChildSlots Q node i ts
  ChildSlots-map f node i [] h = tt
  ChildSlots-map f node i ((k, a, t) ∷ ts) (e, p, h) =
      (e, f t a p, ChildSlots-map f node (i + 1) ts h)

  pub OnDisk-Holds :
      (h : ℕ) (t : Tree h) (a : ℕ) → OnDisk x fs h t a → Holds (read_node x fs) (IsGood x fs) h t a
  OnDisk-Holds zero t a (node, e, n, l, s) = (node, stores a node e, n, l, s)
  OnDisk-Holds (suc h) t a (node, e, n, l, s) =
      (node, stores a node e, n, l, ChildSlots-map (OnDisk-Holds h) node 0 t s)

  out_of_lem :
      {S : Type 0} (w : Result Bool × Cache × S) (r : Result Bool × S) (out : S)
      → Agrees (IsGood x fs) w r
      → finished r ≡ (ok tt, out)
      → (c : Cache) × (out_of w ≡ (ok out, c)) × IsGood x fs c
  out_of_lem w (ok b, s) out (c, e, g) h = (c, rw e (ground (arith, h)), g)
  out_of_lem w (err b, s) out (c, e, g) h = cc

  -- In an ordered tree of at most nine levels on the devices whose items are sorted, with a good cache, `get` gives the payload of the item under the key, or none where no item has it, and leaves a good cache.
  pub get-find_item :
      (h : ℕ) (t : Tree h) (root : ℕ) (key : Key) (c : Cache)
      → h < 9
      → OnDisk x fs h t root
      → IsOrdered h t
      → IsSorted (items h t)
      → IsGood x fs c
      → (c' : Cache) × (get x fs root key c ≡ (ok (find_item key (items h t)), c')) × IsGood x fs c'
  unfolding get
  get-find_item h t root key c l d o s g =
      let same : leb_key key key ≡ true = unfold leb_key in rw (ltb_key_irrefl key) refl in
      out_of_lem _ _ _
        (walk-scan keep_first key key (read_node x fs) (IsGood x fs) h t root c none same l
          (OnDisk-Holds h t root d) o g)
        (scan-find_item key (items h t) s)
