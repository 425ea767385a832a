-- ===== src/Tests/Walks.antt =====
-- The walk of a tree with two leaves below its root.
use btrfs_peek.Prelude.{
  ℕ, ◌≡◌, refl, Bool, true, List, [], ◌∷◌, ◌++◌, arith, Result, ok, replicate, ◌==◌, if◌then◌else◌,
}
use btrfs_peek.Disk.Bytes.{Bytes, u8_at, u32_at, u64_at, bytes, to_le_bytes, from_le_bytes}
use btrfs_peek.Disk.Keys.{Key, new_key, parse_key, encode_key, ltb_key, leb_key}
use btrfs_peek.Fs.Nodes.{Node, level, nritems, item, ptr}
use btrfs_peek.Fs.Walk.{walk}
use btrfs_peek.Fs.Walk.Scan.{Items, scan}
use btrfs_peek.Fs.Walk.Trees.{Tree, items, Holds, IsOrdered}
use btrfs_peek.Fs.Walk.Refines.{Agrees, walk-scan}
use btrfs_peek.Fs.Walk.Ranges.{IsSorted, range, visit_all, finished, scan-range}

abbrev key : ℕ → Key
key n = new_key n 1 0

abbrev node_of : ℕ → ℕ → Bytes → Node
node_of n lvl body = replicate 96 0 ++ (to_le_bytes 4 n ++ (lvl ∷ body))

abbrev item_header : Key → ℕ → ℕ → Bytes
item_header k off size = encode_key k ++ (to_le_bytes 4 off ++ to_le_bytes 4 size)

abbrev pointer : Key → ℕ → Bytes
pointer k child = encode_key k ++ (to_le_bytes 8 child ++ to_le_bytes 8 1)

-- The block at each address: a root, and its leaves with two items and with one.
abbrev node_at : ℕ → Node
node_at n =
    if n == 1
    then node_of 2 1 (pointer (key 3) 2 ++ pointer (key 6) 3)
    else if n == 2
    then node_of 2 0 (item_header (key 3) 50 1 ++ (item_header (key 5) 51 2 ++ (30 ∷ 50 ∷ 51 ∷ [])))
    else node_of 1 0 (item_header (key 6) 25 1 ++ (60 ∷ []))

abbrev first_leaf : Items
first_leaf = (key 3, 30 ∷ []) ∷ (key 5, 50 ∷ 51 ∷ []) ∷ []

abbrev second_leaf : Items
second_leaf = (key 6, 60 ∷ []) ∷ []

abbrev tree : Tree 1
tree = (key 3, 2, first_leaf) ∷ (key 6, 3, second_leaf) ∷ []

-- Each read is logged.
abbrev read_logged : ℕ → List ℕ → Result Node × List ℕ
read_logged a log = (ok (node_at a), a ∷ log)

abbrev AnyLog : List ℕ → Type 0
AnyLog log = Unit {0}

-- The visitor collects the object ids.
abbrev collect : Key → Bytes → List ℕ → Result Bool × List ℕ
collect k payload s = (ok true, k.objectid ∷ s)

tree-Holds : Holds read_logged AnyLog 1 tree 1
unfolding item ptr nritems level parse_key u8_at u32_at u64_at bytes from_le_bytes to_le_bytes
    encode_key
tree-Holds = (
  node_at 1,
  λ c g. (1 ∷ c, refl, tt),
  refl,
  refl,
  (
    refl,
    (node_at 2, λ c g. (2 ∷ c, refl, tt), refl, refl, (refl, (refl, tt))),
    (refl, (node_at 3, λ c g. (3 ∷ c, refl, tt), refl, refl, (refl, tt)), tt),
  ),
)

tree-IsOrdered : IsOrdered 1 tree
unfolding ltb_key
tree-IsOrdered = (tt, refl, (refl, (refl, tt)), (tt, refl, tt, tt))

range_goes_up : leb_key (key 4) (key 6) ≡ true
unfolding leb_key
range_goes_up = refl

walk-scan_example :
    Agrees AnyLog
      (walk collect (key 4) (key 6) read_logged 1 [] [])
      (scan collect (key 4) (key 6) (items 1 tree) [])
walk-scan_example =
    walk-scan collect (key 4) (key 6) read_logged AnyLog 1 tree 1 [] [] range_goes_up (omega arith)
      tree-Holds tree-IsOrdered tt

items-IsSorted : IsSorted (items 1 tree)
unfolding ltb_key
items-IsSorted = ((refl, (refl, tt)), ((refl, tt), (tt, tt)))

scan-range_example :
    finished (scan collect (key 4) (key 6) (items 1 tree) [])
    ≡ finished (visit_all collect (range (key 4) (key 6) (items 1 tree)) [])
scan-range_example = scan-range collect (key 4) (key 6) (items 1 tree) [] items-IsSorted
