-- ===== src/Fs/Nodes.antt =====
-- fs.rs: tree blocks and their items.
use btrfs_peek.Prelude.{
  ℕ, zero, suc, ◌+◌, ◌-◌, ◌*◌, ◌&&◌, [], ◌∷◌, Result, ok, err, ◌>>=◌, length, take, drop, leb,
  if◌then◌else◌, panicked,
}
use btrfs_peek.Disk.Bytes.{Bytes, bytes, u32_at, u64_at, from_le_bytes}
use btrfs_peek.Disk.Keys.{Key, parse_key, key_size}

abbrev pub header_size : ℕ
header_size = 101

-- `struct Node(Vec<u8>)`.
abbrev pub Node : Type 0
Node = Bytes

-- `b[i]`, which panics out of range.
abbrev pub index : Bytes → ℕ → Result ℕ
index [] i = err panicked
index (x ∷ xs) zero = ok x
index (x ∷ xs) (suc i) = index xs i

-- `Node::level`.
unfoldable pub level : Node → Result ℕ
level node = index node 100

-- `b[96..100]`, which panics out of range.
abbrev pub slice : Bytes → ℕ → ℕ → Result Bytes
slice b start end =
    if leb start end && leb end (length b)
    then ok (take (end - start) (drop start b))
    else err panicked

-- `Node::nritems`.
unfoldable pub nritems : Node → Result ℕ
nritems node = do s ← slice node 96 100; ok (from_le_bytes s)

-- `Node::item`.
unfoldable pub item : Node → ℕ → Result (Key × Bytes)
item node i = do
  let o = header_size + i * 25
  key ← parse_key node o
  off ← u32_at node (o + 17)
  size ← u32_at node (o + 21)
  payload ← bytes node (header_size + off) size
  ok (key, payload)

-- `Node::ptr`.
unfoldable pub ptr : Node → ℕ → Result (Key × ℕ)
ptr node i = do
  let o = header_size + i * 33
  key ← parse_key node o
  child ← u64_at node (o + key_size)
  ok (key, child)
