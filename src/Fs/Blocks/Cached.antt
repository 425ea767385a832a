-- ===== src/Fs/Blocks/Cached.antt =====
-- The node cache holds only blocks that passed the checks, and never shows.
use btrfs_peek.Prelude.{
  ℕ, ◌≡◌, refl, inl, inr, some, [], ◌∷◌, arith, ok, length, All, leb, ◌==◌, ==→eq, Bool-cases,
  Option-cases, Result-cases,
}
use btrfs_peek.Disk.External.{External}
use btrfs_peek.Fs.Nodes.{Node}
use btrfs_peek.Fs.Mirrors.{Filesystem}
use btrfs_peek.Fs.Blocks.{Cache, cached, remember, fetch, read_uncached, read_node}

module _ (x : External) (fs : Filesystem) where
  -- Every node in the cache is what a read from the devices gives for its address.
  abbrev pub IsGood : Cache → Type 0
  IsGood = All (λ (e : ℕ × Node). fetch x fs e.0 ≡ ok e.1)

  cached-IsGood :
      (a : ℕ) (c : Cache) {node : Node} → IsGood c → cached a c ≡ some node → fetch x fs a ≡ ok node
  unfolding cached
  cached-IsGood a [] g h = cc
  cached-IsGood a ((b, n) ∷ c) {node} g h = elim (Bool-cases (b == a)) [
    | inl same ↦
        let e : b ≡ a = ==→eq b a same in
        let f : n ≡ node = ground (arith, (rw same at h)) in rw (e, f) at g.0
    | inr other ↦ cached-IsGood a c g.1 (rw other at h)
  ]

  remember-IsGood :
      (a : ℕ) (node : Node) (c : Cache)
      → IsGood c
      → fetch x fs a ≡ ok node
      → IsGood (remember a node c)
  unfolding remember
  remember-IsGood a node c g f = elim (Bool-cases (leb 8192 (length c))) [
    | inl full ↦ rw full (f, tt)
    | inr room ↦ rw room (f, g)
  ]

  -- With a good cache a read of a block gives what a read from the devices gives, an error included, and leaves a good cache.
  pub read_node-fetch :
      (a : ℕ) (c : Cache)
      → IsGood c
      → (c' : Cache) × (read_node x fs a c ≡ (fetch x fs a, c')) × IsGood c'
  unfolding read_node read_uncached
  read_node-fetch a c g = elim (Option-cases (cached a c)) [
    | inl missing ↦ rw missing (elim (Result-cases (fetch x fs a)) [
      | inl (node, f) ↦ rw f (remember a node c, refl, remember-IsGood a node c g f)
      | inr (e, f) ↦ rw f (c, refl, g)
    ])
    | inr (node, found) ↦ rw (found, cached-IsGood a c g found) (c, refl, g)
  ]
