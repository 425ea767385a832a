-- ===== src/Fs/Blocks/Checked.antt =====
-- What a tree block that is read satisfies.
use btrfs_peek.Prelude.{
  ℕ, ◌-◌, ◌/◌, ◌≤◌, ◌≡◌, ap, ◌∙◌, ◌⊎◌, inl, inr, Bool, true, false, List, [], ◌∷◌, arith, Error,
  Result, ok, >>=-eq-ok, length, ◌==◌, if◌then◌else◌, ==→eq, eq→==, Bool-cases, Result-cases,
  unreadable, wrong_address, bad_node_checksum,
}
use btrfs_peek.Disk.Bytes.{Bytes, u32_at, u64_at}
use btrfs_peek.Disk.External.{External}
use btrfs_peek.Dev.{Device, read}
use btrfs_peek.Fs.Nodes.{Node, nritems, slice, header_size}
use btrfs_peek.Fs.Mirrors.{Filesystem, mirrors}
use btrfs_peek.Fs.Mirrors.Reads.{length-read}
use btrfs_peek.Fs.Blocks.{fails_checksum, count_items, check_block, first_good, fetch}

-- The block states its own address and not too many items, and its checksum matches.
pub record IsChecked (x : External) (fs : Filesystem) (a : ℕ) (node : Node) : Type 0 where
  pub address : u64_at node 48 ≡ ok a
  pub covered :
      fs.sb.csum_type ≡ 0
      → (s : Bytes) × (slice node 32 (length node) ≡ ok s) × (u32_at node 0 ≡ ok (x.crc32c s))
  pub size : length node ≡ fs.sb.nodesize
  pub count : (n : ℕ) × (nritems node ≡ ok n) × (n ≤ (fs.sb.nodesize - header_size) / 25)

module _ (x : External) (fs : Filesystem) where
  fails_checksum_lem :
      (buf : Bytes)
      → fails_checksum x fs buf ≡ ok false
      → fs.sb.csum_type ≡ 0
      → (s : Bytes) × (slice buf 32 (length buf) ≡ ok s) × (u32_at buf 0 ≡ ok (x.crc32c s))
  unfolding fails_checksum
  fails_checksum_lem buf h z =
      let (want, e, h1) = >>=-eq-ok (u32_at buf 0) _ (rw (eq→== _ _ z) at h) in
      let (s, f, h2) = >>=-eq-ok (slice buf 32 (length buf)) _ h1 in
      let same : want ≡ x.crc32c s = ground (arith, h2) in (s, f, rw same at e)

  count_items_lem :
      (buf : Bytes) {node : Node}
      → count_items x fs buf ≡ ok node
      → (node ≡ buf) × ((n : ℕ) × (nritems buf ≡ ok n) × (n ≤ (fs.sb.nodesize - header_size) / 25))
  unfolding count_items
  count_items_lem buf h =
      let (n, e, h1) = >>=-eq-ok (nritems buf) _ h in
      let facts : (_ ≡ buf) × (n ≤ (fs.sb.nodesize - header_size) / 25) = ground (arith, h1) in
      (facts.0, (n, e, facts.1))

  -- A block that is accepted passed the checks, or another mirror was tried.
  check_block_lem :
      (a : ℕ) (next : Error → Result Node) (buf : Bytes) (node : Node)
      → length buf ≡ fs.sb.nodesize
      → check_block x fs a next buf ≡ ok node
      → ((e : Error) × (next e ≡ ok node)) ⊎ IsChecked x fs a node
  unfolding check_block
  check_block_lem a next buf node size h =
      let (address, e, h1) = >>=-eq-ok (u64_at buf 48) _ h in
      elim (Bool-cases (address == a)) [
        | inr wrong ↦ inl (wrong_address, (rw wrong at h1))
        | inl same ↦
            let (bad, f, h2) = >>=-eq-ok (fails_checksum x fs buf) _ (rw same at h1) in
            checked bad (e ∙ ap ok (==→eq address a same)) f h2
      ]
    where
      checked :
          (bad : Bool)
          → u64_at buf 48 ≡ ok a
          → fails_checksum x fs buf ≡ ok bad
          → (if bad then next bad_node_checksum else count_items x fs buf) ≡ ok node
          → ((e : Error) × (next e ≡ ok node)) ⊎ IsChecked x fs a node
      checked true address f h = inl (bad_node_checksum, h)
      checked false address f h =
          let (same, counted) = count_items_lem buf h in
          inr (
            rw same (record {
              address = address;
              covered = fails_checksum_lem buf f;
              size = size;
              count = counted;
            }))

  first_good-IsChecked :
      (a : ℕ) (e : Error) (ms : List (Device × ℕ)) (node : Node)
      → first_good x fs a e ms ≡ ok node
      → IsChecked x fs a node
  unfolding first_good
  first_good-IsChecked a e [] node h = cc
  first_good-IsChecked a e ((d, phys) ∷ ms) node h =
      elim (Result-cases (read d phys fs.sb.nodesize)) [
        | inr (e', f) ↦ first_good-IsChecked a e' ms node (rw f at h)
        | inl (buf, f) ↦
            elim (check_block_lem a (λ e'. first_good x fs a e' ms) buf node
              (length-read d phys fs.sb.nodesize f) (rw f at h)) [
                | inl (e', g) ↦ first_good-IsChecked a e' ms node g
                | inr c ↦ c
              ]
      ]

  -- A tree block that is read from the devices has the node size, states the address that it was read for and no more items than fit, and where checksums are crc32c its own matches the bytes behind it.
  pub fetch-IsChecked : (a : ℕ) (node : Node) → fetch x fs a ≡ ok node → IsChecked x fs a node
  unfolding fetch
  fetch-IsChecked a node h =
      let (ms, e, h1) = >>=-eq-ok (mirrors fs a fs.sb.nodesize) _ h in
      first_good-IsChecked a unreadable ms node h1
