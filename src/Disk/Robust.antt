-- ===== src/Disk/Robust.antt =====
-- Every parser of disk.rs returns on every input, whatever the bytes are.
use btrfs_peek.Prelude.{
  ℕ, zero, suc, ◌+◌, ◌*◌, ◌≤◌, ◌≡◌, refl, inl, inr, arith, ok, IsClean, IsClean-bind, length, ltb,
  Bool-cases,
}
use btrfs_peek.Disk.Bytes.{Bytes}
use btrfs_peek.Disk.Bytes.Clean.{clean_reads, u64_at-IsClean}
use btrfs_peek.Disk.Keys.{parse_key}
use btrfs_peek.Disk.Chunks.{parse_stripes, parse_chunk}
use btrfs_peek.Disk.Inodes.{parse_inode}
use btrfs_peek.Disk.DirEntries.{DirEntry, parse_dir_entry, dir_entries_from, parse_dir_entries}
use btrfs_peek.Disk.Extents.{parse_extent}
use btrfs_peek.Disk.External.{External}
use btrfs_peek.Disk.Superblocks.{
  Superblock, check_checksum, read_fields, check_sizes, parse_superblock,
}

pub parse_key-IsClean : (b : Bytes) (off : ℕ) → IsClean (parse_key b off)
unfolding parse_key
parse_key-IsClean b off = grind (arith, clean_reads)

parse_stripes-IsClean : (b : Bytes) (n i : ℕ) → IsClean (parse_stripes b n i)
unfolding parse_stripes
parse_stripes-IsClean b zero i = refl
parse_stripes-IsClean b (suc n) i = ground (
  arith,
  u64_at-IsClean b (48 + i * 32),
  u64_at-IsClean b (48 + i * 32 + 8),
  parse_stripes-IsClean b n (i + 1),
)

pub parse_chunk-IsClean : (start : ℕ) (b : Bytes) → IsClean (parse_chunk start b)
unfolding parse_chunk
parse_chunk-IsClean start b = grind (arith, clean_reads, parse_stripes-IsClean)

pub parse_inode-IsClean : (b : Bytes) → IsClean (parse_inode b)
unfolding parse_inode
parse_inode-IsClean b = grind (arith, clean_reads)

pub parse_extent-IsClean : (o : ℕ) (b : Bytes) → IsClean (parse_extent o b)
unfolding parse_extent
parse_extent-IsClean o b = grind (arith, clean_reads)

check_checksum-IsClean : (x : External) (b : Bytes) (c : ℕ) → IsClean (check_checksum x b c)
unfolding check_checksum
check_checksum-IsClean x b c = grind (arith, clean_reads)

read_fields-IsClean :
    (x : External) (b : Bytes) (c n : ℕ) (raw : Bytes) → IsClean (read_fields x b c n raw)
unfolding read_fields
read_fields-IsClean x b c n raw = grind (arith, clean_reads)

check_sizes-IsClean : (x : External) (s : Superblock) → IsClean (check_sizes x s)
unfolding check_sizes
check_sizes-IsClean x s = ground arith

pub parse_superblock-IsClean : (x : External) (b : Bytes) → IsClean (parse_superblock x b)
unfolding parse_superblock
parse_superblock-IsClean x b =
    grind (arith, clean_reads, check_checksum-IsClean, read_fields-IsClean, check_sizes-IsClean)

parse_dir_entry-IsClean : (b : Bytes) (off : ℕ) → IsClean (parse_dir_entry b off)
unfolding parse_dir_entry
parse_dir_entry-IsClean b off = grind (arith, clean_reads, parse_key-IsClean)

parse_dir_entry_advances :
    (b : Bytes) (off : ℕ) {e : DirEntry} {next : ℕ}
    → parse_dir_entry b off ≡ ok (e, next)
    → off + 30 ≤ next
unfolding parse_dir_entry
parse_dir_entry_advances b off h = ground arith

dir_entries_from-IsClean :
    (fuel : ℕ) (b : Bytes) (off : ℕ) → length b ≤ fuel + off → IsClean (dir_entries_from fuel b off)
unfolding dir_entries_from
dir_entries_from-IsClean zero b off h = ground arith
dir_entries_from-IsClean (suc fuel) b off h = elim (Bool-cases (ltb off (length b))) [
  | inl more ↦ rw more (
      IsClean-bind (parse_dir_entry b off) _ (parse_dir_entry-IsClean b off) (λ p e.
        IsClean-bind (dir_entries_from fuel b p.1) _
          (dir_entries_from-IsClean fuel b p.1 (omega (arith, parse_dir_entry_advances b off e)))
          (λ r _. refl)))
  | inr done ↦ rw done refl
]

pub parse_dir_entries-IsClean : (b : Bytes) → IsClean (parse_dir_entries b)
unfolding parse_dir_entries
parse_dir_entries-IsClean b = dir_entries_from-IsClean (length b) b 0 (omega arith)
