-- ===== src/Fs/Mirrors.antt =====
-- fs.rs: the filesystem that is open, and where its logical addresses stand on the devices.
pub mod Reads
use btrfs_peek.Prelude.{
  ℕ, zero, suc, ◌+◌, ◌-◌, ◌*◌, ◌/◌, ◌%◌, ◌^◌, ◌≤◌, ◌<◌, min, max, bit_and, bit_or, ◌≡◌, refl, sym,
  ap, ◌∙◌, ◌≢◌, ◌↔◌, ◌⊎◌, inl, inr, Bool, true, false, not, ◌&&◌, ◌||◌, Option, none, some, List,
  [], ◌∷◌, ◌++◌, map, append_assoc, append-nil, arith, Error, Result, ok, err, ◌>>=◌, ◌>>◌,
  >>=-eq-ok, guard, guard-eq-ok, raised, match_result, then_next, then_next-eq-ok, clean, IsClean,
  IsClean-bind, IsClean-if, ascii, onto, onto_first, split_once, split, strip_prefix, join,
  strip_prefix-append, strip_prefix_lem, Lacks, split_once-append, split_once_lem, join-split,
  split-append, split_whole, length, get_elem?, take, drop, replicate, All, length-append,
  length-take, length-drop, length-replicate, take-append_length, drop-append_length, take_all,
  take-append-drop, take_add, drop-drop, drop-take, take-take, take-append_le, All-append, All-take,
  All-drop, All-replicate, ltb, leb, ◌==◌, if◌then◌else◌, ltb→lt, lt→ltb, le→leb, leb→le, ==→eq,
  eq→==, Bool-cases, Option-cases, Result-cases, all_below, all_below_sound, insert_by, sort_by,
  IsSortedBy, sort_by-Perm, sort_by-IsSortedBy, Permᴰ, is_digit, AreDigits, all_digits,
  all_digits-AreDigits, AreDigits-all_digits, digits_from, to_decimal, digits_from-append,
  digits_from-to_decimal, to_decimal-AreDigits, to_decimal_fuel, digits_from-lt,
  to_decimal-digits_from, length-to_decimal, LeadsNonzero, to_decimal-LeadsNonzero,
  to_decimal-canonical, panicked, out_of_fuel, corrupt_structure, no_magic, checksum_mismatch,
  encrypted, zero_stripes, bad_array_size, bad_sectorsize, bad_nodesize, unknown_extent_type,
  io_error, unexpected_eof, implausible_size, zero_sectorsize, decodes_to_more, decodes_short,
  bad_frame, bad_segment, truncated_header, oversized_segment, malformed_segment, malformed_stream,
  unknown_compression, unmapped_address, striped_chunk, missing_device, unreadable, wrong_address,
  bad_node_checksum, too_many_items, wrong_level, too_deep, bad_chunk_array, extent_overflow,
  outside_extent, inline_too_large, implausible_extent, symlink_too_long, no_device,
  other_filesystem, refused_features, no_subvolume, no_inode, no_parent, endless_parents,
  not_directory, is_symlink, not_found, malformed_signature, malformed_key, bad_signature,
  wrong_comment, not_newer, helper_missing, helper_refused, helper_failed, predates_update,
  unknown_status, oversized_message, long_reply, long_path, oversized_download, signature_not_utf8,
}
use btrfs_peek.Disk.Bytes.{Bytes, add64}
use btrfs_peek.Disk.Superblocks.{
  Superblock, block_group_raid0, block_group_raid10, block_group_raid5, block_group_raid6,
}
use btrfs_peek.Disk.Chunks.{Chunk, has_flag}
use btrfs_peek.Dev.{Device, read}

-- The fields of `Fs` that do not change once it is open. `devs` is a hash map by device id, and
-- `chunks` the map by start address, in the order of the addresses.
pub record Filesystem : Type 0 where
  pub devs : List (ℕ × Device)
  pub sb : Superblock
  pub chunks : List Chunk

-- `devs.get(devid)`.
unfoldable pub get_device : ℕ → List (ℕ × Device) → Option Device
get_device devid [] = none
get_device devid ((k, d) ∷ ds) = if k == devid then some d else get_device devid ds

-- `chunks.insert(c.start, c)`.
unfoldable pub insert_chunk : Chunk → List Chunk → List Chunk
insert_chunk c [] = c ∷ []
insert_chunk c (d ∷ ds) =
    if ltb c.start d.start
    then c ∷ d ∷ ds
    else if c.start == d.start
    then c ∷ ds
    else d ∷ insert_chunk c ds

or_this : Option Chunk → Chunk → Chunk
or_this (some d) c = d
or_this none c = c

-- `chunks.range(..=logical).next_back()`.
unfoldable pub chunk_before : ℕ → List Chunk → Option Chunk
unfolding or_this
chunk_before logical [] = none
chunk_before logical (c ∷ cs) =
    if leb c.start logical then some (or_this (chunk_before logical cs) c) else none

-- `.filter(|c| logical + len <= c.start + c.length)`, in a release build.
unfoldable pub mapped_by : ℕ → ℕ → Option Chunk → Result Chunk
mapped_by logical len none = err unmapped_address
mapped_by logical len (some c) = do
  guard (leb (add64 logical len) (add64 c.start c.length)) unmapped_address
  ok c

-- The bits in `block_group_raid0 | .. | block_group_raid6`.
abbrev pub striped : ℕ
striped =
    bit_or (bit_or (bit_or block_group_raid0 block_group_raid10) block_group_raid5)
      block_group_raid6

with_device : Option Device → ℕ → List (Device × ℕ) → List (Device × ℕ)
with_device none phys rest = rest
with_device (some d) phys rest = (d, phys) ∷ rest

-- The stripes whose devices were given, with the address on each.
unfoldable pub copies : List (ℕ × Device) → ℕ → List (ℕ × ℕ) → List (Device × ℕ)
unfolding with_device
copies devs rel [] = []
copies devs rel ((devid, phys) ∷ ss) =
    with_device (get_device devid devs) (add64 phys rel) (copies devs rel ss)

abbrev pub is_empty : List (Device × ℕ) → Bool
is_empty [] = true
is_empty (x ∷ xs) = false

module _ (fs : Filesystem) where
  unfoldable pub mirrors : ℕ → ℕ → Result (List (Device × ℕ))
  mirrors logical len = do
    chunk ← mapped_by logical len (chunk_before logical fs.chunks)
    guard (not (has_flag chunk.ty striped && ltb 1 (length chunk.stripes))) striped_chunk
    let out = copies fs.devs (logical - chunk.start) chunk.stripes
    guard (not (is_empty out)) missing_device
    ok out

-- The first mirror that can be read; the last error where none can.
unfoldable pub read_mirrors : ℕ → Error → List (Device × ℕ) → Result Bytes
read_mirrors len last_err [] = err last_err
read_mirrors len last_err ((d, phys) ∷ ms) =
    match_result (λ e. read_mirrors len e ms) ok (read d phys len)

unfoldable pub read_logical : Filesystem → ℕ → ℕ → Result Bytes
read_logical fs logical len = do ms ← mirrors fs logical len; read_mirrors len unreadable ms
