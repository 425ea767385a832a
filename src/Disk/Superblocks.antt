-- ===== src/Disk/Superblocks.antt =====
-- disk.rs: the superblock.
pub mod Checked
use Prim.Native.String.{String}
use btrfs_peek.Prelude.{
  ℕ, zero, suc, ◌+◌, ◌-◌, ◌*◌, ◌/◌, ◌%◌, ◌^◌, ◌≤◌, ◌<◌, min, max, bit_and, bit_or, ◌≡◌, refl, sym,
  ap, ◌∙◌, ◌≢◌, ◌↔◌, ◌⊎◌, inl, inr, Bool, true, false, not, ◌&&◌, ◌||◌, Option, none, some, List,
  [], ◌∷◌, ◌++◌, map, append_assoc, append-nil, arith, Error, Result, ok, err, ◌>>=◌, ◌>>◌,
  >>=-eq-ok, guard, guard-eq-ok, raised, match_result, then_next, then_next-eq-ok, clean, IsClean,
  IsClean-bind, IsClean-if, ascii, onto, onto_first, split_once, split, strip_prefix, join,
  strip_prefix-append, strip_prefix_lem, Lacks, split_once-append, split_once_lem, join-split,
  split-append, split_whole, length, get_elem?, take, drop, replicate, All, length-append,
  length-take, length-drop, length-replicate, take-append_length, drop-append_length, take_all,
  take-append-drop, take_add, drop-drop, drop-take, take-take, take-append_le, All-append, All-take,
  All-drop, All-replicate, ltb, leb, ◌==◌, if◌then◌else◌, ltb→lt, lt→ltb, le→leb, leb→le, ==→eq,
  eq→==, Bool-cases, Option-cases, Result-cases, all_below, all_below_sound, insert_by, sort_by,
  IsSortedBy, sort_by-Perm, sort_by-IsSortedBy, Permᴰ, is_digit, AreDigits, all_digits,
  all_digits-AreDigits, AreDigits-all_digits, digits_from, to_decimal, digits_from-append,
  digits_from-to_decimal, to_decimal-AreDigits, to_decimal_fuel, digits_from-lt,
  to_decimal-digits_from, length-to_decimal, LeadsNonzero, to_decimal-LeadsNonzero,
  to_decimal-canonical, panicked, out_of_fuel, corrupt_structure, no_magic, checksum_mismatch,
  encrypted, zero_stripes, bad_array_size, bad_sectorsize, bad_nodesize, unknown_extent_type,
  io_error, unexpected_eof, implausible_size, zero_sectorsize, decodes_to_more, decodes_short,
  bad_frame, bad_segment, truncated_header, oversized_segment, malformed_segment, malformed_stream,
  unknown_compression, unmapped_address, striped_chunk, missing_device, unreadable, wrong_address,
  bad_node_checksum, too_many_items, wrong_level, too_deep, bad_chunk_array, extent_overflow,
  outside_extent, inline_too_large, implausible_extent, symlink_too_long, no_device,
  other_filesystem, refused_features, no_subvolume, no_inode, no_parent, endless_parents,
  not_directory, is_symlink, not_found, malformed_signature, malformed_key, bad_signature,
  wrong_comment, not_newer, helper_missing, helper_refused, helper_failed, predates_update,
  unknown_status, oversized_message, long_reply, long_path, oversized_download, signature_not_utf8,
}
use btrfs_peek.Disk.Bytes.{Bytes, bytes, u16_at, u32_at, u64_at}
use btrfs_peek.Disk.External.{External, eq_bytes}

abbrev pub super_offset : ℕ
super_offset = 0x1_0000

abbrev pub super_size : ℕ
super_size = 4096

-- `_BHRfS_M`.
abbrev pub magic : Bytes
magic = b'_' ∷ b'B' ∷ b'H' ∷ b'R' ∷ b'f' ∷ b'S' ∷ b'_' ∷ b'M' ∷ []

abbrev pub block_group_raid0 : ℕ
block_group_raid0 = 2 ^ 3

abbrev pub block_group_raid10 : ℕ
block_group_raid10 = 2 ^ 6

abbrev pub block_group_raid5 : ℕ
block_group_raid5 = 2 ^ 7

abbrev pub block_group_raid6 : ℕ
block_group_raid6 = 2 ^ 8

-- extent-tree-v2 and raid-stripe-tree.
abbrev pub incompat_refused : ℕ
incompat_refused = 2 ^ 13 + 2 ^ 14

pub record Superblock : Type 0 where
  pub fsid : Bytes
  pub generation : ℕ
  pub root : ℕ
  pub chunk_root : ℕ
  pub log_root : ℕ
  pub total_bytes : ℕ
  pub bytes_used : ℕ
  pub root_dir_objectid : ℕ
  pub num_devices : ℕ
  pub sectorsize : ℕ
  pub nodesize : ℕ
  pub incompat_flags : ℕ
  pub csum_type : ℕ
  pub devid : ℕ
  pub label : Bytes
  pub sys_chunk_array : Bytes

-- `u32::is_power_of_two`: exactly one bit is set.
unfoldable pub is_power_of_two : ℕ → Bool
is_power_of_two x = not (x == 0) && bit_and x (x - 1) == 0

-- `label_raw[..label_end]`, the bytes before the first zero.
unfoldable pub before_zero : Bytes → Bytes
before_zero [] = []
before_zero (c ∷ cs) = if c == 0 then [] else c ∷ before_zero cs

module _ (x : External) where
  unfoldable pub check_crc32c : Bytes → Result (Unit {0})
  check_crc32c b = do
    want ← u32_at b 0
    covered ← bytes b 32 (super_size - 32)
    guard (want == x.crc32c covered) checksum_mismatch

  -- The checksum is checked only where it is a crc32c.
  unfoldable pub check_checksum : Bytes → ℕ → Result (Unit {0})
  unfolding check_crc32c
  check_checksum b csum_type = if csum_type == 0 then check_crc32c b else ok tt

  unfoldable pub read_fields : Bytes → ℕ → ℕ → Bytes → Result Superblock
  read_fields b csum_type sys_len label_raw = do
    fsid ← bytes b 0x20 16
    generation ← u64_at b 0x48
    root ← u64_at b 0x50
    chunk_root ← u64_at b 0x58
    log_root ← u64_at b 0x60
    total_bytes ← u64_at b 0x70
    bytes_used ← u64_at b 0x78
    root_dir_objectid ← u64_at b 0x80
    num_devices ← u64_at b 0x88
    sectorsize ← u32_at b 0x90
    nodesize ← u32_at b 0x94
    incompat_flags ← u64_at b 0xbc
    devid ← u64_at b 0xc9
    sys_chunk_array ← bytes b 0x32b sys_len
    ok (record {
      fsid = fsid;
      generation = generation;
      root = root;
      chunk_root = chunk_root;
      log_root = log_root;
      total_bytes = total_bytes;
      bytes_used = bytes_used;
      root_dir_objectid = root_dir_objectid;
      num_devices = num_devices;
      sectorsize = sectorsize;
      nodesize = nodesize;
      incompat_flags = incompat_flags;
      csum_type = csum_type;
      devid = devid;
      label = x.from_utf8_lossy (before_zero label_raw);
      sys_chunk_array = sys_chunk_array;
    })

  unfoldable pub check_sizes : Superblock → Result Superblock
  check_sizes sb = do
    guard (is_power_of_two sb.sectorsize && (leb 512 sb.sectorsize && leb sb.sectorsize 65536))
        (bad_sectorsize sb.sectorsize)
    guard (is_power_of_two sb.nodesize && (leb 4096 sb.nodesize && leb sb.nodesize 65536))
        (bad_nodesize sb.nodesize)
    ok sb

  -- `Superblock::parse`.
  unfoldable pub parse_superblock : Bytes → Result Superblock
  parse_superblock b = do
    found ← bytes b 0x40 8
    guard (eq_bytes found magic) no_magic
    csum_type ← u16_at b 0xc4
    check_checksum b csum_type
    sys_len ← u32_at b 0xa0
    guard (leb sys_len 2048) (bad_array_size sys_len)
    label_raw ← bytes b 0x12b 256
    sb ← read_fields b csum_type sys_len label_raw
    check_sizes sb

-- `csum_name`.
unfoldable pub csum_name : Superblock → String
csum_name sb =
    if sb.csum_type == 0
    then "crc32c"
    else if sb.csum_type == 1
    then "xxhash64"
    else if sb.csum_type == 2
    then "sha256"
    else if sb.csum_type == 3
    then "blake2b"
    else "unknown"

-- `INCOMPAT_FLAGS`: each flag with its name.
abbrev pub incompat_flag_names : List (ℕ × String)
incompat_flag_names =
    (2 ^ 0, "mixed-backref")
    ∷ (2 ^ 1, "default-subvol")
    ∷ (2 ^ 2, "mixed-groups")
    ∷ (2 ^ 3, "compress-lzo")
    ∷ (2 ^ 4, "compress-zstd")
    ∷ (2 ^ 5, "big-metadata")
    ∷ (2 ^ 6, "extended-iref")
    ∷ (2 ^ 7, "raid56")
    ∷ (2 ^ 8, "skinny-metadata")
    ∷ (2 ^ 9, "no-holes")
    ∷ (2 ^ 10, "metadata-uuid")
    ∷ (2 ^ 11, "raid1c34")
    ∷ (2 ^ 12, "zoned")
    ∷ (2 ^ 13, "extent-tree-v2")
    ∷ (2 ^ 14, "raid-stripe-tree")
    ∷ (2 ^ 16, "simple-quota")
    ∷ []
