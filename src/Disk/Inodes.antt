-- ===== src/Disk/Inodes.antt =====
-- disk.rs: inode items.
pub mod Encoding
use Prim.Native.String.{String}
use btrfs_peek.Prelude.{
  ℕ, zero, suc, ◌+◌, ◌-◌, ◌*◌, ◌/◌, ◌%◌, ◌^◌, ◌≤◌, ◌<◌, min, max, bit_and, bit_or, ◌≡◌, refl, sym,
  ap, ◌∙◌, ◌≢◌, ◌↔◌, ◌⊎◌, inl, inr, Bool, true, false, not, ◌&&◌, ◌||◌, Option, none, some, List,
  [], ◌∷◌, ◌++◌, map, append_assoc, append-nil, arith, Error, Result, ok, err, ◌>>=◌, ◌>>◌,
  >>=-eq-ok, guard, guard-eq-ok, raised, match_result, then_next, then_next-eq-ok, clean, IsClean,
  IsClean-bind, IsClean-if, ascii, onto, onto_first, split_once, split, strip_prefix, join,
  strip_prefix-append, strip_prefix_lem, Lacks, split_once-append, split_once_lem, join-split,
  split-append, split_whole, length, get_elem?, take, drop, replicate, All, length-append,
  length-take, length-drop, length-replicate, take-append_length, drop-append_length, take_all,
  take-append-drop, take_add, drop-drop, drop-take, take-take, take-append_le, All-append, All-take,
  All-drop, All-replicate, ltb, leb, ◌==◌, if◌then◌else◌, ltb→lt, lt→ltb, le→leb, leb→le, ==→eq,
  eq→==, Bool-cases, Option-cases, Result-cases, all_below, all_below_sound, insert_by, sort_by,
  IsSortedBy, sort_by-Perm, sort_by-IsSortedBy, Permᴰ, is_digit, AreDigits, all_digits,
  all_digits-AreDigits, AreDigits-all_digits, digits_from, to_decimal, digits_from-append,
  digits_from-to_decimal, to_decimal-AreDigits, to_decimal_fuel, digits_from-lt,
  to_decimal-digits_from, length-to_decimal, LeadsNonzero, to_decimal-LeadsNonzero,
  to_decimal-canonical, panicked, out_of_fuel, corrupt_structure, no_magic, checksum_mismatch,
  encrypted, zero_stripes, bad_array_size, bad_sectorsize, bad_nodesize, unknown_extent_type,
  io_error, unexpected_eof, implausible_size, zero_sectorsize, decodes_to_more, decodes_short,
  bad_frame, bad_segment, truncated_header, oversized_segment, malformed_segment, malformed_stream,
  unknown_compression, unmapped_address, striped_chunk, missing_device, unreadable, wrong_address,
  bad_node_checksum, too_many_items, wrong_level, too_deep, bad_chunk_array, extent_overflow,
  outside_extent, inline_too_large, implausible_extent, symlink_too_long, no_device,
  other_filesystem, refused_features, no_subvolume, no_inode, no_parent, endless_parents,
  not_directory, is_symlink, not_found, malformed_signature, malformed_key, bad_signature,
  wrong_comment, not_newer, helper_missing, helper_refused, helper_failed, predates_update,
  unknown_status, oversized_message, long_reply, long_path, oversized_download, signature_not_utf8,
}
use btrfs_peek.Disk.Bytes.{Bytes, bytes, u32_at, u64_at, u64_mod}

abbrev pub inode_item_size : ℕ
inode_item_size = 160

-- A signed integer; `negsuc n` is -(n + 1).
pub data ℤ : Type 0 where
  pos : ℕ → ℤ
  negsuc : ℕ → ℤ

-- `v as i64`.
unfoldable pub as_i64 : ℕ → ℤ
as_i64 v = if ltb v (2 ^ 63) then pos v else negsuc (u64_mod - v - 1)

pub record Inode : Type 0 where
  pub size : ℕ
  pub nlink : ℕ
  pub uid : ℕ
  pub gid : ℕ
  pub mode : ℕ
  pub mtime_sec : ℤ
  pub mtime_nsec : ℕ

-- `Inode::parse`.
unfoldable pub parse_inode : Bytes → Result Inode
parse_inode b = do
  bytes b 0 inode_item_size
  size ← u64_at b 16
  nlink ← u32_at b 40
  uid ← u32_at b 44
  gid ← u32_at b 48
  mode ← u32_at b 52
  mtime_sec ← u64_at b 136
  mtime_nsec ← u32_at b 144
  ok (record {
    size = size;
    nlink = nlink;
    uid = uid;
    gid = gid;
    mode = mode;
    mtime_sec = as_i64 mtime_sec;
    mtime_nsec = mtime_nsec;
  })

-- `mode & 0o170000`.
abbrev pub format : Inode → ℕ
format i = bit_and i.mode 0o170000

unfoldable pub is_dir : Inode → Bool
is_dir i = format i == 0o040000

unfoldable pub is_file : Inode → Bool
is_file i = format i == 0o100000

unfoldable pub is_symlink_inode : Inode → Bool
is_symlink_inode i = format i == 0o120000

unfoldable pub type_name : Inode → String
type_name i =
    let bits = format i in
    if bits == 0o040000
    then "dir"
    else if bits == 0o100000
    then "file"
    else if bits == 0o120000
    then "symlink"
    else if bits == 0o020000
    then "chardev"
    else if bits == 0o060000
    then "blockdev"
    else if bits == 0o010000
    then "fifo"
    else if bits == 0o140000
    then "socket"
    else "unknown"
