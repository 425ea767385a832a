-- ===== src/Disk/Extents.antt =====
-- disk.rs: file extent items.
pub mod Encoding
use Prim.Native.String.{String}
use btrfs_peek.Prelude.{
  ℕ, zero, suc, ◌+◌, ◌-◌, ◌*◌, ◌/◌, ◌%◌, ◌^◌, ◌≤◌, ◌<◌, min, max, bit_and, bit_or, ◌≡◌, refl, sym,
  ap, ◌∙◌, ◌≢◌, ◌↔◌, ◌⊎◌, inl, inr, Bool, true, false, not, ◌&&◌, ◌||◌, Option, none, some, List,
  [], ◌∷◌, ◌++◌, map, append_assoc, append-nil, arith, Error, Result, ok, err, ◌>>=◌, ◌>>◌,
  >>=-eq-ok, guard, guard-eq-ok, raised, match_result, then_next, then_next-eq-ok, clean, IsClean,
  IsClean-bind, IsClean-if, ascii, onto, onto_first, split_once, split, strip_prefix, join,
  strip_prefix-append, strip_prefix_lem, Lacks, split_once-append, split_once_lem, join-split,
  split-append, split_whole, length, get_elem?, take, drop, replicate, All, length-append,
  length-take, length-drop, length-replicate, take-append_length, drop-append_length, take_all,
  take-append-drop, take_add, drop-drop, drop-take, take-take, take-append_le, All-append, All-take,
  All-drop, All-replicate, ltb, leb, ◌==◌, if◌then◌else◌, ltb→lt, lt→ltb, le→leb, leb→le, ==→eq,
  eq→==, Bool-cases, Option-cases, Result-cases, all_below, all_below_sound, insert_by, sort_by,
  IsSortedBy, sort_by-Perm, sort_by-IsSortedBy, Permᴰ, is_digit, AreDigits, all_digits,
  all_digits-AreDigits, AreDigits-all_digits, digits_from, to_decimal, digits_from-append,
  digits_from-to_decimal, to_decimal-AreDigits, to_decimal_fuel, digits_from-lt,
  to_decimal-digits_from, length-to_decimal, LeadsNonzero, to_decimal-LeadsNonzero,
  to_decimal-canonical, panicked, out_of_fuel, corrupt_structure, no_magic, checksum_mismatch,
  encrypted, zero_stripes, bad_array_size, bad_sectorsize, bad_nodesize, unknown_extent_type,
  io_error, unexpected_eof, implausible_size, zero_sectorsize, decodes_to_more, decodes_short,
  bad_frame, bad_segment, truncated_header, oversized_segment, malformed_segment, malformed_stream,
  unknown_compression, unmapped_address, striped_chunk, missing_device, unreadable, wrong_address,
  bad_node_checksum, too_many_items, wrong_level, too_deep, bad_chunk_array, extent_overflow,
  outside_extent, inline_too_large, implausible_extent, symlink_too_long, no_device,
  other_filesystem, refused_features, no_subvolume, no_inode, no_parent, endless_parents,
  not_directory, is_symlink, not_found, malformed_signature, malformed_key, bad_signature,
  wrong_comment, not_newer, helper_missing, helper_refused, helper_failed, predates_update,
  unknown_status, oversized_message, long_reply, long_path, oversized_download, signature_not_utf8,
}
use btrfs_peek.Disk.Bytes.{Bytes, bytes, u8_at, u64_at}

pub data ExtentKind : Type 0 where
  inline : Bytes → ExtentKind
  -- disk_bytenr, disk_num_bytes, offset; `disk_bytenr` 0 is a hole.
  regular : ℕ → ℕ → ℕ → ExtentKind
  prealloc : ExtentKind

pub record Extent : Type 0 where
  pub file_off : ℕ
  pub len : ℕ
  pub ram_bytes : ℕ
  pub compression : ℕ
  pub kind : ExtentKind

inline_kind : Bytes → ℕ → Result (ExtentKind × ℕ)
inline_kind b ram_bytes = do raw ← bytes b 21 (length b - 21); ok (inline raw, ram_bytes)

regular_kind : Bytes → ℕ → Result (ExtentKind × ℕ)
regular_kind b num_bytes = do
  disk_bytenr ← u64_at b 21
  disk_num_bytes ← u64_at b 29
  offset ← u64_at b 37
  ok (regular disk_bytenr disk_num_bytes offset, num_bytes)

on_disk_kind : Bytes → ℕ → Result (ExtentKind × ℕ)
unfolding regular_kind
on_disk_kind b t = do
  num_bytes ← u64_at b 45
  if t == 2 then ok (prealloc, num_bytes) else regular_kind b num_bytes

-- `match u8_at(b, 20)?`: the kind with the bytes that the extent contributes.
unfoldable pub extent_kind : Bytes → ℕ → ℕ → Result (ExtentKind × ℕ)
unfolding inline_kind on_disk_kind
extent_kind b t ram_bytes =
    if t == 0
    then inline_kind b ram_bytes
    else if t == 1 || t == 2
    then on_disk_kind b t
    else err (unknown_extent_type t)

-- `Extent::parse`.
unfoldable pub parse_extent : ℕ → Bytes → Result Extent
unfolding extent_kind
parse_extent file_off b = do
  ram_bytes ← u64_at b 8
  compression ← u8_at b 16
  encryption ← u8_at b 17
  guard (encryption == 0) encrypted
  t ← u8_at b 20
  (kind, len) ← extent_kind b t ram_bytes
  ok (record {
    file_off = file_off;
    len = len;
    ram_bytes = ram_bytes;
    compression = compression;
    kind = kind;
  })

unfoldable pub compression_name : Extent → String
compression_name e =
    if e.compression == 0
    then "none"
    else if e.compression == 1
    then "zlib"
    else if e.compression == 2
    then "lzo"
    else if e.compression == 3
    then "zstd"
    else "unknown"
