-- ===== src/Disk/Chunks.antt =====
-- disk.rs: chunk items, which map logical addresses to stripes on devices.
pub mod Encoding
use Prim.Native.String.{String}
use btrfs_peek.Prelude.{
  ℕ, zero, suc, ◌+◌, ◌-◌, ◌*◌, ◌/◌, ◌%◌, ◌^◌, ◌≤◌, ◌<◌, min, max, bit_and, bit_or, ◌≡◌, refl, sym,
  ap, ◌∙◌, ◌≢◌, ◌↔◌, ◌⊎◌, inl, inr, Bool, true, false, not, ◌&&◌, ◌||◌, Option, none, some, List,
  [], ◌∷◌, ◌++◌, map, append_assoc, append-nil, arith, Error, Result, ok, err, ◌>>=◌, ◌>>◌,
  >>=-eq-ok, guard, guard-eq-ok, raised, match_result, then_next, then_next-eq-ok, clean, IsClean,
  IsClean-bind, IsClean-if, ascii, onto, onto_first, split_once, split, strip_prefix, join,
  strip_prefix-append, strip_prefix_lem, Lacks, split_once-append, split_once_lem, join-split,
  split-append, split_whole, length, get_elem?, take, drop, replicate, All, length-append,
  length-take, length-drop, length-replicate, take-append_length, drop-append_length, take_all,
  take-append-drop, take_add, drop-drop, drop-take, take-take, take-append_le, All-append, All-take,
  All-drop, All-replicate, ltb, leb, ◌==◌, if◌then◌else◌, ltb→lt, lt→ltb, le→leb, leb→le, ==→eq,
  eq→==, Bool-cases, Option-cases, Result-cases, all_below, all_below_sound, insert_by, sort_by,
  IsSortedBy, sort_by-Perm, sort_by-IsSortedBy, Permᴰ, is_digit, AreDigits, all_digits,
  all_digits-AreDigits, AreDigits-all_digits, digits_from, to_decimal, digits_from-append,
  digits_from-to_decimal, to_decimal-AreDigits, to_decimal_fuel, digits_from-lt,
  to_decimal-digits_from, length-to_decimal, LeadsNonzero, to_decimal-LeadsNonzero,
  to_decimal-canonical, panicked, out_of_fuel, corrupt_structure, no_magic, checksum_mismatch,
  encrypted, zero_stripes, bad_array_size, bad_sectorsize, bad_nodesize, unknown_extent_type,
  io_error, unexpected_eof, implausible_size, zero_sectorsize, decodes_to_more, decodes_short,
  bad_frame, bad_segment, truncated_header, oversized_segment, malformed_segment, malformed_stream,
  unknown_compression, unmapped_address, striped_chunk, missing_device, unreadable, wrong_address,
  bad_node_checksum, too_many_items, wrong_level, too_deep, bad_chunk_array, extent_overflow,
  outside_extent, inline_too_large, implausible_extent, symlink_too_long, no_device,
  other_filesystem, refused_features, no_subvolume, no_inode, no_parent, endless_parents,
  not_directory, is_symlink, not_found, malformed_signature, malformed_key, bad_signature,
  wrong_comment, not_newer, helper_missing, helper_refused, helper_failed, predates_update,
  unknown_status, oversized_message, long_reply, long_path, oversized_download, signature_not_utf8,
}
use btrfs_peek.Disk.Bytes.{Bytes, u16_at, u64_at}
use btrfs_peek.Disk.Superblocks.{
  block_group_raid0, block_group_raid10, block_group_raid5, block_group_raid6,
}

-- `stripes` holds (devid, physical offset).
pub record Chunk : Type 0 where
  pub start : ℕ
  pub length : ℕ
  pub ty : ℕ
  pub stripes : List (ℕ × ℕ)

-- `for i in 0..num_stripes`: the rounds left, and `i`.
unfoldable pub parse_stripes : Bytes → ℕ → ℕ → Result (List (ℕ × ℕ))
parse_stripes b zero i = ok []
parse_stripes b (suc left) i = do
  let o = 48 + i * 32
  devid ← u64_at b o
  physical ← u64_at b (o + 8)
  rest ← parse_stripes b left (i + 1)
  ok ((devid, physical) ∷ rest)

-- `Chunk::parse`: the chunk with the number of bytes it occupied.
unfoldable pub parse_chunk : ℕ → Bytes → Result (Chunk × ℕ)
parse_chunk start b = do
  num_stripes ← u16_at b 44
  guard (not (num_stripes == 0)) zero_stripes
  stripes ← parse_stripes b num_stripes 0
  length ← u64_at b 0
  ty ← u64_at b 24
  ok (record { start = start; length = length; ty = ty; stripes = stripes }, 48 + num_stripes * 32)

-- `t & flag != 0`.
abbrev pub has_flag : ℕ → ℕ → Bool
has_flag t flag = not (bit_and t flag == 0)

unfoldable pub profile : Chunk → String
profile c =
    if has_flag c.ty block_group_raid0
    then "raid0"
    else if has_flag c.ty (2 ^ 4)
    then "raid1"
    else if has_flag c.ty (2 ^ 5)
    then "dup"
    else if has_flag c.ty block_group_raid10
    then "raid10"
    else if has_flag c.ty block_group_raid5
    then "raid5"
    else if has_flag c.ty block_group_raid6
    then "raid6"
    else if has_flag c.ty (2 ^ 9)
    then "raid1c3"
    else if has_flag c.ty (2 ^ 10)
    then "raid1c4"
    else "single"

unfoldable pub kind : Chunk → String
kind c =
    let bits = bit_and c.ty 7 in
    if bits == 1
    then "data"
    else if bits == 2
    then "system"
    else if bits == 4
    then "metadata"
    else if bits == 5
    then "data+metadata"
    else "mixed"
