-- ===== src/Disk/DirEntries.antt =====
-- disk.rs: directory items, each a run of entries, and the hash of a name.
pub mod Encoding
use btrfs_peek.Prelude.{
  ℕ, zero, suc, ◌+◌, ◌-◌, ◌*◌, ◌/◌, ◌%◌, ◌^◌, ◌≤◌, ◌<◌, min, max, bit_and, bit_or, ◌≡◌, refl, sym,
  ap, ◌∙◌, ◌≢◌, ◌↔◌, ◌⊎◌, inl, inr, Bool, true, false, not, ◌&&◌, ◌||◌, Option, none, some, List,
  [], ◌∷◌, ◌++◌, map, append_assoc, append-nil, arith, Error, Result, ok, err, ◌>>=◌, ◌>>◌,
  >>=-eq-ok, guard, guard-eq-ok, raised, match_result, then_next, then_next-eq-ok, clean, IsClean,
  IsClean-bind, IsClean-if, ascii, onto, onto_first, split_once, split, strip_prefix, join,
  strip_prefix-append, strip_prefix_lem, Lacks, split_once-append, split_once_lem, join-split,
  split-append, split_whole, length, get_elem?, take, drop, replicate, All, length-append,
  length-take, length-drop, length-replicate, take-append_length, drop-append_length, take_all,
  take-append-drop, take_add, drop-drop, drop-take, take-take, take-append_le, All-append, All-take,
  All-drop, All-replicate, ltb, leb, ◌==◌, if◌then◌else◌, ltb→lt, lt→ltb, le→leb, leb→le, ==→eq,
  eq→==, Bool-cases, Option-cases, Result-cases, all_below, all_below_sound, insert_by, sort_by,
  IsSortedBy, sort_by-Perm, sort_by-IsSortedBy, Permᴰ, is_digit, AreDigits, all_digits,
  all_digits-AreDigits, AreDigits-all_digits, digits_from, to_decimal, digits_from-append,
  digits_from-to_decimal, to_decimal-AreDigits, to_decimal_fuel, digits_from-lt,
  to_decimal-digits_from, length-to_decimal, LeadsNonzero, to_decimal-LeadsNonzero,
  to_decimal-canonical, panicked, out_of_fuel, corrupt_structure, no_magic, checksum_mismatch,
  encrypted, zero_stripes, bad_array_size, bad_sectorsize, bad_nodesize, unknown_extent_type,
  io_error, unexpected_eof, implausible_size, zero_sectorsize, decodes_to_more, decodes_short,
  bad_frame, bad_segment, truncated_header, oversized_segment, malformed_segment, malformed_stream,
  unknown_compression, unmapped_address, striped_chunk, missing_device, unreadable, wrong_address,
  bad_node_checksum, too_many_items, wrong_level, too_deep, bad_chunk_array, extent_overflow,
  outside_extent, inline_too_large, implausible_extent, symlink_too_long, no_device,
  other_filesystem, refused_features, no_subvolume, no_inode, no_parent, endless_parents,
  not_directory, is_symlink, not_found, malformed_signature, malformed_key, bad_signature,
  wrong_comment, not_newer, helper_missing, helper_refused, helper_failed, predates_update,
  unknown_status, oversized_message, long_reply, long_path, oversized_download, signature_not_utf8,
}
use btrfs_peek.Disk.Bytes.{Bytes, bytes, u8_at, u16_at}
use btrfs_peek.Disk.External.{External}
use btrfs_peek.Disk.Keys.{Key, parse_key}

abbrev pub ft_dir : ℕ
ft_dir = 2

abbrev pub ft_symlink : ℕ
ft_symlink = 7

pub record DirEntry : Type 0 where
  pub name : Bytes
  pub location : Key
  pub ftype : ℕ

-- One round of the loop: the entry at `off`, and the next `off`.
unfoldable pub parse_dir_entry : Bytes → ℕ → Result (DirEntry × ℕ)
parse_dir_entry b off = do
  location ← parse_key b off
  data_len ← u16_at b (off + 25)
  name_len ← u16_at b (off + 27)
  ftype ← u8_at b (off + 29)
  name ← bytes b (off + 30) name_len
  ok (record { name = name; location = location; ftype = ftype }, off + (30 + name_len + data_len))

-- `while off < b.len()`, on fuel.
unfoldable pub dir_entries_from : ℕ → Bytes → ℕ → Result (List DirEntry)
dir_entries_from zero b off = if ltb off (length b) then err out_of_fuel else ok []
dir_entries_from (suc fuel) b off =
    let round = do
      (entry, next) ← parse_dir_entry b off
      rest ← dir_entries_from fuel b next
      ok (entry ∷ rest)
    in if ltb off (length b) then round else ok []

-- Each round takes 30 bytes at least, so `length b` rounds are enough.
unfoldable pub parse_dir_entries : Bytes → Result (List DirEntry)
parse_dir_entries b = dir_entries_from (length b) b 0

-- `btrfs_name_hash`: `!crc32c_append(1, name)` on 32 bits, widened.
unfoldable pub name_hash : External → Bytes → ℕ
name_hash x name = 0xffff_ffff - x.crc32c_append 1 name
