-- ===== src/Disk/Keys.antt =====
-- disk.rs: item keys, their derived order, and the constants for object ids and key types.
pub mod Order
use btrfs_peek.Prelude.{
  ℕ, zero, suc, ◌+◌, ◌-◌, ◌*◌, ◌/◌, ◌%◌, ◌^◌, ◌≤◌, ◌<◌, min, max, bit_and, bit_or, ◌≡◌, refl, sym,
  ap, ◌∙◌, ◌≢◌, ◌↔◌, ◌⊎◌, inl, inr, Bool, true, false, not, ◌&&◌, ◌||◌, Option, none, some, List,
  [], ◌∷◌, ◌++◌, map, append_assoc, append-nil, arith, Error, Result, ok, err, ◌>>=◌, ◌>>◌,
  >>=-eq-ok, guard, guard-eq-ok, raised, match_result, then_next, then_next-eq-ok, clean, IsClean,
  IsClean-bind, IsClean-if, ascii, onto, onto_first, split_once, split, strip_prefix, join,
  strip_prefix-append, strip_prefix_lem, Lacks, split_once-append, split_once_lem, join-split,
  split-append, split_whole, length, get_elem?, take, drop, replicate, All, length-append,
  length-take, length-drop, length-replicate, take-append_length, drop-append_length, take_all,
  take-append-drop, take_add, drop-drop, drop-take, take-take, take-append_le, All-append, All-take,
  All-drop, All-replicate, ltb, leb, ◌==◌, if◌then◌else◌, ltb→lt, lt→ltb, le→leb, leb→le, ==→eq,
  eq→==, Bool-cases, Option-cases, Result-cases, all_below, all_below_sound, insert_by, sort_by,
  IsSortedBy, sort_by-Perm, sort_by-IsSortedBy, Permᴰ, is_digit, AreDigits, all_digits,
  all_digits-AreDigits, AreDigits-all_digits, digits_from, to_decimal, digits_from-append,
  digits_from-to_decimal, to_decimal-AreDigits, to_decimal_fuel, digits_from-lt,
  to_decimal-digits_from, length-to_decimal, LeadsNonzero, to_decimal-LeadsNonzero,
  to_decimal-canonical, panicked, out_of_fuel, corrupt_structure, no_magic, checksum_mismatch,
  encrypted, zero_stripes, bad_array_size, bad_sectorsize, bad_nodesize, unknown_extent_type,
  io_error, unexpected_eof, implausible_size, zero_sectorsize, decodes_to_more, decodes_short,
  bad_frame, bad_segment, truncated_header, oversized_segment, malformed_segment, malformed_stream,
  unknown_compression, unmapped_address, striped_chunk, missing_device, unreadable, wrong_address,
  bad_node_checksum, too_many_items, wrong_level, too_deep, bad_chunk_array, extent_overflow,
  outside_extent, inline_too_large, implausible_extent, symlink_too_long, no_device,
  other_filesystem, refused_features, no_subvolume, no_inode, no_parent, endless_parents,
  not_directory, is_symlink, not_found, malformed_signature, malformed_key, bad_signature,
  wrong_comment, not_newer, helper_missing, helper_refused, helper_failed, predates_update,
  unknown_status, oversized_message, long_reply, long_path, oversized_download, signature_not_utf8,
}
use btrfs_peek.Disk.Bytes.{Bytes, IsU64, IsByte, u8_at, u64_at, to_le_bytes}

abbrev pub fs_tree_objectid : ℕ
fs_tree_objectid = 5

abbrev pub first_free_objectid : ℕ
first_free_objectid = 256

-- `u64::MAX`.
abbrev pub u64_max : ℕ
u64_max = 0xffff_ffff_ffff_ffff

abbrev pub last_free_objectid : ℕ
last_free_objectid = 0xffff_ffff_ffff_feff

abbrev pub inode_item_key : ℕ
inode_item_key = 1

abbrev pub inode_ref_key : ℕ
inode_ref_key = 12

abbrev pub dir_item_key : ℕ
dir_item_key = 84

abbrev pub dir_index_key : ℕ
dir_index_key = 96

abbrev pub extent_data_key : ℕ
extent_data_key = 108

abbrev pub root_item_key : ℕ
root_item_key = 132

abbrev pub root_backref_key : ℕ
root_backref_key = 144

abbrev pub root_ref_key : ℕ
root_ref_key = 156

abbrev pub chunk_item_key : ℕ
chunk_item_key = 228

abbrev pub key_size : ℕ
key_size = 17

pub record Key : Type 0 where
  pub objectid : ℕ
  pub ty : ℕ
  pub offset : ℕ

-- `Key::new`.
abbrev pub new_key : ℕ → ℕ → ℕ → Key
new_key objectid ty offset = record { objectid = objectid; ty = ty; offset = offset }

-- `Key::parse`.
unfoldable pub parse_key : Bytes → ℕ → Result Key
parse_key b off = do
  objectid ← u64_at b off
  ty ← u8_at b (off + 8)
  offset ← u64_at b (off + 9)
  ok (new_key objectid ty offset)

-- The derived `Ord`: by the fields in the order of their declaration.
unfoldable pub ltb_key : Key → Key → Bool
ltb_key a b =
    if ltb a.objectid b.objectid
    then true
    else a.objectid == b.objectid
      && (if ltb a.ty b.ty then true else a.ty == b.ty && ltb a.offset b.offset)

-- `a <= b`, derived, is `!(b < a)`.
unfoldable pub leb_key : Key → Key → Bool
unfolding ltb_key
leb_key a b = not (ltb_key b a)

-- What a key's fields can hold.
pub record FitsKey (k : Key) : Type 0 where
  pub objectid : IsU64 k.objectid
  pub ty : IsByte k.ty
  pub offset : IsU64 k.offset

-- The 17 bytes of a key on disk.
unfoldable pub encode_key : Key → Bytes
encode_key k = to_le_bytes 8 k.objectid ++ (k.ty ∷ to_le_bytes 8 k.offset)
