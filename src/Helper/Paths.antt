-- ===== src/Helper/Paths.antt =====
-- helper.rs: the names that the service accepts.
pub mod Shapes
use btrfs_peek.Prelude.{
  ℕ, zero, suc, ◌+◌, ◌-◌, ◌*◌, ◌/◌, ◌%◌, ◌^◌, ◌≤◌, ◌<◌, min, max, bit_and, bit_or, ◌≡◌, refl, sym,
  ap, ◌∙◌, ◌≢◌, ◌↔◌, ◌⊎◌, inl, inr, Bool, true, false, not, ◌&&◌, ◌||◌, Option, none, some, List,
  [], ◌∷◌, ◌++◌, map, append_assoc, append-nil, arith, Error, Result, ok, err, ◌>>=◌, ◌>>◌,
  >>=-eq-ok, guard, guard-eq-ok, raised, match_result, then_next, then_next-eq-ok, clean, IsClean,
  IsClean-bind, IsClean-if, ascii, onto, onto_first, split_once, split, strip_prefix, join,
  strip_prefix-append, strip_prefix_lem, Lacks, split_once-append, split_once_lem, join-split,
  split-append, split_whole, length, get_elem?, take, drop, replicate, All, length-append,
  length-take, length-drop, length-replicate, take-append_length, drop-append_length, take_all,
  take-append-drop, take_add, drop-drop, drop-take, take-take, take-append_le, All-append, All-take,
  All-drop, All-replicate, ltb, leb, ◌==◌, if◌then◌else◌, ltb→lt, lt→ltb, le→leb, leb→le, ==→eq,
  eq→==, Bool-cases, Option-cases, Result-cases, all_below, all_below_sound, insert_by, sort_by,
  IsSortedBy, sort_by-Perm, sort_by-IsSortedBy, Permᴰ, is_digit, AreDigits, all_digits,
  all_digits-AreDigits, AreDigits-all_digits, digits_from, to_decimal, digits_from-append,
  digits_from-to_decimal, to_decimal-AreDigits, to_decimal_fuel, digits_from-lt,
  to_decimal-digits_from, length-to_decimal, LeadsNonzero, to_decimal-LeadsNonzero,
  to_decimal-canonical, panicked, out_of_fuel, corrupt_structure, no_magic, checksum_mismatch,
  encrypted, zero_stripes, bad_array_size, bad_sectorsize, bad_nodesize, unknown_extent_type,
  io_error, unexpected_eof, implausible_size, zero_sectorsize, decodes_to_more, decodes_short,
  bad_frame, bad_segment, truncated_header, oversized_segment, malformed_segment, malformed_stream,
  unknown_compression, unmapped_address, striped_chunk, missing_device, unreadable, wrong_address,
  bad_node_checksum, too_many_items, wrong_level, too_deep, bad_chunk_array, extent_overflow,
  outside_extent, inline_too_large, implausible_extent, symlink_too_long, no_device,
  other_filesystem, refused_features, no_subvolume, no_inode, no_parent, endless_parents,
  not_directory, is_symlink, not_found, malformed_signature, malformed_key, bad_signature,
  wrong_comment, not_newer, helper_missing, helper_refused, helper_failed, predates_update,
  unknown_status, oversized_message, long_reply, long_path, oversized_download, signature_not_utf8,
}
use btrfs_peek.Disk.External.{eq_bytes}
use btrfs_peek.Helper.Versions.{Text, starts_with_zero}

-- `to_ascii_lowercase`.
abbrev pub lower : ℕ → ℕ
lower c = if leb b'A' c && leb c b'Z' then c + 32 else c

abbrev pub lowercase : Text → Text
lowercase = map lower

past_prefix : ℕ → Option (Text × Text) → Option (Text × Text)
past_prefix c none = none
past_prefix c (some (front, back)) = some (c ∷ front, back)

or_later : Option Text → Option (Text × Text) → Option (Text × Text)
or_later (some back) later = some ([], back)
or_later none later = later

-- `split_once` at a text.
unfoldable pub split_once_at : Text → Text → Option (Text × Text)
unfolding past_prefix or_later
split_once_at sep [] = or_later (strip_prefix sep []) none
split_once_at sep (c ∷ cs) =
    or_later (strip_prefix sep (c ∷ cs)) (past_prefix c (split_once_at sep cs))

unfoldable pub number_ok : Text → Bool
number_ok n =
    (leb 1 (length n) && leb (length n) 3)
    && (all_digits n && (eq_bytes n (b'0' ∷ []) || not (starts_with_zero n)))

-- `\\.\harddisk`.
abbrev pub harddisk : Text
harddisk = 0x5c ∷ 0x5c ∷ b'.' ∷ 0x5c ∷ ascii "harddisk"

abbrev pub partition : Text
partition = ascii "partition"

numbers_ok : Option (Text × Text) → Bool
numbers_ok none = false
numbers_ok (some (disk, part)) =
    number_ok disk && (number_ok part && not (eq_bytes part (b'0' ∷ [])))

after_harddisk : Option Text → Bool
unfolding numbers_ok
after_harddisk none = false
after_harddisk (some rest) = numbers_ok (split_once_at partition rest)

unfoldable pub partition_path_ok : Text → Bool
unfolding after_harddisk
partition_path_ok p = after_harddisk (strip_prefix harddisk (lowercase p))

abbrev pub is_some : Option Text → Bool
is_some none = false
is_some (some s) = true

-- `all(|b| b.is_ascii_digit() || b == b'-')`.
unfoldable pub all_sid : Text → Bool
all_sid [] = true
all_sid (c ∷ cs) = (is_digit c || c == b'-') && all_sid cs

unfoldable pub sid_ok : Text → Bool
sid_ok sid =
    (ltb (length sid) 200 && ltb 4 (length sid))
    && (is_some (strip_prefix (ascii "S-1-") sid) && all_sid (drop 4 sid))
