-- ===== src/Helper/Versions.antt =====
-- helper/update.rs: versions, read and printed.
pub mod Spelling
use btrfs_peek.Prelude.{
  ℕ, zero, suc, ◌+◌, ◌-◌, ◌*◌, ◌/◌, ◌%◌, ◌^◌, ◌≤◌, ◌<◌, min, max, bit_and, bit_or, ◌≡◌, refl, sym,
  ap, ◌∙◌, ◌≢◌, ◌↔◌, ◌⊎◌, inl, inr, Bool, true, false, not, ◌&&◌, ◌||◌, Option, none, some, List,
  [], ◌∷◌, ◌++◌, map, append_assoc, append-nil, arith, Error, Result, ok, err, ◌>>=◌, ◌>>◌,
  >>=-eq-ok, guard, guard-eq-ok, raised, match_result, then_next, then_next-eq-ok, clean, IsClean,
  IsClean-bind, IsClean-if, ascii, onto, onto_first, split_once, split, strip_prefix, join,
  strip_prefix-append, strip_prefix_lem, Lacks, split_once-append, split_once_lem, join-split,
  split-append, split_whole, length, get_elem?, take, drop, replicate, All, length-append,
  length-take, length-drop, length-replicate, take-append_length, drop-append_length, take_all,
  take-append-drop, take_add, drop-drop, drop-take, take-take, take-append_le, All-append, All-take,
  All-drop, All-replicate, ltb, leb, ◌==◌, if◌then◌else◌, ltb→lt, lt→ltb, le→leb, leb→le, ==→eq,
  eq→==, Bool-cases, Option-cases, Result-cases, all_below, all_below_sound, insert_by, sort_by,
  IsSortedBy, sort_by-Perm, sort_by-IsSortedBy, Permᴰ, is_digit, AreDigits, all_digits,
  all_digits-AreDigits, AreDigits-all_digits, digits_from, to_decimal, digits_from-append,
  digits_from-to_decimal, to_decimal-AreDigits, to_decimal_fuel, digits_from-lt,
  to_decimal-digits_from, length-to_decimal, LeadsNonzero, to_decimal-LeadsNonzero,
  to_decimal-canonical, panicked, out_of_fuel, corrupt_structure, no_magic, checksum_mismatch,
  encrypted, zero_stripes, bad_array_size, bad_sectorsize, bad_nodesize, unknown_extent_type,
  io_error, unexpected_eof, implausible_size, zero_sectorsize, decodes_to_more, decodes_short,
  bad_frame, bad_segment, truncated_header, oversized_segment, malformed_segment, malformed_stream,
  unknown_compression, unmapped_address, striped_chunk, missing_device, unreadable, wrong_address,
  bad_node_checksum, too_many_items, wrong_level, too_deep, bad_chunk_array, extent_overflow,
  outside_extent, inline_too_large, implausible_extent, symlink_too_long, no_device,
  other_filesystem, refused_features, no_subvolume, no_inode, no_parent, endless_parents,
  not_directory, is_symlink, not_found, malformed_signature, malformed_key, bad_signature,
  wrong_comment, not_newer, helper_missing, helper_refused, helper_failed, predates_update,
  unknown_status, oversized_message, long_reply, long_path, oversized_download, signature_not_utf8,
}
use btrfs_peek.Disk.Bytes.{Bytes, u64_mod}
use btrfs_peek.Disk.External.{eq_bytes}

-- A text, as its UTF-8 bytes.
abbrev pub Text : Type 0
Text = Bytes

pub record Version : Type 0 where
  pub major : ℕ
  pub minor : ℕ
  pub patch : ℕ

abbrev pub is_empty_text : Text → Bool
is_empty_text [] = true
is_empty_text (c ∷ cs) = false

-- `starts_with('0')`.
abbrev pub starts_with_zero : Text → Bool
starts_with_zero [] = false
starts_with_zero (c ∷ cs) = c == b'0'

unfoldable pub is_canonical : Text → Bool
is_canonical p =
    not (is_empty_text p)
    && (leb (length p) 19 && (all_digits p && (eq_bytes p (b'0' ∷ []) || not (starts_with_zero p))))

-- `p.parse::<u64>().ok()`, of digits.
unfoldable pub parse_u64 : Text → Option ℕ
parse_u64 p = let n = digits_from 0 p in if ltb n u64_mod then some n else none

-- The closure `next`, of a part that is there.
unfoldable pub next_field : Text → Option ℕ
next_field p = if is_canonical p then parse_u64 p else none

whole_version : Option ℕ → Option ℕ → Option ℕ → List Text → Option Version
whole_version (some major) (some minor) (some patch) [] =
    some (record { major = major; minor = minor; patch = patch })
whole_version _ _ _ _ = none

version_of_parts : List Text → Option Version
unfolding whole_version
version_of_parts (a ∷ b ∷ c ∷ rest) =
    whole_version (next_field a) (next_field b) (next_field c) rest
version_of_parts _ = none

-- `Version::parse`.
unfoldable pub parse_version : Text → Option Version
unfolding version_of_parts
parse_version s = version_of_parts (split b'.' s)

-- A `u64` has twenty digits at most.
abbrev pub decimal : ℕ → Text
decimal n = to_decimal 20 n

-- `Version`'s `Display`.
unfoldable pub display_version : Version → Text
display_version v = decimal v.major ++ (b'.' ∷ (decimal v.minor ++ (b'.' ∷ decimal v.patch)))

-- The derived `Ord`: by the fields in the order of their declaration.
unfoldable pub ltb_version : Version → Version → Bool
ltb_version a b =
    if ltb a.major b.major
    then true
    else a.major == b.major
      && (if ltb a.minor b.minor then true else a.minor == b.minor && ltb a.patch b.patch)
