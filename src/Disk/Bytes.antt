-- ===== src/Disk/Bytes.antt =====
-- disk.rs: bounds-checked little-endian reads of a byte slice. A slice is a list of numbers, and a
-- `usize` or `u64` is a number with its wrap-around written out.
pub mod Slices
pub mod Words
pub mod Clean
use btrfs_peek.Prelude.{
  ℕ, zero, suc, ◌+◌, ◌-◌, ◌*◌, ◌/◌, ◌%◌, ◌^◌, ◌≤◌, ◌<◌, min, max, bit_and, bit_or, ◌≡◌, refl, sym,
  ap, ◌∙◌, ◌≢◌, ◌↔◌, ◌⊎◌, inl, inr, Bool, true, false, not, ◌&&◌, ◌||◌, Option, none, some, List,
  [], ◌∷◌, ◌++◌, map, append_assoc, append-nil, arith, Error, Result, ok, err, ◌>>=◌, ◌>>◌,
  >>=-eq-ok, guard, guard-eq-ok, raised, match_result, then_next, then_next-eq-ok, clean, IsClean,
  IsClean-bind, IsClean-if, ascii, onto, onto_first, split_once, split, strip_prefix, join,
  strip_prefix-append, strip_prefix_lem, Lacks, split_once-append, split_once_lem, join-split,
  split-append, split_whole, length, get_elem?, take, drop, replicate, All, length-append,
  length-take, length-drop, length-replicate, take-append_length, drop-append_length, take_all,
  take-append-drop, take_add, drop-drop, drop-take, take-take, take-append_le, All-append, All-take,
  All-drop, All-replicate, ltb, leb, ◌==◌, if◌then◌else◌, ltb→lt, lt→ltb, le→leb, leb→le, ==→eq,
  eq→==, Bool-cases, Option-cases, Result-cases, all_below, all_below_sound, insert_by, sort_by,
  IsSortedBy, sort_by-Perm, sort_by-IsSortedBy, Permᴰ, is_digit, AreDigits, all_digits,
  all_digits-AreDigits, AreDigits-all_digits, digits_from, to_decimal, digits_from-append,
  digits_from-to_decimal, to_decimal-AreDigits, to_decimal_fuel, digits_from-lt,
  to_decimal-digits_from, length-to_decimal, LeadsNonzero, to_decimal-LeadsNonzero,
  to_decimal-canonical, panicked, out_of_fuel, corrupt_structure, no_magic, checksum_mismatch,
  encrypted, zero_stripes, bad_array_size, bad_sectorsize, bad_nodesize, unknown_extent_type,
  io_error, unexpected_eof, implausible_size, zero_sectorsize, decodes_to_more, decodes_short,
  bad_frame, bad_segment, truncated_header, oversized_segment, malformed_segment, malformed_stream,
  unknown_compression, unmapped_address, striped_chunk, missing_device, unreadable, wrong_address,
  bad_node_checksum, too_many_items, wrong_level, too_deep, bad_chunk_array, extent_overflow,
  outside_extent, inline_too_large, implausible_extent, symlink_too_long, no_device,
  other_filesystem, refused_features, no_subvolume, no_inode, no_parent, endless_parents,
  not_directory, is_symlink, not_found, malformed_signature, malformed_key, bad_signature,
  wrong_comment, not_newer, helper_missing, helper_refused, helper_failed, predates_update,
  unknown_status, oversized_message, long_reply, long_path, oversized_download, signature_not_utf8,
}

abbrev pub Bytes : Type 0
Bytes = List ℕ

abbrev pub IsByte : ℕ → Type 0
IsByte b = b < 256

abbrev pub AreBytes : Bytes → Type 0
AreBytes = All IsByte

-- `usize` and `u64` are 64 bits wide on the targets.
abbrev pub u64_mod : ℕ
u64_mod = 0x1_0000_0000_0000_0000

abbrev pub IsU64 : ℕ → Type 0
IsU64 n = n < u64_mod

-- `usize::checked_add`.
abbrev pub checked_add : ℕ → ℕ → Option ℕ
checked_add a b = if ltb (a + b) u64_mod then some (a + b) else none

-- `+` on u64 in a release build.
abbrev pub add64 : ℕ → ℕ → ℕ
add64 a b = (a + b) % u64_mod

-- `b.get(start..end)`.
unfoldable pub get_range : Bytes → ℕ → ℕ → Option Bytes
get_range b start end =
    if leb start end && leb end (length b) then some (take (end - start) (drop start b)) else none

or_corrupt : Option Bytes → ℕ → ℕ → Result Bytes
or_corrupt (some s) len off = ok s
or_corrupt none len off = err (corrupt_structure len off)

range_to : Bytes → ℕ → Option ℕ → Option Bytes
range_to b off none = none
range_to b off (some end) = get_range b off end

unfoldable pub bytes : Bytes → ℕ → ℕ → Result Bytes
unfolding get_range or_corrupt range_to
bytes b off len = or_corrupt (range_to b off (checked_add off len)) len off

-- `from_le_bytes`.
unfoldable pub from_le_bytes : Bytes → ℕ
from_le_bytes [] = 0
from_le_bytes (x ∷ xs) = x + 256 * from_le_bytes xs

-- Its inverse on `n` bytes, `to_le_bytes`.
unfoldable pub to_le_bytes : ℕ → ℕ → Bytes
to_le_bytes zero v = []
to_le_bytes (suc n) v = (v % 256) ∷ to_le_bytes n (v / 256)

-- `s[0]`, which panics on an empty slice.
abbrev pub first : Bytes → Result ℕ
first [] = err panicked
first (x ∷ xs) = ok x

unfoldable pub u8_at : Bytes → ℕ → Result ℕ
u8_at b off = do s ← bytes b off 1; first s

-- `from_le_bytes(s.try_into().unwrap())` of an integer of `n` bytes: a slice of another length panics.
abbrev pub word : ℕ → Bytes → Result ℕ
word n s = if length s == n then ok (from_le_bytes s) else err panicked

unfoldable pub u16_at : Bytes → ℕ → Result ℕ
u16_at b off = do s ← bytes b off 2; word 2 s

unfoldable pub u32_at : Bytes → ℕ → Result ℕ
u32_at b off = do s ← bytes b off 4; word 4 s

unfoldable pub u64_at : Bytes → ℕ → Result ℕ
u64_at b off = do s ← bytes b off 8; word 8 s
