-- ===== src/Dev.antt =====
-- dev.rs: reads of an image file or a raw device, widened to 4 KiB boundaries.
pub mod Content
use btrfs_peek.Prelude.{
  ℕ, zero, suc, ◌+◌, ◌-◌, ◌*◌, ◌/◌, ◌%◌, ◌^◌, ◌≤◌, ◌<◌, min, max, bit_and, bit_or, ◌≡◌, refl, sym,
  ap, ◌∙◌, ◌≢◌, ◌↔◌, ◌⊎◌, inl, inr, Bool, true, false, not, ◌&&◌, ◌||◌, Option, none, some, List,
  [], ◌∷◌, ◌++◌, map, append_assoc, append-nil, arith, Error, Result, ok, err, ◌>>=◌, ◌>>◌,
  >>=-eq-ok, guard, guard-eq-ok, raised, match_result, then_next, then_next-eq-ok, clean, IsClean,
  IsClean-bind, IsClean-if, ascii, onto, onto_first, split_once, split, strip_prefix, join,
  strip_prefix-append, strip_prefix_lem, Lacks, split_once-append, split_once_lem, join-split,
  split-append, split_whole, length, get_elem?, take, drop, replicate, All, length-append,
  length-take, length-drop, length-replicate, take-append_length, drop-append_length, take_all,
  take-append-drop, take_add, drop-drop, drop-take, take-take, take-append_le, All-append, All-take,
  All-drop, All-replicate, ltb, leb, ◌==◌, if◌then◌else◌, ltb→lt, lt→ltb, le→leb, leb→le, ==→eq,
  eq→==, Bool-cases, Option-cases, Result-cases, all_below, all_below_sound, insert_by, sort_by,
  IsSortedBy, sort_by-Perm, sort_by-IsSortedBy, Permᴰ, is_digit, AreDigits, all_digits,
  all_digits-AreDigits, AreDigits-all_digits, digits_from, to_decimal, digits_from-append,
  digits_from-to_decimal, to_decimal-AreDigits, to_decimal_fuel, digits_from-lt,
  to_decimal-digits_from, length-to_decimal, LeadsNonzero, to_decimal-LeadsNonzero,
  to_decimal-canonical, panicked, out_of_fuel, corrupt_structure, no_magic, checksum_mismatch,
  encrypted, zero_stripes, bad_array_size, bad_sectorsize, bad_nodesize, unknown_extent_type,
  io_error, unexpected_eof, implausible_size, zero_sectorsize, decodes_to_more, decodes_short,
  bad_frame, bad_segment, truncated_header, oversized_segment, malformed_segment, malformed_stream,
  unknown_compression, unmapped_address, striped_chunk, missing_device, unreadable, wrong_address,
  bad_node_checksum, too_many_items, wrong_level, too_deep, bad_chunk_array, extent_overflow,
  outside_extent, inline_too_large, implausible_extent, symlink_too_long, no_device,
  other_filesystem, refused_features, no_subvolume, no_inode, no_parent, endless_parents,
  not_directory, is_symlink, not_found, malformed_signature, malformed_key, bad_signature,
  wrong_comment, not_newer, helper_missing, helper_refused, helper_failed, predates_update,
  unknown_status, oversized_message, long_reply, long_path, oversized_download, signature_not_utf8,
}
use btrfs_peek.Disk.Bytes.{Bytes, u64_mod, add64}

abbrev pub align : ℕ
align = 4096

abbrev pub max_io : ℕ
max_io = 0x40_0000

-- What one `read_at` does: bytes into the front of the buffer, `ErrorKind::Interrupted`, or another error.
pub data Attempt : Type 0 where
  got : Bytes → Attempt
  interrupted failed : Attempt

-- The backing file is the operating system's: a function of the attempt's number within one read,
-- the offset and the bytes wanted. `retries` bounds the interrupted attempts that are modelled.
pub record Device : Type 0 where
  pub read_at : ℕ → ℕ → ℕ → Attempt
  pub retries : ℕ

-- `u64` subtraction in a release build.
abbrev pub sub64 : ℕ → ℕ → ℕ
sub64 a b = (a + u64_mod - b) % u64_mod

-- `x.div_ceil(ALIGN) * ALIGN`.
abbrev pub round_up : ℕ → ℕ
round_up x = (x + 4095) / 4096 * 4096 % u64_mod

-- One round of the loop, by what the attempt did: `more` goes on with the bytes read so far.
unfoldable pub after_attempt : (Bytes → Result Bytes) → Bytes → Attempt → Result Bytes
after_attempt more buf (got []) = ok buf
after_attempt more buf (got (x ∷ xs)) = more (buf ++ (x ∷ xs))
after_attempt more buf interrupted = more buf
after_attempt more buf failed = err io_error

-- `while done < buf.len()`: the fuel, the attempt's number, and the bytes read so far.
unfoldable pub read_loop : Device → ℕ → ℕ → ℕ → ℕ → Bytes → Result Bytes
unfolding after_attempt
read_loop d start size zero attempt buf = if ltb (length buf) size then err out_of_fuel else ok buf
read_loop d start size (suc fuel) attempt buf =
    if ltb (length buf) size
    then after_attempt (read_loop d start size fuel (attempt + 1)) buf
        (d.read_at attempt (start + length buf) (min (size - length buf) max_io))
    else ok buf

-- A vector longer than `isize::MAX` bytes panics.
unfoldable pub fill : Device → ℕ → ℕ → Result Bytes
unfolding read_loop
fill d start size =
    if ltb size (2 ^ 63) then read_loop d start size (d.retries + size) 0 [] else err panicked

-- `Device::read`.
unfoldable pub read : Device → ℕ → ℕ → Result Bytes
unfolding fill
read d off len = do
  let start = off - off % align
  let size = sub64 (round_up (add64 off len)) start
  let skip = off - start
  buf ← fill d start size
  guard (leb (skip + len) (length buf)) unexpected_eof
  ok (drop skip (take (skip + len) buf))
