-- ===== src/Helper/Client.antt =====
-- helper.rs: a client's side of a session. `String::from_utf8_lossy` is a parameter.
pub mod RoundTrip
use btrfs_peek.Prelude.{
  ℕ, zero, suc, ◌+◌, ◌-◌, ◌*◌, ◌/◌, ◌%◌, ◌^◌, ◌≤◌, ◌<◌, min, max, bit_and, bit_or, ◌≡◌, refl, sym,
  ap, ◌∙◌, ◌≢◌, ◌↔◌, ◌⊎◌, inl, inr, Bool, true, false, not, ◌&&◌, ◌||◌, Option, none, some, List,
  [], ◌∷◌, ◌++◌, map, append_assoc, append-nil, arith, Error, Result, ok, err, ◌>>=◌, ◌>>◌,
  >>=-eq-ok, guard, guard-eq-ok, raised, match_result, then_next, then_next-eq-ok, clean, IsClean,
  IsClean-bind, IsClean-if, ascii, onto, onto_first, split_once, split, strip_prefix, join,
  strip_prefix-append, strip_prefix_lem, Lacks, split_once-append, split_once_lem, join-split,
  split-append, split_whole, length, get_elem?, take, drop, replicate, All, length-append,
  length-take, length-drop, length-replicate, take-append_length, drop-append_length, take_all,
  take-append-drop, take_add, drop-drop, drop-take, take-take, take-append_le, All-append, All-take,
  All-drop, All-replicate, ltb, leb, ◌==◌, if◌then◌else◌, ltb→lt, lt→ltb, le→leb, leb→le, ==→eq,
  eq→==, Bool-cases, Option-cases, Result-cases, all_below, all_below_sound, insert_by, sort_by,
  IsSortedBy, sort_by-Perm, sort_by-IsSortedBy, Permᴰ, is_digit, AreDigits, all_digits,
  all_digits-AreDigits, AreDigits-all_digits, digits_from, to_decimal, digits_from-append,
  digits_from-to_decimal, to_decimal-AreDigits, to_decimal_fuel, digits_from-lt,
  to_decimal-digits_from, length-to_decimal, LeadsNonzero, to_decimal-LeadsNonzero,
  to_decimal-canonical, panicked, out_of_fuel, corrupt_structure, no_magic, checksum_mismatch,
  encrypted, zero_stripes, bad_array_size, bad_sectorsize, bad_nodesize, unknown_extent_type,
  io_error, unexpected_eof, implausible_size, zero_sectorsize, decodes_to_more, decodes_short,
  bad_frame, bad_segment, truncated_header, oversized_segment, malformed_segment, malformed_stream,
  unknown_compression, unmapped_address, striped_chunk, missing_device, unreadable, wrong_address,
  bad_node_checksum, too_many_items, wrong_level, too_deep, bad_chunk_array, extent_overflow,
  outside_extent, inline_too_large, implausible_extent, symlink_too_long, no_device,
  other_filesystem, refused_features, no_subvolume, no_inode, no_parent, endless_parents,
  not_directory, is_symlink, not_found, malformed_signature, malformed_key, bad_signature,
  wrong_comment, not_newer, helper_missing, helper_refused, helper_failed, predates_update,
  unknown_status, oversized_message, long_reply, long_path, oversized_download, signature_not_utf8,
}
use btrfs_peek.Disk.Bytes.{Bytes, from_le_bytes, to_le_bytes}
use btrfs_peek.Disk.External.{eq_bytes}
use btrfs_peek.Helper.Versions.{Text, Version, decimal}
use btrfs_peek.Helper.Updates.{installed_version}
use btrfs_peek.Helper.Wire.{
  Io, after_io, done_io, fail_io, write_all, read_exact, status_ok, status_not_found,
  status_refused, status_error,
}
use btrfs_peek.Helper.Server.{protocol, max_path, max_read, op_open, op_read, op_update}

abbrev pub max_message : ℕ
max_message = 0x1_0000

-- `status_error`.
unfoldable pub error_of_status : ℕ → Text → Error
error_of_status status msg =
    if status == status_not_found
    then helper_missing msg
    else if status == status_refused
    then helper_refused msg
    else if status == status_error
    then helper_failed msg
    else unknown_status status

-- The status and the length in the five bytes of a head.
head_of : Bytes → Io (ℕ × ℕ)
head_of [] = fail_io panicked
head_of (status ∷ len) = done_io (status, from_le_bytes len)

-- `header`.
unfoldable pub header : Io (ℕ × ℕ)
unfolding head_of
header = after_io (read_exact 5) head_of

-- The requests.
abbrev pub open_bytes : Text → Bytes
open_bytes path = op_open ∷ (to_le_bytes 4 (length path) ++ path)

abbrev pub read_bytes : ℕ → ℕ → Bytes
read_bytes off len = op_read ∷ (to_le_bytes 8 off ++ to_le_bytes 4 len)

module _ (lossy : Bytes → Text) where
  -- `message`.
  unfoldable pub message : ℕ → Io Text
  message n =
      if ltb max_message n
      then fail_io (oversized_message n)
      else after_io (read_exact n) (λ b. done_io (lossy b))

  reply_of : ℕ → Text → Io Text
  reply_of status msg =
      if status == status_ok then done_io msg else fail_io (error_of_status status msg)

  reply_with : ℕ × ℕ → Io Text
  unfolding reply_of
  reply_with (status, n) = after_io (message n) (reply_of status)

  -- `reply`.
  unfoldable pub reply : Io Text
  unfolding reply_with
  reply = after_io header reply_with

  -- `start`.
  unfoldable pub start : Io Text
  start =
      after_io (write_all (protocol ∷ []))
        (λ u. after_io reply (λ version. done_io (lossy version)))

  -- `open`.
  unfoldable pub open_device : Text → Io (Unit {0})
  open_device path =
      if ltb max_path (length path)
      then fail_io long_path
      else after_io (write_all (open_bytes path)) (λ u. after_io reply (λ r. done_io tt))

  data_with : ℕ → ℕ × ℕ → Io Bytes
  data_with len (status, n) =
      if status == status_ok
      then (if ltb len n then fail_io (long_reply n len) else read_exact n)
      else after_io (message n) (λ msg. fail_io (error_of_status status msg))

  -- `read_at`, into a buffer of `size` bytes.
  unfoldable pub read_at : ℕ → ℕ → Io Bytes
  unfolding data_with
  read_at size off =
      after_io (write_all (read_bytes off (min size max_read)))
        (λ u. after_io header (data_with (min size max_read)))

  -- Whether an error reads as the answer of a service that does not know the operation.
  unfoldable pub is_unknown_operation : Error → Bool
  is_unknown_operation (helper_missing m) =
      eq_bytes m (ascii "unknown operation " ++ decimal op_update)
  is_unknown_operation (helper_failed m) =
      eq_bytes m (ascii "unknown operation " ++ decimal op_update)
  is_unknown_operation _ = false

  reply_or_old : Text → Result Text → Result (Text × Option Version)
  reply_or_old version (ok r) = let text = lossy r in ok (text, installed_version text)
  reply_or_old version (err e) =
      if is_unknown_operation e then err (predates_update version) else err e

  -- `update`.
  unfoldable pub update : Text → Io (Text × Option Version)
  unfolding reply_or_old
  update version =
      after_io (write_all (op_update ∷ []))
        (λ u. λ c. let (r, c') = reply c in (reply_or_old version r, c'))
