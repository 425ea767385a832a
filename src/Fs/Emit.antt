-- ===== src/Fs/Emit.antt =====
-- fs.rs: how `read_range` hands the bytes of a file to its sink. Generic in the sink, a closure
-- over a state `S`.
pub mod Sized
use btrfs_peek.Prelude.{
  ℕ, zero, suc, ◌+◌, ◌-◌, ◌*◌, ◌/◌, ◌%◌, ◌^◌, ◌≤◌, ◌<◌, min, max, bit_and, bit_or, ◌≡◌, refl, sym,
  ap, ◌∙◌, ◌≢◌, ◌↔◌, ◌⊎◌, inl, inr, Bool, true, false, not, ◌&&◌, ◌||◌, Option, none, some, List,
  [], ◌∷◌, ◌++◌, map, append_assoc, append-nil, arith, Error, Result, ok, err, ◌>>=◌, ◌>>◌,
  >>=-eq-ok, guard, guard-eq-ok, raised, match_result, then_next, then_next-eq-ok, clean, IsClean,
  IsClean-bind, IsClean-if, ascii, onto, onto_first, split_once, split, strip_prefix, join,
  strip_prefix-append, strip_prefix_lem, Lacks, split_once-append, split_once_lem, join-split,
  split-append, split_whole, length, get_elem?, take, drop, replicate, All, length-append,
  length-take, length-drop, length-replicate, take-append_length, drop-append_length, take_all,
  take-append-drop, take_add, drop-drop, drop-take, take-take, take-append_le, All-append, All-take,
  All-drop, All-replicate, ltb, leb, ◌==◌, if◌then◌else◌, ltb→lt, lt→ltb, le→leb, leb→le, ==→eq,
  eq→==, Bool-cases, Option-cases, Result-cases, all_below, all_below_sound, insert_by, sort_by,
  IsSortedBy, sort_by-Perm, sort_by-IsSortedBy, Permᴰ, is_digit, AreDigits, all_digits,
  all_digits-AreDigits, AreDigits-all_digits, digits_from, to_decimal, digits_from-append,
  digits_from-to_decimal, to_decimal-AreDigits, to_decimal_fuel, digits_from-lt,
  to_decimal-digits_from, length-to_decimal, LeadsNonzero, to_decimal-LeadsNonzero,
  to_decimal-canonical, panicked, out_of_fuel, corrupt_structure, no_magic, checksum_mismatch,
  encrypted, zero_stripes, bad_array_size, bad_sectorsize, bad_nodesize, unknown_extent_type,
  io_error, unexpected_eof, implausible_size, zero_sectorsize, decodes_to_more, decodes_short,
  bad_frame, bad_segment, truncated_header, oversized_segment, malformed_segment, malformed_stream,
  unknown_compression, unmapped_address, striped_chunk, missing_device, unreadable, wrong_address,
  bad_node_checksum, too_many_items, wrong_level, too_deep, bad_chunk_array, extent_overflow,
  outside_extent, inline_too_large, implausible_extent, symlink_too_long, no_device,
  other_filesystem, refused_features, no_subvolume, no_inode, no_parent, endless_parents,
  not_directory, is_symlink, not_found, malformed_signature, malformed_key, bad_signature,
  wrong_comment, not_newer, helper_missing, helper_refused, helper_failed, predates_update,
  unknown_status, oversized_message, long_reply, long_path, oversized_download, signature_not_utf8,
}
use btrfs_peek.Disk.Bytes.{Bytes}

-- `Piece`: bytes of data, or a number of zeros.
pub data Piece : Type 0 where
  piece_data : Bytes → Piece
  piece_zeros : ℕ → Piece

-- What an extent's data is read with: the position in the file, and the number of bytes.
abbrev pub Reader : Type 0
Reader = ℕ → ℕ → Result Bytes

module _ {S : Type 0} (sink : Piece → S → Result (Unit {0}) × S) where
  send_bytes : Result Bytes → S → Result (Unit {0}) × S
  send_bytes (ok b) s = sink (piece_data b) s
  send_bytes (err e) s = (err e, s)

  -- `while at < to`, in pieces of 1 MiB at most: the fuel, and `at`.
  unfoldable pub send_data : Reader → ℕ → ℕ → ℕ → S → Result (Unit {0}) × S
  unfolding send_bytes
  send_data read to zero at s = if ltb at to then (err out_of_fuel, s) else (ok tt, s)
  send_data read to (suc fuel) at s =
      let n = min (to - at) (2 ^ 20) in
      if ltb at to
      then then_next (λ u. send_data read to fuel (at + n)) (send_bytes (read at n) s)
      else (ok tt, s)

  unfoldable pub send_contents : Option Reader → ℕ → ℕ → S → Result (Unit {0}) × S
  send_contents none from to s = sink (piece_zeros (to - from)) s
  send_contents (some read) from to s = send_data read to (to - from) from s

  -- The gap between what has been emitted and what comes next.
  unfoldable pub send_gap : ℕ → ℕ → S → Result (Unit {0}) × S
  send_gap pos from s = if ltb pos from then sink (piece_zeros (from - pos)) s else (ok tt, s)

  -- The closure `emit`: the contents of [from, to), as far as they are wanted, and the next `pos`.
  unfoldable pub emit : ℕ → ℕ → ℕ → Option Reader → ℕ → S → Result ℕ × S
  emit end from0 to0 contents pos s =
      let from = max from0 pos in
      let to = min to0 end in
      if leb to from
      then (ok pos, s)
      else then_next
          (λ u. λ s'. then_next (λ v. λ s''. (ok to, s'')) (send_contents contents from to s'))
          (send_gap pos from s)
