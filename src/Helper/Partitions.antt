-- ===== src/Helper/Partitions.antt =====
-- helper.rs: what the service opens. `File::open` and the text of an error are parameters.
pub mod Granted
use btrfs_peek.Prelude.{
  ℕ, zero, suc, ◌+◌, ◌-◌, ◌*◌, ◌/◌, ◌%◌, ◌^◌, ◌≤◌, ◌<◌, min, max, bit_and, bit_or, ◌≡◌, refl, sym,
  ap, ◌∙◌, ◌≢◌, ◌↔◌, ◌⊎◌, inl, inr, Bool, true, false, not, ◌&&◌, ◌||◌, Option, none, some, List,
  [], ◌∷◌, ◌++◌, map, append_assoc, append-nil, arith, Error, Result, ok, err, ◌>>=◌, ◌>>◌,
  >>=-eq-ok, guard, guard-eq-ok, raised, match_result, then_next, then_next-eq-ok, clean, IsClean,
  IsClean-bind, IsClean-if, ascii, onto, onto_first, split_once, split, strip_prefix, join,
  strip_prefix-append, strip_prefix_lem, Lacks, split_once-append, split_once_lem, join-split,
  split-append, split_whole, length, get_elem?, take, drop, replicate, All, length-append,
  length-take, length-drop, length-replicate, take-append_length, drop-append_length, take_all,
  take-append-drop, take_add, drop-drop, drop-take, take-take, take-append_le, All-append, All-take,
  All-drop, All-replicate, ltb, leb, ◌==◌, if◌then◌else◌, ltb→lt, lt→ltb, le→leb, leb→le, ==→eq,
  eq→==, Bool-cases, Option-cases, Result-cases, all_below, all_below_sound, insert_by, sort_by,
  IsSortedBy, sort_by-Perm, sort_by-IsSortedBy, Permᴰ, is_digit, AreDigits, all_digits,
  all_digits-AreDigits, AreDigits-all_digits, digits_from, to_decimal, digits_from-append,
  digits_from-to_decimal, to_decimal-AreDigits, to_decimal_fuel, digits_from-lt,
  to_decimal-digits_from, length-to_decimal, LeadsNonzero, to_decimal-LeadsNonzero,
  to_decimal-canonical, panicked, out_of_fuel, corrupt_structure, no_magic, checksum_mismatch,
  encrypted, zero_stripes, bad_array_size, bad_sectorsize, bad_nodesize, unknown_extent_type,
  io_error, unexpected_eof, implausible_size, zero_sectorsize, decodes_to_more, decodes_short,
  bad_frame, bad_segment, truncated_header, oversized_segment, malformed_segment, malformed_stream,
  unknown_compression, unmapped_address, striped_chunk, missing_device, unreadable, wrong_address,
  bad_node_checksum, too_many_items, wrong_level, too_deep, bad_chunk_array, extent_overflow,
  outside_extent, inline_too_large, implausible_extent, symlink_too_long, no_device,
  other_filesystem, refused_features, no_subvolume, no_inode, no_parent, endless_parents,
  not_directory, is_symlink, not_found, malformed_signature, malformed_key, bad_signature,
  wrong_comment, not_newer, helper_missing, helper_refused, helper_failed, predates_update,
  unknown_status, oversized_message, long_reply, long_path, oversized_download, signature_not_utf8,
}
use btrfs_peek.Disk.Bytes.{Bytes}
use btrfs_peek.Disk.External.{External}
use btrfs_peek.Disk.Superblocks.{parse_superblock, super_offset, super_size}
use btrfs_peek.Dev.{Device, read_loop}
use btrfs_peek.Helper.Versions.{Text}
use btrfs_peek.Helper.Paths.{partition_path_ok}
use btrfs_peek.Helper.Server.{
  Refusal, path_not_found, path_refused, open_failed, Outcome, succeeded, failed_with,
}

-- What `File::open` gives: a file, `ErrorKind::NotFound`, or another error with its text.
pub data Opening : Type 0 where
  opening_of : Device → Opening
  no_such_file : Opening
  opening_failed : Text → Opening

-- The operating system's side.
pub record Files : Type 0 where
  pub open_file : Text → Opening
  pub error_text : Error → Text

module _ (x : External) (files : Files) where
  open files use {open_file, error_text}

  abbrev pub refuse : {A : Type 0} → (Text → Refusal) → Text → Text → Outcome Refusal A
  refuse kind path why = failed_with (kind (path ++ why))

  -- `done < sb.len() || Superblock::parse(sb).is_err()`.
  checked_superblock : Text → Device → Bytes → Outcome Refusal Device
  checked_superblock path d sb =
      if ltb (length sb) super_size
      then refuse path_refused path (ascii ": not a btrfs partition")
      else match_result (λ e. refuse path_refused path (ascii ": not a btrfs partition"))
          (λ s. succeeded d) (parse_superblock x sb)

  -- The loop stops as the one of `Device::read` does: its buffer is smaller than the largest read.
  pub superblock_of : Device → Result Bytes
  superblock_of d = read_loop d super_offset super_size (d.retries + super_size) 0 []

  with_file : Text → Opening → Outcome Refusal Device
  unfolding checked_superblock superblock_of
  with_file path (opening_of d) =
      match_result (λ e. refuse open_failed path (ascii ": " ++ error_text e))
        (checked_superblock path d) (superblock_of d)
  with_file path no_such_file = refuse path_not_found path (ascii ": no such partition")
  with_file path (opening_failed why) = refuse open_failed path (ascii ": " ++ why)

  -- `open_partition`.
  unfoldable pub open_partition : Text → Outcome Refusal Device
  unfolding with_file
  open_partition path =
      if partition_path_ok path
      then with_file path (open_file path)
      else refuse path_refused path
          (ascii ": the helper opens only partitions named \\\\.\\HarddiskNPartitionM (M >= 1)")
