-- ===== src/Fs/Blocks.antt =====
-- fs.rs: tree blocks, read from the mirrors, checked, and cached.
pub mod Cached
pub mod Checked
use btrfs_peek.Prelude.{
  ℕ, zero, suc, ◌+◌, ◌-◌, ◌*◌, ◌/◌, ◌%◌, ◌^◌, ◌≤◌, ◌<◌, min, max, bit_and, bit_or, ◌≡◌, refl, sym,
  ap, ◌∙◌, ◌≢◌, ◌↔◌, ◌⊎◌, inl, inr, Bool, true, false, not, ◌&&◌, ◌||◌, Option, none, some, List,
  [], ◌∷◌, ◌++◌, map, append_assoc, append-nil, arith, Error, Result, ok, err, ◌>>=◌, ◌>>◌,
  >>=-eq-ok, guard, guard-eq-ok, raised, match_result, then_next, then_next-eq-ok, clean, IsClean,
  IsClean-bind, IsClean-if, ascii, onto, onto_first, split_once, split, strip_prefix, join,
  strip_prefix-append, strip_prefix_lem, Lacks, split_once-append, split_once_lem, join-split,
  split-append, split_whole, length, get_elem?, take, drop, replicate, All, length-append,
  length-take, length-drop, length-replicate, take-append_length, drop-append_length, take_all,
  take-append-drop, take_add, drop-drop, drop-take, take-take, take-append_le, All-append, All-take,
  All-drop, All-replicate, ltb, leb, ◌==◌, if◌then◌else◌, ltb→lt, lt→ltb, le→leb, leb→le, ==→eq,
  eq→==, Bool-cases, Option-cases, Result-cases, all_below, all_below_sound, insert_by, sort_by,
  IsSortedBy, sort_by-Perm, sort_by-IsSortedBy, Permᴰ, is_digit, AreDigits, all_digits,
  all_digits-AreDigits, AreDigits-all_digits, digits_from, to_decimal, digits_from-append,
  digits_from-to_decimal, to_decimal-AreDigits, to_decimal_fuel, digits_from-lt,
  to_decimal-digits_from, length-to_decimal, LeadsNonzero, to_decimal-LeadsNonzero,
  to_decimal-canonical, panicked, out_of_fuel, corrupt_structure, no_magic, checksum_mismatch,
  encrypted, zero_stripes, bad_array_size, bad_sectorsize, bad_nodesize, unknown_extent_type,
  io_error, unexpected_eof, implausible_size, zero_sectorsize, decodes_to_more, decodes_short,
  bad_frame, bad_segment, truncated_header, oversized_segment, malformed_segment, malformed_stream,
  unknown_compression, unmapped_address, striped_chunk, missing_device, unreadable, wrong_address,
  bad_node_checksum, too_many_items, wrong_level, too_deep, bad_chunk_array, extent_overflow,
  outside_extent, inline_too_large, implausible_extent, symlink_too_long, no_device,
  other_filesystem, refused_features, no_subvolume, no_inode, no_parent, endless_parents,
  not_directory, is_symlink, not_found, malformed_signature, malformed_key, bad_signature,
  wrong_comment, not_newer, helper_missing, helper_refused, helper_failed, predates_update,
  unknown_status, oversized_message, long_reply, long_path, oversized_download, signature_not_utf8,
}
use btrfs_peek.Disk.Bytes.{Bytes, u32_at, u64_at}
use btrfs_peek.Disk.External.{External}
use btrfs_peek.Dev.{Device, read}
use btrfs_peek.Fs.Nodes.{Node, nritems, slice, header_size}
use btrfs_peek.Fs.Mirrors.{Filesystem, mirrors}

-- What the methods of `Fs` change: its node cache.
abbrev pub Cache : Type 0
Cache = List (ℕ × Node)

-- `nodes.get(&logical)`.
unfoldable pub cached : ℕ → Cache → Option Node
cached logical [] = none
cached logical ((a, node) ∷ c) = if a == logical then some node else cached logical c

-- `nodes.insert`, of an address that is not in it; a full cache is cleared first.
unfoldable pub remember : ℕ → Node → Cache → Cache
remember logical node c = if leb 8192 (length c) then (logical, node) ∷ [] else (logical, node) ∷ c

module _ (x : External) (fs : Filesystem) where
  -- `self.sb.csum_type == 0 && u32_at(&buf, 0)? != crc32c(&buf[32..])`.
  unfoldable pub fails_checksum : Bytes → Result Bool
  fails_checksum buf =
      let compared = do
        want ← u32_at buf 0
        covered ← slice buf 32 (length buf)
        ok (not (want == x.crc32c covered))
      in if fs.sb.csum_type == 0 then compared else ok false

  -- A node that passed the checks on its address and checksum. The node size is 4096 at least.
  unfoldable pub count_items : Bytes → Result Node
  count_items buf = do
    n ← nritems buf
    guard (leb n ((fs.sb.nodesize - header_size) / 25)) too_many_items
    ok buf

  -- One round of the loop over the mirrors: `next` goes on, with the error so far.
  unfoldable pub check_block : ℕ → (Error → Result Node) → Bytes → Result Node
  check_block logical next buf =
      let checked = do
        bad ← fails_checksum buf
        if bad then next bad_node_checksum else count_items buf
      in do address ← u64_at buf 48; if address == logical then checked else next wrong_address

  unfoldable pub first_good : ℕ → Error → List (Device × ℕ) → Result Node
  first_good logical last_err [] = err last_err
  first_good logical last_err ((d, phys) ∷ ms) =
      match_result (λ e. first_good logical e ms)
        (check_block logical (λ e. first_good logical e ms)) (read d phys fs.sb.nodesize)

  -- What `read_node` does where the cache has no such node.
  unfoldable pub fetch : ℕ → Result Node
  fetch logical = do ms ← mirrors fs logical fs.sb.nodesize; first_good logical unreadable ms

  keep : ℕ → Result Node → Cache → Result Node × Cache
  keep logical (err e) c = (err e, c)
  keep logical (ok node) c = (ok node, remember logical node c)

  -- By what the cache has.
  unfoldable pub read_uncached : ℕ → Cache → Option Node → Result Node × Cache
  unfolding keep
  read_uncached logical c (some node) = (ok node, c)
  read_uncached logical c none = keep logical (fetch logical) c

  unfoldable pub read_node : ℕ → Cache → Result Node × Cache
  unfolding read_uncached
  read_node logical c = read_uncached logical c (cached logical c)
