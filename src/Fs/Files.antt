-- ===== src/Fs/Files.antt =====
-- fs.rs: reads of files, targets of symbolic links, and the resolution of paths.
pub mod Parts
pub mod Resolved
use btrfs_peek.Prelude.{
  ℕ, zero, suc, ◌+◌, ◌-◌, ◌*◌, ◌/◌, ◌%◌, ◌^◌, ◌≤◌, ◌<◌, min, max, bit_and, bit_or, ◌≡◌, refl, sym,
  ap, ◌∙◌, ◌≢◌, ◌↔◌, ◌⊎◌, inl, inr, Bool, true, false, not, ◌&&◌, ◌||◌, Option, none, some, List,
  [], ◌∷◌, ◌++◌, map, append_assoc, append-nil, arith, Error, Result, ok, err, ◌>>=◌, ◌>>◌,
  >>=-eq-ok, guard, guard-eq-ok, raised, match_result, then_next, then_next-eq-ok, clean, IsClean,
  IsClean-bind, IsClean-if, ascii, onto, onto_first, split_once, split, strip_prefix, join,
  strip_prefix-append, strip_prefix_lem, Lacks, split_once-append, split_once_lem, join-split,
  split-append, split_whole, length, get_elem?, take, drop, replicate, All, length-append,
  length-take, length-drop, length-replicate, take-append_length, drop-append_length, take_all,
  take-append-drop, take_add, drop-drop, drop-take, take-take, take-append_le, All-append, All-take,
  All-drop, All-replicate, ltb, leb, ◌==◌, if◌then◌else◌, ltb→lt, lt→ltb, le→leb, leb→le, ==→eq,
  eq→==, Bool-cases, Option-cases, Result-cases, all_below, all_below_sound, insert_by, sort_by,
  IsSortedBy, sort_by-Perm, sort_by-IsSortedBy, Permᴰ, is_digit, AreDigits, all_digits,
  all_digits-AreDigits, AreDigits-all_digits, digits_from, to_decimal, digits_from-append,
  digits_from-to_decimal, to_decimal-AreDigits, to_decimal_fuel, digits_from-lt,
  to_decimal-digits_from, length-to_decimal, LeadsNonzero, to_decimal-LeadsNonzero,
  to_decimal-canonical, panicked, out_of_fuel, corrupt_structure, no_magic, checksum_mismatch,
  encrypted, zero_stripes, bad_array_size, bad_sectorsize, bad_nodesize, unknown_extent_type,
  io_error, unexpected_eof, implausible_size, zero_sectorsize, decodes_to_more, decodes_short,
  bad_frame, bad_segment, truncated_header, oversized_segment, malformed_segment, malformed_stream,
  unknown_compression, unmapped_address, striped_chunk, missing_device, unreadable, wrong_address,
  bad_node_checksum, too_many_items, wrong_level, too_deep, bad_chunk_array, extent_overflow,
  outside_extent, inline_too_large, implausible_extent, symlink_too_long, no_device,
  other_filesystem, refused_features, no_subvolume, no_inode, no_parent, endless_parents,
  not_directory, is_symlink, not_found, malformed_signature, malformed_key, bad_signature,
  wrong_comment, not_newer, helper_missing, helper_refused, helper_failed, predates_update,
  unknown_status, oversized_message, long_reply, long_path, oversized_download, signature_not_utf8,
}
use btrfs_peek.Disk.Bytes.{Bytes}
use btrfs_peek.Disk.External.{External, eq_bytes}
use btrfs_peek.Disk.Inodes.{Inode, is_dir, is_symlink_inode}
use btrfs_peek.Decompress.{Decoders}
use btrfs_peek.Fs.Mirrors.{Filesystem}
use btrfs_peek.Fs.Emit.{Piece}
use btrfs_peek.Fs.Contents.{LastExtent, read_range}
use btrfs_peek.Fs.Emit.Sized.{collect}
use btrfs_peek.Fs.Names.{
  Loc, Entry, Caches, Method, is_placeholder, root_loc, inode_of, lookup, extents_of,
}

-- All that the methods of `Fs` change: its caches, and the last extent that was decompressed.
pub record Memory : Type 0 where
  pub caches : Caches
  pub last : LastExtent

abbrev pub Read : Type 0 → Type 0
Read A = Memory → Result A × Memory

abbrev pub and_read : {A B : Type 0} → Read A → (A → Read B) → Read B
and_read m next s = then_next next (m s)

abbrev pub done_read : {A : Type 0} → A → Read A
done_read a s = (ok a, s)

abbrev pub fail_read : {A : Type 0} → Error → Read A
fail_read e s = (err e, s)

with_caches : {A : Type 0} → Memory → Result A × Caches → Result A × Memory
with_caches s (r, caches) = (r, record s { caches = caches })

-- A method that leaves the last extent alone.
unfoldable pub by_caches : {A : Type 0} → Method A → Read A
unfolding with_caches
by_caches m s = with_caches s (m s.caches)

-- The parts of a path between slashes of either kind.
abbrev pub is_slash : ℕ → Bool
is_slash c = c == b'/' || c == b'\\'

unfoldable pub split_path : Bytes → List Bytes
split_path [] = [] ∷ []
split_path (c ∷ cs) = if is_slash c then [] ∷ split_path cs else onto_first c (split_path cs)

abbrev pub is_kept : Bytes → Bool
is_kept p = not (eq_bytes p []) && not (eq_bytes p (b'.' ∷ []))

unfoldable pub kept_parts : List Bytes → List Bytes
kept_parts [] = []
kept_parts (p ∷ ps) = if is_kept p then p ∷ kept_parts ps else kept_parts ps

-- `path.split(['/', '\\']).filter(|p| !p.is_empty() && *p != ".")`.
unfoldable pub path_parts : Bytes → List Bytes
path_parts path = kept_parts (split_path path)

-- `if stack.len() > 1 { stack.pop(); }`: the last of the stack, and those below it.
unfoldable pub pop_stack : Loc → List Loc → Loc × List Loc
pop_stack dir [] = (dir, [])
pop_stack dir (below ∷ rest) = (below, rest)

module _ (x : External) (dec : Decoders) (fs : Filesystem) where
  with_output : {S : Type 0} → Memory → S → Result ℕ × (LastExtent × S) → Result S × Memory
  with_output s out (r, (last, t)) = (r >>= (λ p. ok t), record s { last = last })

  -- `read_range`, with a sink over a state.
  unfoldable pub read_range_of :
      {S : Type 0} → (Piece → S → Result (Unit {0}) × S) → Loc → ℕ → ℕ → S → Read S
  unfolding with_output
  read_range_of sink loc start end out = and_read (by_caches (inode_of x fs loc)) (λ inode.
      and_read (by_caches (extents_of x fs loc)) (λ exts.
        λ s. with_output s out (read_range dec fs sink inode.size exts start end (s.last, out))))

  -- `read_to_vec`.
  unfoldable pub read_to_vec : Loc → ℕ → Read Bytes
  read_to_vec loc cap = read_range_of collect loc 0 cap []

  -- `read_symlink_target`.
  unfoldable pub read_symlink_target : Loc → Read Bytes
  read_symlink_target loc = and_read (by_caches (inode_of x fs loc)) (λ inode.
      if ltb 4096 inode.size then fail_read symlink_too_long else read_to_vec loc inode.size)

  -- A part of a path can only be looked up in a directory, or in the stand-in for one.
  refuse_inode : Loc → Inode → Read (Unit {0})
  refuse_inode dir inode =
      if is_symlink_inode inode
      then and_read (read_symlink_target dir) (λ target. fail_read is_symlink)
      else if is_dir inode
      then done_read tt
      else fail_read not_directory

  check_directory : Loc → Read (Unit {0})
  unfolding refuse_inode
  check_directory dir =
      if is_placeholder dir
      then done_read tt
      else and_read (by_caches (inode_of x fs dir)) (refuse_inode dir)

  -- The parts are followed from the last of the stack; `..` at its bottom stays there. What was
  -- walked so far stands in messages only.
  entered : (Loc → Read Loc) → Option Entry → Read Loc
  entered next none = fail_read not_found
  entered next (some e) = next e.loc

  unfoldable pub resolve_parts : List Bytes → Loc → List Loc → Read Loc
  unfolding entered check_directory
  resolve_parts [] dir below = done_read dir
  resolve_parts (part ∷ parts) dir below =
      let up = pop_stack dir below in
      let back = resolve_parts parts up.0 up.1 in
      let on : Loc → Read Loc = λ loc. resolve_parts parts loc (dir ∷ below) in
      if eq_bytes part (b'.' ∷ b'.' ∷ [])
      then back
      else and_read (check_directory dir)
          (λ u. and_read (by_caches (lookup x fs dir part)) (entered on))

  -- `resolve`.
  unfoldable pub resolve : Bytes → Read Loc
  resolve path =
      and_read (by_caches (root_loc x fs)) (λ root. resolve_parts (path_parts path) root [])
