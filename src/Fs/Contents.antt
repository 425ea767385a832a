-- ===== src/Fs/Contents.antt =====
-- fs.rs: the contents of a file, extent by extent.
pub mod Whole
use btrfs_peek.Prelude.{
  ℕ, zero, suc, ◌+◌, ◌-◌, ◌*◌, ◌/◌, ◌%◌, ◌^◌, ◌≤◌, ◌<◌, min, max, bit_and, bit_or, ◌≡◌, refl, sym,
  ap, ◌∙◌, ◌≢◌, ◌↔◌, ◌⊎◌, inl, inr, Bool, true, false, not, ◌&&◌, ◌||◌, Option, none, some, List,
  [], ◌∷◌, ◌++◌, map, append_assoc, append-nil, arith, Error, Result, ok, err, ◌>>=◌, ◌>>◌,
  >>=-eq-ok, guard, guard-eq-ok, raised, match_result, then_next, then_next-eq-ok, clean, IsClean,
  IsClean-bind, IsClean-if, ascii, onto, onto_first, split_once, split, strip_prefix, join,
  strip_prefix-append, strip_prefix_lem, Lacks, split_once-append, split_once_lem, join-split,
  split-append, split_whole, length, get_elem?, take, drop, replicate, All, length-append,
  length-take, length-drop, length-replicate, take-append_length, drop-append_length, take_all,
  take-append-drop, take_add, drop-drop, drop-take, take-take, take-append_le, All-append, All-take,
  All-drop, All-replicate, ltb, leb, ◌==◌, if◌then◌else◌, ltb→lt, lt→ltb, le→leb, leb→le, ==→eq,
  eq→==, Bool-cases, Option-cases, Result-cases, all_below, all_below_sound, insert_by, sort_by,
  IsSortedBy, sort_by-Perm, sort_by-IsSortedBy, Permᴰ, is_digit, AreDigits, all_digits,
  all_digits-AreDigits, AreDigits-all_digits, digits_from, to_decimal, digits_from-append,
  digits_from-to_decimal, to_decimal-AreDigits, to_decimal_fuel, digits_from-lt,
  to_decimal-digits_from, length-to_decimal, LeadsNonzero, to_decimal-LeadsNonzero,
  to_decimal-canonical, panicked, out_of_fuel, corrupt_structure, no_magic, checksum_mismatch,
  encrypted, zero_stripes, bad_array_size, bad_sectorsize, bad_nodesize, unknown_extent_type,
  io_error, unexpected_eof, implausible_size, zero_sectorsize, decodes_to_more, decodes_short,
  bad_frame, bad_segment, truncated_header, oversized_segment, malformed_segment, malformed_stream,
  unknown_compression, unmapped_address, striped_chunk, missing_device, unreadable, wrong_address,
  bad_node_checksum, too_many_items, wrong_level, too_deep, bad_chunk_array, extent_overflow,
  outside_extent, inline_too_large, implausible_extent, symlink_too_long, no_device,
  other_filesystem, refused_features, no_subvolume, no_inode, no_parent, endless_parents,
  not_directory, is_symlink, not_found, malformed_signature, malformed_key, bad_signature,
  wrong_comment, not_newer, helper_missing, helper_refused, helper_failed, predates_update,
  unknown_status, oversized_message, long_reply, long_path, oversized_download, signature_not_utf8,
}
use btrfs_peek.Disk.Bytes.{Bytes, add64, checked_add, get_range}
use btrfs_peek.Disk.Extents.{Extent, ExtentKind, inline, regular, prealloc}
use btrfs_peek.Disk.Keys.{u64_max}
use btrfs_peek.Decompress.{Decoders, decompress, decompress_inline}
use btrfs_peek.Fs.Nodes.{slice}
use btrfs_peek.Fs.Mirrors.{Filesystem, read_logical}
use btrfs_peek.Fs.Emit.{Piece, Reader, emit}

-- `last_extent`: the address and the contents of the last extent that was decompressed.
abbrev pub LastExtent : Type 0
LastExtent = Option (ℕ × Bytes)

or_overflow : Option ℕ → Result ℕ
or_overflow (some a) = ok a
or_overflow none = err extent_overflow

or_outside : Option Bytes → Result Bytes
or_outside (some b) = ok b
or_outside none = err outside_extent

-- The closures that read at a position, for the three kinds that hold data.
unfoldable pub inline_reader : ℕ → Bytes → Reader
inline_reader from plain at n = slice plain (at - from) (at - from + n)

unfoldable pub plain_reader : ℕ → ℕ → Bytes → Reader
unfolding or_outside
plain_reader from offset plain at n =
    let s = add64 offset (at - from) in or_outside (get_range plain s (add64 s n))

-- Where an extent ends in the file, and what reads it; `to` is its end by the length in its item.
abbrev pub Source : Type 0
Source = ℕ × Option Reader

inline_source : Extent → Result Bytes → Result Source
inline_source ext (err e) = err e
inline_source ext (ok plain) =
    ok (add64 ext.file_off (length plain), some (inline_reader ext.file_off plain))

plain_source : Extent → ℕ → ℕ → Result Bytes × LastExtent → Result Source × LastExtent
plain_source ext to offset (err e, last) = (err e, last)
plain_source ext to offset (ok plain, last) =
    (ok (to, some (plain_reader ext.file_off offset plain)), last)

module _ (x : Decoders) (fs : Filesystem) where
  -- What `compressed_extent` does where the cache has no such extent.
  unfoldable pub decompressed : ℕ → ℕ → ℕ → ℕ → Result Bytes
  decompressed disk_bytenr disk_num_bytes algo ram_bytes = do
    guard (not (ltb (2 ^ 30) ram_bytes || ltb (2 ^ 30) disk_num_bytes)) implausible_extent
    raw ← read_logical fs disk_bytenr disk_num_bytes
    decompress x algo raw ram_bytes fs.sb.sectorsize

  keep_extent : ℕ → LastExtent → Result Bytes → Result Bytes × LastExtent
  keep_extent disk_bytenr last (ok plain) = (ok plain, some (disk_bytenr, plain))
  keep_extent disk_bytenr last (err e) = (err e, last)

  unfoldable pub compressed_extent : ℕ → ℕ → ℕ → ℕ → LastExtent → Result Bytes × LastExtent
  unfolding keep_extent
  compressed_extent disk_bytenr disk_num_bytes algo ram_bytes none =
      keep_extent disk_bytenr none (decompressed disk_bytenr disk_num_bytes algo ram_bytes)
  compressed_extent disk_bytenr disk_num_bytes algo ram_bytes (some (address, plain)) =
      if address == disk_bytenr
      then (ok plain, some (address, plain))
      else keep_extent disk_bytenr (some (address, plain))
          (decompressed disk_bytenr disk_num_bytes algo ram_bytes)

  -- The bytes of an inline extent.
  unfoldable pub inline_bytes : Extent → Bytes → Result Bytes
  inline_bytes ext raw = do
    guard (leb ext.ram_bytes fs.sb.nodesize) inline_too_large
    if ext.compression == 0
        then ok raw
        else decompress_inline x ext.compression raw ext.ram_bytes fs.sb.sectorsize

  unfoldable pub disk_reader : ℕ → ℕ → Reader
  unfolding or_overflow
  disk_reader from base at n = do
    addr ← or_overflow (checked_add base (at - from))
    read_logical fs addr n

  disk_source : Extent → ℕ → ℕ → ℕ → Result Source
  unfolding or_overflow
  disk_source ext to disk_bytenr offset = do
    base ← or_overflow (checked_add disk_bytenr offset)
    ok (to, some (disk_reader ext.file_off base))

  -- `match &ext.kind`.
  unfoldable pub source_of : Extent → ℕ → ExtentKind → LastExtent → Result Source × LastExtent
  unfolding inline_source plain_source disk_source
  source_of ext to prealloc last = (ok (to, none), last)
  source_of ext to (inline raw) last = (inline_source ext (inline_bytes ext raw), last)
  source_of ext to (regular disk_bytenr disk_num_bytes offset) last =
      if disk_bytenr == 0
      then (ok (to, none), last)
      else if ext.compression == 0
      then (disk_source ext to disk_bytenr offset, last)
      else plain_source ext to offset
          (compressed_extent disk_bytenr disk_num_bytes ext.compression ext.ram_bytes last)

  module _ {S : Type 0} (sink : Piece → S → Result (Unit {0}) × S) (end : ℕ) where
    -- The sink's state with the cache of the last extent.
    abbrev pub Output : Type 0
    Output = LastExtent × S

    with_last : {A : Type 0} → LastExtent → Result A × S → Result A × Output
    with_last last (r, s) = (r, (last, s))

    emit_source : ℕ → ℕ → S → Result Source × LastExtent → Result ℕ × Output
    unfolding with_last
    emit_source from pos s (err e, last) = (err e, (last, s))
    emit_source from pos s (ok (to, contents), last) =
        with_last last (emit sink end from to contents pos s)

    unfoldable pub emit_extents : List Extent → ℕ → Output → Result ℕ × Output
    unfolding emit_source
    emit_extents [] pos o = (ok pos, o)
    emit_extents (ext ∷ exts) pos (last, s) =
        let to = min (ext.file_off + ext.len) u64_max in
        if leb end pos || leb end ext.file_off
        then (ok pos, (last, s))
        else if leb to pos
        then emit_extents exts pos (last, s)
        else then_next (emit_extents exts)
            (emit_source ext.file_off pos s (source_of ext to ext.kind last))

    -- `emit(pos, end, &mut pos, None)`, the hole behind the last extent.
    emit_rest : ℕ → Output → Result ℕ × Output
    unfolding with_last
    emit_rest pos (last, s) = with_last last (emit sink end pos end none pos s)

    -- `read_range` behind the lookups of the inode and of its extents, up to `end`, clamped already.
    unfoldable pub read_extents : List Extent → ℕ → Output → Result ℕ × Output
    unfolding emit_rest
    read_extents exts start o = then_next emit_rest (emit_extents exts start o)

  -- `read_range`, of a file of `size` bytes with these extents.
  unfoldable pub read_range :
      {S : Type 0}
      → (Piece → S → Result (Unit {0}) × S)
      → ℕ
      → List Extent
      → ℕ
      → ℕ
      → LastExtent × S
      → Result ℕ × (LastExtent × S)
  read_range sink size exts start end o = read_extents sink (min end size) exts start o
