-- ===== src/Decompress.antt =====
-- decompress.rs: the three compression formats of an extent.
pub mod Exact
pub mod Zlib
use btrfs_peek.Prelude.{
  ℕ, zero, suc, ◌+◌, ◌-◌, ◌*◌, ◌/◌, ◌%◌, ◌^◌, ◌≤◌, ◌<◌, min, max, bit_and, bit_or, ◌≡◌, refl, sym,
  ap, ◌∙◌, ◌≢◌, ◌↔◌, ◌⊎◌, inl, inr, Bool, true, false, not, ◌&&◌, ◌||◌, Option, none, some, List,
  [], ◌∷◌, ◌++◌, map, append_assoc, append-nil, arith, Error, Result, ok, err, ◌>>=◌, ◌>>◌,
  >>=-eq-ok, guard, guard-eq-ok, raised, match_result, then_next, then_next-eq-ok, clean, IsClean,
  IsClean-bind, IsClean-if, ascii, onto, onto_first, split_once, split, strip_prefix, join,
  strip_prefix-append, strip_prefix_lem, Lacks, split_once-append, split_once_lem, join-split,
  split-append, split_whole, length, get_elem?, take, drop, replicate, All, length-append,
  length-take, length-drop, length-replicate, take-append_length, drop-append_length, take_all,
  take-append-drop, take_add, drop-drop, drop-take, take-take, take-append_le, All-append, All-take,
  All-drop, All-replicate, ltb, leb, ◌==◌, if◌then◌else◌, ltb→lt, lt→ltb, le→leb, leb→le, ==→eq,
  eq→==, Bool-cases, Option-cases, Result-cases, all_below, all_below_sound, insert_by, sort_by,
  IsSortedBy, sort_by-Perm, sort_by-IsSortedBy, Permᴰ, is_digit, AreDigits, all_digits,
  all_digits-AreDigits, AreDigits-all_digits, digits_from, to_decimal, digits_from-append,
  digits_from-to_decimal, to_decimal-AreDigits, to_decimal_fuel, digits_from-lt,
  to_decimal-digits_from, length-to_decimal, LeadsNonzero, to_decimal-LeadsNonzero,
  to_decimal-canonical, panicked, out_of_fuel, corrupt_structure, no_magic, checksum_mismatch,
  encrypted, zero_stripes, bad_array_size, bad_sectorsize, bad_nodesize, unknown_extent_type,
  io_error, unexpected_eof, implausible_size, zero_sectorsize, decodes_to_more, decodes_short,
  bad_frame, bad_segment, truncated_header, oversized_segment, malformed_segment, malformed_stream,
  unknown_compression, unmapped_address, striped_chunk, missing_device, unreadable, wrong_address,
  bad_node_checksum, too_many_items, wrong_level, too_deep, bad_chunk_array, extent_overflow,
  outside_extent, inline_too_large, implausible_extent, symlink_too_long, no_device,
  other_filesystem, refused_features, no_subvolume, no_inode, no_parent, endless_parents,
  not_directory, is_symlink, not_found, malformed_signature, malformed_key, bad_signature,
  wrong_comment, not_newer, helper_missing, helper_refused, helper_failed, predates_update,
  unknown_status, oversized_message, long_reply, long_path, oversized_download, signature_not_utf8,
}
use btrfs_peek.Disk.Bytes.{Bytes, u64_mod, from_le_bytes}
use btrfs_peek.Fs.Nodes.{slice}

-- What a streaming decoder of another crate does with its input: the bytes it yields, and whether
-- it then fails.
pub record Stream : Type 0 where
  pub produced : Bytes
  pub fails : Bool

-- What `lzokay_native::decompress_all` does with a segment.
pub data Segment : Type 0 where
  plain : Bytes → Segment
  segment_error segment_panic : Segment

-- The decoders of flate2, ruzstd (which may refuse the input at once) and lzokay_native.
pub record Decoders : Type 0 where
  pub zlib : Bytes → Stream
  pub zstd : Bytes → Option Stream
  pub lzokay : Bytes → ℕ → Segment

abbrev pub max_ram_bytes : ℕ
max_ram_bytes = 2 ^ 30

pub record Size : Type 0 where
  pub ram_bytes : ℕ
  pub most : ℕ
  pub sectorsize : ℕ

-- `usize::next_multiple_of`, which panics for multiples of zero.
unfoldable pub next_multiple_of : ℕ → ℕ → Result ℕ
next_multiple_of x n = if n == 0 then err panicked else ok ((x + (n - 1)) / n * n % u64_mod)

-- `Vec::resize(n, 0)` of a vector that is not longer.
abbrev pub pad : ℕ → Bytes → Bytes
pad n out = out ++ replicate (n - length out) 0

unfoldable pub finish : Bytes → Size → Result Bytes
finish out size = do
  guard (leb (length out) size.most) decodes_to_more
  let kept = take size.ram_bytes out
  guard (ltb (size.ram_bytes - length kept) size.sectorsize) decodes_short
  ok (pad size.ram_bytes kept)

-- `reader.take(limit).read_to_end(..)`: past the limit nothing is read, an error there included.
unfoldable pub read_limited : Stream → ℕ → Result Bytes
read_limited s limit =
    if leb limit (length s.produced)
    then ok (take limit s.produced)
    else if s.fails
    then err malformed_stream
    else ok s.produced

unfoldable pub stream : Stream → Size → Result Bytes
stream s size = do out ← read_limited s (size.most + 1); finish out size

-- `le32`: `src.get(off..off + 4)`.
unfoldable pub le32 : Bytes → ℕ → Result ℕ
le32 src off =
    if leb (off + 4) (length src)
    then ok (from_le_bytes (take 4 (drop off src)))
    else err truncated_header

unfoldable pub plain_segment : Segment → Result Bytes
plain_segment (plain p) = ok p
plain_segment segment_error = err malformed_segment
plain_segment segment_panic = err malformed_segment

-- The position of the next segment header, which does not straddle a sector boundary. The
-- remainder by zero panics.
unfoldable pub header_pos : ℕ → ℕ → Result ℕ
header_pos sectorsize pos =
    let left = sectorsize - pos % sectorsize in
    if sectorsize == 0 then err panicked else ok (if ltb left 4 then pos + left else pos)

-- What an extent may decode to.
unfoldable pub extent_size : ℕ → ℕ → Bool → Result Size
extent_size ram_bytes sectorsize inline = do
  most ← (if inline then next_multiple_of ram_bytes sectorsize else ok ram_bytes)
  ok (record { ram_bytes = ram_bytes; most = most; sectorsize = sectorsize })

unfoldable pub zstd_stream : Option Stream → Size → Result Bytes
zstd_stream none size = err malformed_stream
zstd_stream (some s) size = stream s size

module _ (x : Decoders) where
  -- One round behind the padding: the plain bytes of the segment, and where it ends.
  unfoldable pub segment_at : Bytes → ℕ → ℕ → ℕ → Result (Bytes × ℕ)
  segment_at src total sectorsize pos = do
    seg_len ← le32 src pos
    let start = pos + 4
    guard (not (seg_len == 0) && leb (start + seg_len) total) bad_segment
    seg ← slice src start (start + seg_len)
    p ← plain_segment (x.lzokay seg sectorsize)
    guard (leb (length p) sectorsize) oversized_segment
    ok (p, start + seg_len)

  -- `while pos < total && out.len() < ram_bytes`, on fuel.
  unfoldable pub lzo_loop : ℕ → Bytes → ℕ → Size → ℕ → Bytes → Result Bytes
  lzo_loop zero src total size pos out =
      if ltb pos total && ltb (length out) size.ram_bytes then err out_of_fuel else ok out
  lzo_loop (suc fuel) src total size pos out =
      let round = do
        at ← header_pos size.sectorsize pos
        let segment = do
          (p, next) ← segment_at src total size.sectorsize at
          lzo_loop fuel src total size next (out ++ p)
        if leb total at then ok out else segment
      in if ltb pos total && ltb (length out) size.ram_bytes then round else ok out

  -- Each round takes five bytes at least, so `total` rounds are enough.
  unfoldable pub lzo : Bytes → Size → Result Bytes
  lzo src size = do
    total ← le32 src 0
    guard (leb 4 total && leb total (length src)) bad_frame
    out ← lzo_loop total src total size 4 []
    finish out size

  unfoldable pub decode_with : ℕ → Bytes → Size → Result Bytes
  decode_with algo src size =
      if algo == 1
      then stream (x.zlib src) size
      else if algo == 2
      then lzo src size
      else if algo == 3
      then zstd_stream (x.zstd src) size
      else err (unknown_compression algo)

  unfoldable pub decode : ℕ → Bytes → ℕ → ℕ → Bool → Result Bytes
  decode algo src ram_bytes sectorsize inline = do
    guard (leb ram_bytes max_ram_bytes) implausible_size
    guard (not (sectorsize == 0)) zero_sectorsize
    size ← extent_size ram_bytes sectorsize inline
    decode_with algo src size

  unfoldable pub decompress : ℕ → Bytes → ℕ → ℕ → Result Bytes
  decompress algo src ram_bytes sectorsize = decode algo src ram_bytes sectorsize false

  unfoldable pub decompress_inline : ℕ → Bytes → ℕ → ℕ → Result Bytes
  decompress_inline algo src ram_bytes sectorsize = decode algo src ram_bytes sectorsize true
