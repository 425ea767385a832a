-- ===== src/Fs/Opening.antt =====
-- fs.rs: opening a filesystem from its devices.
pub mod Bootstrap
pub mod Newest
use btrfs_peek.Prelude.{
  ℕ, zero, suc, ◌+◌, ◌-◌, ◌*◌, ◌/◌, ◌%◌, ◌^◌, ◌≤◌, ◌<◌, min, max, bit_and, bit_or, ◌≡◌, refl, sym,
  ap, ◌∙◌, ◌≢◌, ◌↔◌, ◌⊎◌, inl, inr, Bool, true, false, not, ◌&&◌, ◌||◌, Option, none, some, List,
  [], ◌∷◌, ◌++◌, map, append_assoc, append-nil, arith, Error, Result, ok, err, ◌>>=◌, ◌>>◌,
  >>=-eq-ok, guard, guard-eq-ok, raised, match_result, then_next, then_next-eq-ok, clean, IsClean,
  IsClean-bind, IsClean-if, ascii, onto, onto_first, split_once, split, strip_prefix, join,
  strip_prefix-append, strip_prefix_lem, Lacks, split_once-append, split_once_lem, join-split,
  split-append, split_whole, length, get_elem?, take, drop, replicate, All, length-append,
  length-take, length-drop, length-replicate, take-append_length, drop-append_length, take_all,
  take-append-drop, take_add, drop-drop, drop-take, take-take, take-append_le, All-append, All-take,
  All-drop, All-replicate, ltb, leb, ◌==◌, if◌then◌else◌, ltb→lt, lt→ltb, le→leb, leb→le, ==→eq,
  eq→==, Bool-cases, Option-cases, Result-cases, all_below, all_below_sound, insert_by, sort_by,
  IsSortedBy, sort_by-Perm, sort_by-IsSortedBy, Permᴰ, is_digit, AreDigits, all_digits,
  all_digits-AreDigits, AreDigits-all_digits, digits_from, to_decimal, digits_from-append,
  digits_from-to_decimal, to_decimal-AreDigits, to_decimal_fuel, digits_from-lt,
  to_decimal-digits_from, length-to_decimal, LeadsNonzero, to_decimal-LeadsNonzero,
  to_decimal-canonical, panicked, out_of_fuel, corrupt_structure, no_magic, checksum_mismatch,
  encrypted, zero_stripes, bad_array_size, bad_sectorsize, bad_nodesize, unknown_extent_type,
  io_error, unexpected_eof, implausible_size, zero_sectorsize, decodes_to_more, decodes_short,
  bad_frame, bad_segment, truncated_header, oversized_segment, malformed_segment, malformed_stream,
  unknown_compression, unmapped_address, striped_chunk, missing_device, unreadable, wrong_address,
  bad_node_checksum, too_many_items, wrong_level, too_deep, bad_chunk_array, extent_overflow,
  outside_extent, inline_too_large, implausible_extent, symlink_too_long, no_device,
  other_filesystem, refused_features, no_subvolume, no_inode, no_parent, endless_parents,
  not_directory, is_symlink, not_found, malformed_signature, malformed_key, bad_signature,
  wrong_comment, not_newer, helper_missing, helper_refused, helper_failed, predates_update,
  unknown_status, oversized_message, long_reply, long_path, oversized_download, signature_not_utf8,
}
use btrfs_peek.Disk.Bytes.{Bytes, bytes}
use btrfs_peek.Disk.External.{External, eq_bytes}
use btrfs_peek.Disk.Keys.{Key, new_key, parse_key, u64_max, chunk_item_key, key_size}
use btrfs_peek.Disk.Superblocks.{
  Superblock, parse_superblock, super_offset, super_size, incompat_refused,
}
use btrfs_peek.Disk.Chunks.{Chunk, parse_chunk}
use btrfs_peek.Dev.{Device, read}
use btrfs_peek.Fs.Mirrors.{Filesystem, insert_chunk}
use btrfs_peek.Fs.Blocks.{Cache, read_node}
use btrfs_peek.Fs.Walk.{walk}
use btrfs_peek.Fs.Items.{out_of}

-- `devs.insert(sb.devid, dev)`.
unfoldable pub insert_device : ℕ → Device → List (ℕ × Device) → List (ℕ × Device)
insert_device id d [] = (id, d) ∷ []
insert_device id d ((k, e) ∷ ds) = if k == id then (id, d) ∷ ds else (k, e) ∷ insert_device id d ds

-- The devices so far and the best superblock.
abbrev pub Gathered : Type 0
Gathered = List (ℕ × Device) × Option Superblock

-- `if b.fsid != sb.fsid`.
abbrev pub same_fsid : Option Superblock → Superblock → Bool
same_fsid none sb = true
same_fsid (some b) sb = eq_bytes b.fsid sb.fsid

-- `if best.as_ref().is_none_or(|b| sb.generation > b.generation)`.
abbrev pub newer_of : Option Superblock → Superblock → Superblock
newer_of none sb = sb
newer_of (some b) sb = if ltb b.generation sb.generation then sb else b

-- `chunks.insert(c.start, c)`, of several.
unfoldable pub insert_chunks : List Chunk → List Chunk → List Chunk
insert_chunks [] chunks = chunks
insert_chunks (c ∷ cs) chunks = insert_chunks cs (insert_chunk c chunks)

or_unopened : Option Superblock → Result Superblock
or_unopened none = err panicked
or_unopened (some sb) = ok sb

some_device : List (Result Device) → Bool
some_device [] = false
some_device (d ∷ ds) = true

-- The next chunk of the system array, with the bytes it occupied.
unfoldable pub system_chunk : Bytes → ℕ → Result (Chunk × ℕ)
system_chunk arr off = do
  key ← parse_key arr off
  guard (key.ty == chunk_item_key) bad_chunk_array
  b ← bytes arr (off + key_size) (length arr - off - key_size)
  parse_chunk key.offset b

-- `while off < arr.len()`, on fuel.
unfoldable pub system_chunks : Bytes → ℕ → ℕ → List Chunk → Result (List Chunk)
system_chunks arr zero off chunks = if ltb off (length arr) then err out_of_fuel else ok chunks
system_chunks arr (suc fuel) off chunks =
    let next : Chunk × ℕ → Result (List Chunk) =
      λ r. system_chunks arr fuel (off + (key_size + r.1)) (insert_chunk r.0 chunks) in
    if ltb off (length arr) then system_chunk arr off >>= next else ok chunks

-- The visitor of the chunk tree.
push_chunk : List Chunk → Result (Chunk × ℕ) → Result Bool × List Chunk
push_chunk found (ok (c, used)) = (ok true, found ++ (c ∷ []))
push_chunk found (err e) = (err e, found)

unfoldable pub visit_chunk : Key → Bytes → List Chunk → Result Bool × List Chunk
unfolding push_chunk
visit_chunk k d found =
    if k.ty == chunk_item_key then push_chunk found (parse_chunk k.offset d) else (ok true, found)

with_chunks : Filesystem → Result (List Chunk) × Cache → Result Filesystem × Cache
with_chunks fs (ok found, nodes) =
    (ok (record fs { chunks = insert_chunks found fs.chunks }), nodes)
with_chunks fs (err e, nodes) = (err e, nodes)

module _ (x : External) where
  -- One device: `Device::open`, its superblock, and what is kept of it.
  unfoldable pub gather_one : Result Device → Gathered → Result Gathered
  gather_one opened (devs, best) = do
    d ← opened
    raw ← read d super_offset super_size
    sb ← parse_superblock x raw
    guard (same_fsid best sb) other_filesystem
    ok (insert_device sb.devid d devs, some (newer_of best sb))

  -- `for path in paths`.
  unfoldable pub gather : List (Result Device) → Gathered → Result Gathered
  gather [] g = ok g
  gather (d ∷ ds) g = gather_one d g >>= gather ds

  -- The filesystem before its chunk tree is read.
  unfoldable pub bootstrap : List (Result Device) → Result Filesystem
  unfolding or_unopened some_device
  bootstrap paths = do
    guard (some_device paths) no_device
    g ← gather paths ([], none)
    sb ← or_unopened g.1
    guard (bit_and sb.incompat_flags incompat_refused == 0) refused_features
    chunks ← system_chunks sb.sys_chunk_array (length sb.sys_chunk_array) 0 []
    ok (record { devs = g.0; sb = sb; chunks = chunks })

  read_chunk_tree : Result Filesystem → Result Filesystem × Cache
  unfolding with_chunks
  read_chunk_tree (err e) = (err e, [])
  read_chunk_tree (ok fs) = with_chunks fs (
      out_of (
        walk visit_chunk (new_key 0 0 0) (new_key u64_max 255 u64_max) (read_node x fs)
          fs.sb.chunk_root [] []))

  -- `open`, of the results of `Device::open` on each path, with the blocks that it cached.
  unfoldable pub open_fs : List (Result Device) → Result Filesystem × Cache
  unfolding read_chunk_tree
  open_fs paths = read_chunk_tree (bootstrap paths)
