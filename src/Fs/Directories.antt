-- ===== src/Fs/Directories.antt =====
-- fs.rs: the listing of a directory, the default subvolume, and the path of an inode in its tree.
pub mod Sorted
pub mod Parents
use btrfs_peek.Prelude.{
  ℕ, zero, suc, ◌+◌, ◌-◌, ◌*◌, ◌/◌, ◌%◌, ◌^◌, ◌≤◌, ◌<◌, min, max, bit_and, bit_or, ◌≡◌, refl, sym,
  ap, ◌∙◌, ◌≢◌, ◌↔◌, ◌⊎◌, inl, inr, Bool, true, false, not, ◌&&◌, ◌||◌, Option, none, some, List,
  [], ◌∷◌, ◌++◌, map, append_assoc, append-nil, arith, Error, Result, ok, err, ◌>>=◌, ◌>>◌,
  >>=-eq-ok, guard, guard-eq-ok, raised, match_result, then_next, then_next-eq-ok, clean, IsClean,
  IsClean-bind, IsClean-if, ascii, onto, onto_first, split_once, split, strip_prefix, join,
  strip_prefix-append, strip_prefix_lem, Lacks, split_once-append, split_once_lem, join-split,
  split-append, split_whole, length, get_elem?, take, drop, replicate, All, length-append,
  length-take, length-drop, length-replicate, take-append_length, drop-append_length, take_all,
  take-append-drop, take_add, drop-drop, drop-take, take-take, take-append_le, All-append, All-take,
  All-drop, All-replicate, ltb, leb, ◌==◌, if◌then◌else◌, ltb→lt, lt→ltb, le→leb, leb→le, ==→eq,
  eq→==, Bool-cases, Option-cases, Result-cases, all_below, all_below_sound, insert_by, sort_by,
  IsSortedBy, sort_by-Perm, sort_by-IsSortedBy, Permᴰ, is_digit, AreDigits, all_digits,
  all_digits-AreDigits, AreDigits-all_digits, digits_from, to_decimal, digits_from-append,
  digits_from-to_decimal, to_decimal-AreDigits, to_decimal_fuel, digits_from-lt,
  to_decimal-digits_from, length-to_decimal, LeadsNonzero, to_decimal-LeadsNonzero,
  to_decimal-canonical, panicked, out_of_fuel, corrupt_structure, no_magic, checksum_mismatch,
  encrypted, zero_stripes, bad_array_size, bad_sectorsize, bad_nodesize, unknown_extent_type,
  io_error, unexpected_eof, implausible_size, zero_sectorsize, decodes_to_more, decodes_short,
  bad_frame, bad_segment, truncated_header, oversized_segment, malformed_segment, malformed_stream,
  unknown_compression, unmapped_address, striped_chunk, missing_device, unreadable, wrong_address,
  bad_node_checksum, too_many_items, wrong_level, too_deep, bad_chunk_array, extent_overflow,
  outside_extent, inline_too_large, implausible_extent, symlink_too_long, no_device,
  other_filesystem, refused_features, no_subvolume, no_inode, no_parent, endless_parents,
  not_directory, is_symlink, not_found, malformed_signature, malformed_key, bad_signature,
  wrong_comment, not_newer, helper_missing, helper_refused, helper_failed, predates_update,
  unknown_status, oversized_message, long_reply, long_path, oversized_download, signature_not_utf8,
}
use btrfs_peek.Disk.Bytes.{Bytes, bytes, u16_at}
use btrfs_peek.Disk.External.{External}
use btrfs_peek.Disk.Keys.{
  Key, new_key, u64_max, inode_ref_key, dir_item_key, dir_index_key, root_item_key,
  fs_tree_objectid,
}
use btrfs_peek.Disk.DirEntries.{DirEntry, parse_dir_entries, name_hash}
use btrfs_peek.Fs.Mirrors.{Filesystem}
use btrfs_peek.Fs.Names.{
  Loc, Entry, TreeRoot, Method, done, pure_step, and_do, is_placeholder, get_item, walk_items,
  tree_root, entry_of, or_missing,
}

-- The order of names: by their bytes.
unfoldable pub leb_name : Bytes → Bytes → Bool
leb_name [] b = true
leb_name (x ∷ xs) [] = false
leb_name (x ∷ xs) (y ∷ ys) = if ltb x y then true else x == y && leb_name xs ys

-- `|a, b| a.name.cmp(&b.name)`, as a test.
abbrev pub entry_before : Entry → Entry → Bool
entry_before a b = leb_name a.name b.name

-- `raw.extend(parse_dir_entries(d)?)`.
unfoldable pub extend_raw : List DirEntry → Result (List DirEntry) → Result Bool × List DirEntry
extend_raw raw (ok es) = (ok true, raw ++ es)
extend_raw raw (err e) = (err e, raw)

-- `d.len() >= 279 && bytes(d, 263, 16)?.iter().any(|&b| b != 0)`.
abbrev pub any_nonzero : Bytes → Bool
any_nonzero [] = false
any_nonzero (b ∷ bs) = not (b == 0) || any_nonzero bs

unfoldable pub has_parent_uuid : Bytes → Result Bool
has_parent_uuid d =
    if leb 279 (length d) then bytes d 263 16 >>= (λ u. ok (any_nonzero u)) else ok false

unfoldable pub keep_snapshot : Bool → Result Bool → Result Bool × Bool
keep_snapshot snap (ok b) = (ok true, b)
keep_snapshot snap (err e) = (err e, snap)

-- `.first().map_or(FS_TREE_OBJECTID, ..)`.
unfoldable pub first_objectid : List DirEntry → ℕ
first_objectid [] = fs_tree_objectid
first_objectid (e ∷ es) = e.location.objectid

module _ (x : External) (fs : Filesystem) where
  -- `is_snapshot`.
  unfoldable pub is_snapshot : ℕ → Method Bool
  unfolding keep_snapshot
  is_snapshot id =
      walk_items x fs (λ k d snap. keep_snapshot snap (has_parent_uuid d)) fs.sb.root
        (new_key id root_item_key 0) (new_key id root_item_key u64_max) false

  -- `.map(|e| self.entry(dir, e)).collect::<Result<Vec<_>>>()`.
  unfoldable pub entries_of : Loc → List DirEntry → Method (List Entry)
  entries_of dir [] = done []
  entries_of dir (e ∷ es) =
      let rest = entries_of dir es in
      and_do (entry_of x fs dir e) (λ f. and_do rest (λ fs. done (f ∷ fs)))

  -- What the walk over the directory's index collects.
  pub raw_entries : Loc → TreeRoot → Method (List DirEntry)
  raw_entries dir r =
      walk_items x fs (λ k d raw. extend_raw raw (parse_dir_entries d)) r.bytenr
        (new_key dir.ino dir_index_key 0) (new_key dir.ino dir_index_key u64_max) []

  sorted_entries : Loc → List DirEntry → Method (List Entry)
  sorted_entries dir raw = and_do (entries_of dir raw) (λ out. done (sort_by entry_before out))

  listed : Loc → Method (List Entry)
  unfolding raw_entries sorted_entries
  listed dir =
      and_do (tree_root x fs dir.tree) (λ r. and_do (raw_entries dir r) (sorted_entries dir))

  -- `readdir`.
  unfoldable pub readdir : Loc → Method (List Entry)
  unfolding listed
  readdir dir = if is_placeholder dir then done [] else listed dir

  default_in : Option Bytes → Result ℕ
  default_in none = ok fs_tree_objectid
  default_in (some item) = parse_dir_entries item >>= (λ es. ok (first_objectid es))

  -- `default_subvol`.
  unfoldable pub default_subvol : Method ℕ
  unfolding default_in
  default_subvol =
      and_do
        (get_item x fs fs.sb.root
          (new_key fs.sb.root_dir_objectid dir_item_key (name_hash x (ascii "default"))))
        (λ found. pure_step (default_in found))

  -- The name and the parent in an INODE_REF.
  unfoldable pub inode_ref : Key → Bytes → Result (ℕ × Bytes)
  inode_ref k d = do len ← u16_at d 8; raw ← bytes d 10 len; ok (k.offset, x.from_utf8_lossy raw)

  keep_ref : Option (ℕ × Bytes) → Result (ℕ × Bytes) → Result Bool × Option (ℕ × Bytes)
  keep_ref found (ok r) = (ok false, some r)
  keep_ref found (err e) = (err e, found)

  -- The first parent reference of an inode.
  unfoldable pub parent_of : TreeRoot → ℕ → Method (ℕ × Bytes)
  unfolding keep_ref or_missing
  parent_of r ino =
      and_do
        (walk_items x fs (λ k d found. keep_ref found (inode_ref k d)) r.bytenr
          (new_key ino inode_ref_key 0) (new_key ino inode_ref_key u64_max) none)
        (λ found. pure_step (or_missing no_parent found))

  -- `while ino != root.root_dirid`: the parts that may still be pushed, and those pushed, the last
  -- one first, which is their order after `reverse`.
  unfoldable pub climb : TreeRoot → ℕ → ℕ → List Bytes → Method Bytes
  climb r zero ino parts c =
      if ino == r.root_dirid then (ok (join b'/' parts), c) else (err endless_parents, c)
  climb r (suc left) ino parts c =
      let rest : ℕ × Bytes → Method Bytes = λ up. climb r left up.0 (up.1 ∷ parts) in
      if ino == r.root_dirid then (ok (join b'/' parts), c) else and_do (parent_of r ino) rest c

  -- `path_in_tree`.
  unfoldable pub path_in_tree : ℕ → ℕ → Method Bytes
  path_in_tree tree ino = and_do (tree_root x fs tree) (λ r. climb r 4096 ino [])
