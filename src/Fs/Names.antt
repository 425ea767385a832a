-- ===== src/Fs/Names.antt =====
-- fs.rs: subvolume trees, inodes and the entries of directories.
pub mod Lookup
pub mod Walked
use btrfs_peek.Prelude.{
  ℕ, zero, suc, ◌+◌, ◌-◌, ◌*◌, ◌/◌, ◌%◌, ◌^◌, ◌≤◌, ◌<◌, min, max, bit_and, bit_or, ◌≡◌, refl, sym,
  ap, ◌∙◌, ◌≢◌, ◌↔◌, ◌⊎◌, inl, inr, Bool, true, false, not, ◌&&◌, ◌||◌, Option, none, some, List,
  [], ◌∷◌, ◌++◌, map, append_assoc, append-nil, arith, Error, Result, ok, err, ◌>>=◌, ◌>>◌,
  >>=-eq-ok, guard, guard-eq-ok, raised, match_result, then_next, then_next-eq-ok, clean, IsClean,
  IsClean-bind, IsClean-if, ascii, onto, onto_first, split_once, split, strip_prefix, join,
  strip_prefix-append, strip_prefix_lem, Lacks, split_once-append, split_once_lem, join-split,
  split-append, split_whole, length, get_elem?, take, drop, replicate, All, length-append,
  length-take, length-drop, length-replicate, take-append_length, drop-append_length, take_all,
  take-append-drop, take_add, drop-drop, drop-take, take-take, take-append_le, All-append, All-take,
  All-drop, All-replicate, ltb, leb, ◌==◌, if◌then◌else◌, ltb→lt, lt→ltb, le→leb, leb→le, ==→eq,
  eq→==, Bool-cases, Option-cases, Result-cases, all_below, all_below_sound, insert_by, sort_by,
  IsSortedBy, sort_by-Perm, sort_by-IsSortedBy, Permᴰ, is_digit, AreDigits, all_digits,
  all_digits-AreDigits, AreDigits-all_digits, digits_from, to_decimal, digits_from-append,
  digits_from-to_decimal, to_decimal-AreDigits, to_decimal_fuel, digits_from-lt,
  to_decimal-digits_from, length-to_decimal, LeadsNonzero, to_decimal-LeadsNonzero,
  to_decimal-canonical, panicked, out_of_fuel, corrupt_structure, no_magic, checksum_mismatch,
  encrypted, zero_stripes, bad_array_size, bad_sectorsize, bad_nodesize, unknown_extent_type,
  io_error, unexpected_eof, implausible_size, zero_sectorsize, decodes_to_more, decodes_short,
  bad_frame, bad_segment, truncated_header, oversized_segment, malformed_segment, malformed_stream,
  unknown_compression, unmapped_address, striped_chunk, missing_device, unreadable, wrong_address,
  bad_node_checksum, too_many_items, wrong_level, too_deep, bad_chunk_array, extent_overflow,
  outside_extent, inline_too_large, implausible_extent, symlink_too_long, no_device,
  other_filesystem, refused_features, no_subvolume, no_inode, no_parent, endless_parents,
  not_directory, is_symlink, not_found, malformed_signature, malformed_key, bad_signature,
  wrong_comment, not_newer, helper_missing, helper_refused, helper_failed, predates_update,
  unknown_status, oversized_message, long_reply, long_path, oversized_download, signature_not_utf8,
}
use btrfs_peek.Disk.Bytes.{Bytes, u64_at}
use btrfs_peek.Disk.External.{External, eq_bytes}
use btrfs_peek.Disk.Keys.{
  Key, new_key, u64_max, inode_item_key, dir_item_key, extent_data_key, root_item_key, root_ref_key,
  fs_tree_objectid,
}
use btrfs_peek.Disk.Inodes.{Inode, pos, parse_inode}
use btrfs_peek.Disk.DirEntries.{DirEntry, parse_dir_entries, name_hash, ft_dir}
use btrfs_peek.Disk.Extents.{Extent, parse_extent}
use btrfs_peek.Fs.Mirrors.{Filesystem}
use btrfs_peek.Fs.Blocks.{Cache, read_node}
use btrfs_peek.Fs.Walk.{walk}
use btrfs_peek.Fs.Items.{get, out_of}

-- `Loc`: an inode of a subvolume's tree.
pub record Loc : Type 0 where
  pub tree : ℕ
  pub ino : ℕ

-- `Entry`, of a directory.
pub record Entry : Type 0 where
  pub name : Bytes
  pub loc : Loc
  pub ftype : ℕ
  pub subvol : Bool

pub record TreeRoot : Type 0 where
  pub bytenr : ℕ
  pub root_dirid : ℕ

-- The caches of `Fs` that the lookups change.
pub record Caches : Type 0 where
  pub nodes : Cache
  pub roots : List (ℕ × TreeRoot)

-- A method that may change the caches.
abbrev pub Method : Type 0 → Type 0
Method A = Caches → Result A × Caches

abbrev pub done : {A : Type 0} → A → Method A
done a c = (ok a, c)

-- A result that does not depend on the caches.
abbrev pub pure_step : {A : Type 0} → Result A → Method A
pure_step r c = (r, c)

-- `?` between two methods.
abbrev pub and_do : {A B : Type 0} → Method A → (A → Method B) → Method B
and_do m next c = then_next next (m c)

unfoldable pub with_nodes : {A : Type 0} → Caches → Result A × Cache → Result A × Caches
with_nodes c (r, nodes) = (r, record c { nodes = nodes })

-- The newest of several items: the last that the walk visits.
abbrev pub keep_last : Key → Bytes → Option Bytes → Result Bool × Option Bytes
keep_last k d out = (ok true, some d)

unfoldable pub or_missing : {A : Type 0} → Error → Option A → Result A
or_missing e none = err e
or_missing e (some a) = ok a

-- `roots.get(&id)`.
unfoldable pub known_root : ℕ → List (ℕ × TreeRoot) → Option TreeRoot
known_root id [] = none
known_root id ((k, r) ∷ rs) = if k == id then some r else known_root id rs

-- The fields of a root item.
unfoldable pub parse_root : Option Bytes → Result TreeRoot
unfolding or_missing
parse_root found = do
  item ← or_missing no_subvolume found
  bytenr ← u64_at item 176
  root_dirid ← u64_at item 168
  ok (record { bytenr = bytenr; root_dirid = root_dirid })

remember_root : ℕ → TreeRoot → Method TreeRoot
remember_root id r c = (ok r, record c { roots = (id, r) ∷ c.roots })

-- `is_placeholder`.
abbrev pub is_placeholder : Loc → Bool
is_placeholder loc = loc.tree == 0

-- The first entry with the name.
unfoldable pub find_entry : Bytes → List DirEntry → Option DirEntry
find_entry name [] = none
find_entry name (e ∷ es) = if eq_bytes e.name name then some e else find_entry name es

-- The empty directory that stands for a placeholder.
abbrev pub placeholder_inode : Inode
placeholder_inode = record {
  size = 0;
  nlink = 1;
  uid = 0;
  gid = 0;
  mode = 0o040755;
  mtime_sec = pos 0;
  mtime_nsec = 0;
}

-- An entry within its directory's own tree.
abbrev pub plain_entry : Loc → DirEntry → Entry
plain_entry dir e = record {
  name = e.name;
  loc = record { tree = dir.tree; ino = e.location.objectid };
  ftype = e.ftype;
  subvol = false;
}

-- An entry that is a subvolume, or the placeholder of one.
abbrev pub subvol_entry : DirEntry → Loc → Entry
subvol_entry e loc = record { name = e.name; loc = loc; ftype = ft_dir; subvol = true }

module _ (x : External) (fs : Filesystem) where
  -- `get`, on the caches.
  unfoldable pub get_item : ℕ → Key → Method (Option Bytes)
  unfolding with_nodes
  get_item root key c = with_nodes c (get x fs root key c.nodes)

  -- `walk(..)?` with a visitor over a state.
  unfoldable pub walk_items :
      {S : Type 0} → (Key → Bytes → S → Result Bool × S) → ℕ → Key → Key → S → Method S
  unfolding with_nodes
  walk_items visit root lo hi s c =
      with_nodes c (out_of (walk visit lo hi (read_node x fs) root c.nodes s))

  read_root : ℕ → Method TreeRoot
  read_root id =
      and_do
        (walk_items keep_last fs.sb.root (new_key id root_item_key 0)
          (new_key id root_item_key u64_max) none)
        (λ found. and_do (pure_step (parse_root found)) (remember_root id))

  tree_from : ℕ → Option TreeRoot → Method TreeRoot
  tree_from id (some r) = done r
  tree_from id none = read_root id

  -- `tree`.
  unfoldable pub tree_root : ℕ → Method TreeRoot
  unfolding tree_from read_root remember_root
  tree_root id c = tree_from id (known_root id c.roots) c

  -- `root`.
  unfoldable pub root_loc : Method Loc
  root_loc =
      and_do (tree_root fs_tree_objectid)
        (λ r. done (record { tree = fs_tree_objectid; ino = r.root_dirid }))

  stored_inode : Loc → Method Inode
  unfolding or_missing
  stored_inode loc = and_do (tree_root loc.tree) (λ r.
      and_do (get_item r.bytenr (new_key loc.ino inode_item_key 0))
        (λ found. pure_step (or_missing no_inode found >>= parse_inode)))

  -- `inode`.
  unfoldable pub inode_of : Loc → Method Inode
  unfolding stored_inode
  inode_of loc = if is_placeholder loc then done placeholder_inode else stored_inode loc

  -- A subvolume is entered where a ROOT_REF ties it to the tree of the directory.
  linked_entry : DirEntry → Option Bytes → Method Entry
  linked_entry e none = done (subvol_entry e (record { tree = 0; ino = 0 }))
  linked_entry e (some item) =
      and_do (tree_root e.location.objectid)
        (λ r. done (subvol_entry e (record { tree = e.location.objectid; ino = r.root_dirid })))

  -- `entry`.
  unfoldable pub entry_of : Loc → DirEntry → Method Entry
  unfolding linked_entry
  entry_of dir e =
      if e.location.ty == root_item_key
      then and_do (get_item fs.sb.root (new_key dir.tree root_ref_key e.location.objectid))
          (linked_entry e)
      else done (plain_entry dir e)

  found_entry : Loc → Option DirEntry → Method (Option Entry)
  found_entry dir none = done none
  found_entry dir (some e) = and_do (entry_of dir e) (λ r. done (some r))

  in_item : Loc → Bytes → Option Bytes → Method (Option Entry)
  unfolding found_entry
  in_item dir name none = done none
  in_item dir name (some item) =
      and_do (pure_step (parse_dir_entries item)) (λ es. found_entry dir (find_entry name es))

  named : Loc → Bytes → Method (Option Entry)
  unfolding in_item
  named dir name = and_do (tree_root dir.tree) (λ r.
      and_do (get_item r.bytenr (new_key dir.ino dir_item_key (name_hash x name)))
        (in_item dir name))

  -- `lookup`.
  unfoldable pub lookup : Loc → Bytes → Method (Option Entry)
  unfolding named
  lookup dir name = if is_placeholder dir then done none else named dir name

  push_extent : List Extent → Result Extent → Result Bool × List Extent
  push_extent out (ok e) = (ok true, out ++ (e ∷ []))
  push_extent out (err e) = (err e, out)

  -- `extents`.
  unfoldable pub extents_of : Loc → Method (List Extent)
  unfolding push_extent
  extents_of loc = and_do (tree_root loc.tree) (λ r.
      walk_items (λ k d out. push_extent out (parse_extent k.offset d)) r.bytenr
        (new_key loc.ino extent_data_key 0) (new_key loc.ino extent_data_key u64_max) [])
