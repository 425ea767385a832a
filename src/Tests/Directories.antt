-- ===== src/Tests/Directories.antt =====
-- The listing of a directory, the path of an inode and the resolution of a path, on one cached leaf.
use btrfs_peek.Prelude.{
  ℕ, ◌≤◌, ◌≡◌, refl, false, none, List, [], ◌∷◌, ◌++◌, arith, ok, ascii, join, take, drop,
  replicate, insert_by, sort_by,
}
use btrfs_peek.Disk.Bytes.{Bytes, u8_at, u16_at, u32_at, u64_at, bytes, to_le_bytes, from_le_bytes}
use btrfs_peek.Disk.External.{eq_bytes}
use btrfs_peek.Disk.Keys.{Key, new_key, parse_key, encode_key, ltb_key, leb_key}
use btrfs_peek.Disk.DirEntries.{name_hash, parse_dir_entry, dir_entries_from, parse_dir_entries}
use btrfs_peek.Disk.DirEntries.Encoding.{encode_stored, encode_tail}
use btrfs_peek.Disk.Inodes.{parse_inode, is_dir, is_symlink_inode}
use btrfs_peek.Fs.Nodes.{Node, nritems, level, item}
use btrfs_peek.Fs.Walk.{leaf_item, visit_leaf, visit_node, node_shape, check_level, walk_node, walk}
use btrfs_peek.Dev.{Device, got, read, fill, read_loop, after_attempt}
use btrfs_peek.Fs.Mirrors.{Filesystem, get_device, chunk_before, mapped_by, copies, mirrors}
use btrfs_peek.Fs.Walk.Scan.{Items}
use btrfs_peek.Fs.Walk.Ranges.{IsSorted}
use btrfs_peek.Fs.Items.Get.{OnDisk}
use btrfs_peek.Fs.Blocks.{
  fails_checksum, count_items, check_block, first_good, fetch, cached, read_uncached, read_node,
}
use btrfs_peek.Fs.Items.{get}
use btrfs_peek.Fs.Names.{
  Loc, Entry, TreeRoot, Caches, known_root, tree_root, get_item, walk_items, entry_of, find_entry,
  inode_of, root_loc, lookup,
}
use btrfs_peek.Fs.Directories.{
  leb_name, extend_raw, entries_of, readdir, inode_ref, parent_of, climb, path_in_tree,
}
use btrfs_peek.Fs.Directories.Parents.{Ancestry, path_in_tree-Ancestry}
use btrfs_peek.Fs.Files.{
  Memory, by_caches, split_path, kept_parts, path_parts, pop_stack, resolve_parts, resolve,
}
use btrfs_peek.Fs.Files.Parts.{ArePartsOf}
use btrfs_peek.Fs.Files.Resolved.{Follows, resolve-Follows}
use btrfs_peek.Tests.Parsers.{external, superblock}
use btrfs_peek.Tests.Decoding.{stored}

abbrev entry_bytes : ℕ → Bytes
entry_bytes c = encode_stored (record {
  entry = record { name = c ∷ []; location = new_key 257 1 0; ftype = 1 };
  transid = replicate 8 1;
  extra = [];
})

abbrev item_header : Key → ℕ → ℕ → Bytes
item_header k off size = encode_key k ++ (to_le_bytes 4 off ++ to_le_bytes 4 size)

abbrev inode_bytes : Bytes
inode_bytes = replicate 52 0 ++ (to_le_bytes 4 0o040755 ++ replicate 104 0)

abbrev reference : Bytes
reference = replicate 8 0 ++ (1 ∷ 0 ∷ b'a' ∷ [])

-- Directory 256: its inode, the entry `a` by its hash, the entries `b` and `a` by their index, and the reference of inode 257 to its parent.
abbrev leaf_items : Items
leaf_items =
    (new_key 256 1 0, inode_bytes)
    ∷ (new_key 256 84 (name_hash external (b'a' ∷ [])), entry_bytes b'a')
    ∷ (new_key 256 96 2, entry_bytes b'b')
    ∷ (new_key 256 96 3, entry_bytes b'a')
    ∷ (new_key 257 12 256, reference)
    ∷ []

abbrev headers : Bytes
headers =
    item_header (new_key 256 1 0) 125 160
    ++ (item_header (new_key 256 84 (name_hash external (b'a' ∷ []))) 285 31
        ++ (item_header (new_key 256 96 2) 316 31
            ++ (item_header (new_key 256 96 3) 347 31 ++ item_header (new_key 257 12 256) 378 11)))

abbrev payloads : Bytes
payloads =
    inode_bytes ++ (entry_bytes b'a' ++ (entry_bytes b'b' ++ (entry_bytes b'a' ++ reference)))

-- The leaf of these items, at the logical address 8192.
abbrev leaf : Node
leaf =
    (9 ∷ 9 ∷ 9 ∷ 9 ∷ [])
    ++ (replicate 28 0
        ++ ((9 ∷ 9 ∷ 9 ∷ 9 ∷ [])
            ++ (replicate 12 0
                ++ (to_le_bytes 8 8192
                    ++ (replicate 40 0
                        ++ (to_le_bytes 4 5
                            ++ ((0 ∷ []) ++ (headers ++ (payloads ++ replicate 3606 0)))))))))

abbrev device : Device
device = record { read_at = λ k off want. got (take want (drop off leaf)); retries = 0 }

abbrev filesystem : Filesystem
filesystem = record {
  devs = (1, device) ∷ [];
  sb = record superblock { nodesize = 4096 };
  chunks = record { start = 8192; length = 4096; ty = 0x14; stripes = (1, 0) ∷ [] } ∷ [];
}

leaf-fetched : fetch external filesystem 8192 ≡ ok leaf
unfolding fetch first_good check_block count_items fails_checksum mirrors mapped_by chunk_before
    copies get_device read fill read_loop after_attempt nritems u8_at u16_at u32_at u64_at bytes
    name_hash from_le_bytes to_le_bytes encode_key encode_stored encode_tail
leaf-fetched = refl

leaf-OnDisk : OnDisk external filesystem 0 leaf_items 8192
unfolding nritems level item parse_key u8_at u16_at u32_at u64_at bytes name_hash from_le_bytes
    to_le_bytes encode_key encode_stored encode_tail
leaf-OnDisk = (leaf, leaf-fetched, refl, refl, (refl, (refl, (refl, (refl, (refl, tt))))))

leaf-IsSorted : IsSorted leaf_items
unfolding ltb_key name_hash
leaf-IsSorted = (
  (refl, (refl, (refl, (refl, tt)))),
  ((refl, (refl, (refl, tt))), ((refl, (refl, tt)), ((refl, tt), (tt, tt)))),
)

abbrev top : TreeRoot
top = record { bytenr = 8192; root_dirid = 256 }

abbrev caches : Caches
caches = record { nodes = (8192, leaf) ∷ []; roots = (5, top) ∷ [] }

abbrev directory : Loc
directory = record { tree = 5; ino = 256 }

abbrev entry_named : ℕ → Entry
entry_named c = record {
  name = c ∷ [];
  loc = record { tree = 5; ino = 257 };
  ftype = 1;
  subvol = false;
}

listed :
    readdir external filesystem directory caches
    ≡ (ok (entry_named b'a' ∷ entry_named b'b' ∷ []), caches)
unfolding readdir entries_of extend_raw leb_name insert_by sort_by walk_items tree_root known_root
    walk walk_node visit_node visit_leaf leaf_item node_shape check_level read_node read_uncached
    cached nritems level item entry_of parse_dir_entries dir_entries_from parse_dir_entry parse_key
    u8_at u16_at u32_at u64_at bytes name_hash from_le_bytes to_le_bytes encode_key encode_stored
    encode_tail ltb_key leb_key
listed = refl

root_known : tree_root external filesystem 5 caches ≡ (ok top, caches)
unfolding tree_root known_root
root_known = refl

path_found : path_in_tree external filesystem 5 257 caches ≡ (ok (b'a' ∷ []), caches)
unfolding path_in_tree climb parent_of inode_ref join walk_items tree_root known_root walk walk_node
    visit_node visit_leaf leaf_item node_shape check_level read_node read_uncached cached nritems
    level item parse_key u8_at u16_at u32_at u64_at bytes name_hash from_le_bytes to_le_bytes
    encode_key encode_stored encode_tail ltb_key leb_key
path_found = refl

path_in_tree-Ancestry_example :
    (n : ℕ) × (names : List Bytes) × (n ≤ 4096)
    × Ancestry external leaf_items 256 n 257 names
    × ((b'a' ∷ []) ≡ join b'/' names)
path_in_tree-Ancestry_example =
    path_in_tree-Ancestry external filesystem 0 leaf_items top 5 257 (b'a' ∷ []) caches caches
      caches root_known (omega arith) leaf-OnDisk tt leaf-IsSorted (leaf-fetched, tt) path_found

abbrev memory : Memory
memory = record { caches = caches; last = none }

resolved :
    resolve external stored filesystem (ascii "/.././a") memory
    ≡ (ok (record { tree = 5; ino = 257 }), memory)
unfolding resolve resolve_parts by_caches path_parts split_path kept_parts pop_stack root_loc
    inode_of is_dir is_symlink_inode parse_inode lookup tree_root known_root get_item get walk
    walk_node visit_node visit_leaf leaf_item node_shape check_level read_node read_uncached cached
    nritems level item entry_of find_entry parse_dir_entries dir_entries_from parse_dir_entry
    parse_key eq_bytes u8_at u16_at u32_at u64_at bytes name_hash from_le_bytes to_le_bytes
    encode_key encode_stored encode_tail ltb_key leb_key
resolved = refl

resolve-Follows_example :
    (parts : List Bytes) × ArePartsOf (ascii "/.././a") parts
    × ((root : Loc) × (s1 : Memory) × (by_caches (root_loc external filesystem) memory
          ≡ (ok root, s1))
        × Follows external stored filesystem s1 root [] parts
            (record { tree = 5; ino = 257 })
            memory)
resolve-Follows_example =
    resolve-Follows external stored filesystem (ascii "/.././a") (record { tree = 5; ino = 257 })
      memory memory resolved
