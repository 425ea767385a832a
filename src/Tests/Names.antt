-- ===== src/Tests/Names.antt =====
-- The lookup of a name in a directory whose leaf is cached.
use btrfs_peek.Prelude.{◌≡◌, refl, false, some, [], ◌∷◌, ◌++◌, ok, replicate}
use btrfs_peek.Disk.Bytes.{Bytes, u8_at, u16_at, u32_at, u64_at, bytes, to_le_bytes, from_le_bytes}
use btrfs_peek.Disk.External.{eq_bytes}
use btrfs_peek.Disk.Keys.{new_key, parse_key, encode_key, ltb_key, leb_key}
use btrfs_peek.Disk.DirEntries.{name_hash, parse_dir_entry, dir_entries_from, parse_dir_entries}
use btrfs_peek.Disk.DirEntries.Encoding.{Stored, encode_stored, encode_tail}
use btrfs_peek.Fs.Nodes.{Node, nritems, level, item}
use btrfs_peek.Fs.Walk.{leaf_item, visit_leaf, visit_node, node_shape, check_level, walk_node, walk}
use btrfs_peek.Fs.Mirrors.{Filesystem}
use btrfs_peek.Fs.Blocks.{cached, read_uncached, read_node}
use btrfs_peek.Fs.Items.{get}
use btrfs_peek.Fs.Names.{
  Loc, Entry, Caches, known_root, tree_root, get_item, entry_of, find_entry, lookup,
}
use btrfs_peek.Fs.Names.Lookup.{IsEntryOf, lookup-IsEntryOf}
use btrfs_peek.Tests.Parsers.{external, superblock}

abbrev name : Bytes
name = b'a' ∷ []

abbrev stored : Stored
stored = record {
  entry = record { name = name; location = new_key 257 1 0; ftype = 1 };
  transid = replicate 8 1;
  extra = [];
}

-- A leaf with the directory item of the name in directory 256.
abbrev leaf : Node
leaf =
    replicate 96 0
    ++ (to_le_bytes 4 1
        ++ ((0 ∷ [])
            ++ (encode_key (new_key 256 84 (name_hash external name))
                ++ (to_le_bytes 4 25 ++ (to_le_bytes 4 31 ++ encode_stored stored)))))

abbrev filesystem : Filesystem
filesystem = record { devs = []; sb = superblock; chunks = [] }

abbrev caches : Caches
caches = record {
  nodes = (8192, leaf) ∷ [];
  roots = (5, record { bytenr = 8192; root_dirid = 256 }) ∷ [];
}

abbrev directory : Loc
directory = record { tree = 5; ino = 256 }

abbrev found : Entry
found = record { name = name; loc = record { tree = 5; ino = 257 }; ftype = 1; subvol = false }

name_found : lookup external filesystem directory name caches ≡ (ok (some found), caches)
unfolding lookup tree_root known_root get_item get walk walk_node visit_node visit_leaf leaf_item
    node_shape check_level read_node read_uncached cached nritems level item entry_of find_entry
    parse_dir_entries dir_entries_from parse_dir_entry parse_key eq_bytes u8_at u16_at u32_at u64_at
    bytes name_hash from_le_bytes to_le_bytes encode_key encode_stored encode_tail ltb_key leb_key
name_found = refl

lookup-IsEntryOf_example : IsEntryOf directory name found
lookup-IsEntryOf_example =
    lookup-IsEntryOf external filesystem directory name caches caches found name_found
