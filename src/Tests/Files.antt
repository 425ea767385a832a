-- ===== src/Tests/Files.antt =====
-- A filesystem of one device with one tree block, and a small file.
use btrfs_peek.Prelude.{
  ℕ, ◌-◌, min, ◌≡◌, refl, ◌↔◌, false, none, List, [], ◌∷◌, ◌++◌, arith, ok, length, take, drop,
  replicate,
}
use btrfs_peek.Disk.Bytes.{Bytes, u8_at, u32_at, u64_at, bytes, to_le_bytes, from_le_bytes}
use btrfs_peek.Disk.Keys.{Key, new_key, parse_key, encode_key}
use btrfs_peek.Disk.Extents.{Extent, inline, prealloc}
use btrfs_peek.Decompress.{Decoders, plain}
use btrfs_peek.Dev.{Device, got, read, fill, read_loop, after_attempt}
use btrfs_peek.Fs.Nodes.{Node, level, nritems, item}
use btrfs_peek.Fs.Mirrors.{
  Filesystem, get_device, chunk_before, mapped_by, copies, mirrors, read_logical,
}
use btrfs_peek.Fs.Mirrors.Reads.{FirstReadable, read_logical-FirstReadable}
use btrfs_peek.Fs.Blocks.{
  Cache, fails_checksum, count_items, check_block, first_good, fetch, read_node,
}
use btrfs_peek.Fs.Blocks.Cached.{IsGood, read_node-fetch}
use btrfs_peek.Fs.Blocks.Checked.{IsChecked, fetch-IsChecked}
use btrfs_peek.Fs.Walk.Scan.{Items}
use btrfs_peek.Fs.Items.{get}
use btrfs_peek.Fs.Items.Get.{find_item, OnDisk, get-find_item}
use btrfs_peek.Fs.Emit.{send_data, send_contents, send_gap, emit}
use btrfs_peek.Fs.Emit.Sized.{collect}
use btrfs_peek.Fs.Contents.{
  inline_bytes, inline_reader, source_of, emit_extents, read_extents, read_range,
}
use btrfs_peek.Fs.Contents.Whole.{length-read_range}
use btrfs_peek.Tests.Parsers.{external, superblock}

abbrev key : Key
key = new_key 3 1 0

-- A leaf with one item, at the logical address 8192.
abbrev leaf : Node
leaf =
    (9 ∷ 9 ∷ 9 ∷ 9 ∷ [])
    ++ (replicate 28 0
        ++ ((9 ∷ 9 ∷ 9 ∷ 9 ∷ [])
            ++ (replicate 12 0
                ++ (to_le_bytes 8 8192
                    ++ (replicate 40 0
                        ++ (to_le_bytes 4 1
                            ++ ((0 ∷ [])
                                ++ (encode_key key
                                    ++ (to_le_bytes 4 25
                                        ++ (to_le_bytes 4 1
                                            ++ ((30 ∷ []) ++ replicate 3969 0)))))))))))

abbrev device : Device
device = record { read_at = λ k off want. got (take want (drop off leaf)); retries = 0 }

-- Two mirrors, of which the device of the first was not given.
abbrev filesystem : Filesystem
filesystem = record {
  devs = (1, device) ∷ [];
  sb = record superblock { nodesize = 4096 };
  chunks = record { start = 8192; length = 4096; ty = 0x14; stripes = (2, 0) ∷ (1, 0) ∷ [] } ∷ [];
}

read_logical-FirstReadable_example : (read_logical filesystem 8240 8 ≡ ok (to_le_bytes 8 8192)) ↔ (
    (ms : List (Device × ℕ)) × (mirrors filesystem 8240 8 ≡ ok ms)
    × FirstReadable 8 (to_le_bytes 8 8192) ms)
read_logical-FirstReadable_example =
    read_logical-FirstReadable filesystem 8240 8 (to_le_bytes 8 8192)

leaf-fetched : fetch external filesystem 8192 ≡ ok leaf
unfolding fetch first_good check_block count_items fails_checksum mirrors mapped_by chunk_before
    copies get_device read fill read_loop after_attempt nritems u32_at u64_at bytes from_le_bytes
    to_le_bytes encode_key
leaf-fetched = refl

read_node-fetch_example :
    (c : Cache) × (read_node external filesystem 8192 ((8192, leaf) ∷ [])
      ≡ (fetch external filesystem 8192, c))
    × IsGood external filesystem c
read_node-fetch_example =
    read_node-fetch external filesystem 8192 ((8192, leaf) ∷ []) (leaf-fetched, tt)

fetch-IsChecked_example : IsChecked external filesystem 8192 leaf
fetch-IsChecked_example = fetch-IsChecked external filesystem 8192 leaf leaf-fetched

abbrev leaf_items : Items
leaf_items = (key, 30 ∷ []) ∷ []

leaf-OnDisk : OnDisk external filesystem 0 leaf_items 8192
unfolding nritems level item parse_key u8_at u32_at u64_at bytes from_le_bytes to_le_bytes
    encode_key
leaf-OnDisk = (leaf, leaf-fetched, refl, refl, (refl, tt))

get-find_item_example :
    (c : Cache) × (get external filesystem 8192 key [] ≡ (ok (find_item key leaf_items), c))
    × IsGood external filesystem c
get-find_item_example =
    get-find_item external filesystem 0 leaf_items 8192 key [] (omega arith) leaf-OnDisk tt (tt, tt)
      tt

abbrev decoders : Decoders
decoders = record {
  zlib = λ s. record { produced = s; fails = false };
  zstd = λ s. none;
  lzokay = λ s most. plain s;
}

-- Three bytes in the leaf, and a hole behind them.
abbrev extents : List Extent
extents =
    record { file_off = 0; len = 3; ram_bytes = 3; compression = 0; kind = inline (1 ∷ 2 ∷ 3 ∷ []) }
    ∷ record { file_off = 5; len = 3; ram_bytes = 3; compression = 0; kind = prealloc }
    ∷ []

abbrev contents : Bytes
contents = 2 ∷ 3 ∷ 0 ∷ 0 ∷ 0 ∷ 0 ∷ 0 ∷ []

contents_read :
    read_range decoders filesystem collect 10 extents 1 8 (none, []) ≡ (ok 8, (none, contents))
unfolding read_range read_extents emit_extents source_of inline_bytes inline_reader emit send_gap
    send_contents send_data
contents_read = refl

length-read_range_example : length contents ≡ min 8 10 - 1
length-read_range_example =
    length-read_range decoders filesystem 10 extents 1 8 8 none none contents contents_read
