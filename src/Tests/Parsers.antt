-- ===== src/Tests/Parsers.antt =====
-- The parsers of disk.rs on small items.
use btrfs_peek.Prelude.{
  ℕ, ◌+◌, ◌^◌, ◌<◌, ◌≡◌, refl, List, [], ◌∷◌, ◌++◌, map, arith, ok, err, length, take, replicate,
  corrupt_structure,
}
use btrfs_peek.Disk.Bytes.{Bytes, u16_at, u32_at, u64_at, bytes, to_le_bytes, from_le_bytes}
use btrfs_peek.Disk.Bytes.Slices.{At}
use btrfs_peek.Disk.External.{External, eq_bytes}
use btrfs_peek.Disk.Keys.{Key, new_key, parse_key, FitsKey, encode_key}
use btrfs_peek.Disk.Keys.Order.{parse_key-encode_key}
use btrfs_peek.Disk.Superblocks.{
  Superblock, is_power_of_two, before_zero, check_crc32c, check_checksum, read_fields, check_sizes,
  parse_superblock, magic,
}
use btrfs_peek.Disk.Superblocks.Checked.{IsAccepted, parse_superblock-IsAccepted}
use btrfs_peek.Disk.Chunks.{parse_chunk}
use btrfs_peek.Disk.Chunks.Encoding.{
  StoredChunk, FitsChunk, encode_stripe, encode_stripes, encode_chunk, decoded,
  parse_chunk-encode_chunk,
}
use btrfs_peek.Disk.Inodes.{negsuc, Inode, parse_inode}
use btrfs_peek.Disk.Inodes.Encoding.{Skipped, encode_inode, parse_inode-encode_inode}
use btrfs_peek.Disk.DirEntries.{parse_dir_entries}
use btrfs_peek.Disk.DirEntries.Encoding.{
  Stored, encode_all, encode_stored, encode_tail, parse_dir_entries-encode_all,
}
use btrfs_peek.Disk.Extents.{Extent, regular, parse_extent}
use btrfs_peek.Disk.Extents.Encoding.{encode_extent, parse_extent-encode_extent}

-- A checksum of one's own: the first four bytes covered.
abbrev pub external : External
external = record {
  crc32c = λ s. from_le_bytes (take 4 s);
  crc32c_append = λ start s. start + from_le_bytes (take 2 s);
  from_utf8_lossy = λ s. s;
}

abbrev noise : Bytes
noise = replicate 200 3

abbrev some_key : Key
some_key = new_key 257 84 0x1234_5678_9abc

abbrev around : Bytes
around = (7 ∷ 7 ∷ []) ++ (encode_key some_key ++ (9 ∷ []))

around_length : length around < 2 ^ 64
unfolding encode_key to_le_bytes
around_length = omega arith

some_key-At : At around 2 (encode_key some_key)
some_key-At = record { before = 7 ∷ 7 ∷ []; after = 9 ∷ []; whole = refl; offset = refl }

some_key-FitsKey : FitsKey some_key
some_key-FitsKey = record { objectid = omega arith; ty = omega arith; offset = omega arith }

parse_key-encode_key_example : parse_key around 2 ≡ ok some_key
parse_key-encode_key_example =
    parse_key-encode_key {b = around} {off = 2} some_key some_key-FitsKey around_length some_key-At

-- A superblock with a crc32c checksum, 4 KiB sectors and 16 KiB nodes.
abbrev pub superblock_with : ℕ → Bytes
superblock_with array_size =
    (1 ∷ 2 ∷ 3 ∷ 4 ∷ [])
    ++ (replicate 28 0
        ++ ((1 ∷ 2 ∷ 3 ∷ 4 ∷ [])
            ++ (replicate 12 5
                ++ (replicate 16 0
                    ++ (magic
                        ++ (to_le_bytes 8 9
                            ++ (to_le_bytes 8 0x50_0000
                                ++ (to_le_bytes 8 0x60_0000
                                    ++ (to_le_bytes 8 0
                                        ++ (to_le_bytes 8 0
                                            ++ (to_le_bytes 8 0x4000_0000
                                                ++ (to_le_bytes 8 0x10_0000
                                                    ++ (to_le_bytes 8 6
                                                        ++ (to_le_bytes 8 1
                                                            ++ (to_le_bytes 4 4096
                                                            ++ (to_le_bytes 4 16384
                                                            ++ (replicate 8 0
                                                            ++ (to_le_bytes 4 array_size
                                                            ++ (replicate 24 0
                                                            ++ (to_le_bytes 8 0x361
                                                            ++ (to_le_bytes 2 0
                                                            ++ (replicate 3 0
                                                            ++ (to_le_bytes 8 1
                                                            ++ (replicate 90 0
                                                            ++ ((b'h' ∷ b'i' ∷ [])
                                                            ++ (replicate 510 0
                                                            ++ replicate 3285
                                                            7))))))))))))))))))))))))))

abbrev superblock_bytes : Bytes
superblock_bytes = superblock_with 17

abbrev pub superblock : Superblock
superblock = record {
  fsid = (1 ∷ 2 ∷ 3 ∷ 4 ∷ []) ++ replicate 12 5;
  generation = 9;
  root = 0x50_0000;
  chunk_root = 0x60_0000;
  log_root = 0;
  total_bytes = 0x4000_0000;
  bytes_used = 0x10_0000;
  root_dir_objectid = 6;
  num_devices = 1;
  sectorsize = 4096;
  nodesize = 16384;
  incompat_flags = 0x361;
  csum_type = 0;
  devid = 1;
  label = b'h' ∷ b'i' ∷ [];
  sys_chunk_array = replicate 17 7;
}

superblock_accepted : parse_superblock external superblock_bytes ≡ ok superblock
unfolding parse_superblock check_checksum check_crc32c read_fields check_sizes u16_at u32_at u64_at
    bytes eq_bytes is_power_of_two before_zero from_le_bytes to_le_bytes
superblock_accepted = refl

parse_superblock-IsAccepted_example : IsAccepted external superblock_bytes superblock
parse_superblock-IsAccepted_example =
    parse_superblock-IsAccepted external superblock_bytes superblock superblock_accepted

-- A RAID1 chunk with two stripes.
abbrev pub chunk : StoredChunk
chunk = record {
  length = 0x1000_0000;
  owner = replicate 16 2;
  ty = 0x14;
  alignment = replicate 12 0;
  sub_stripes = 0 ∷ 0 ∷ [];
  stripes =
      record { stripe = (1, 0x2000_0000); uuid = replicate 16 8 }
      ∷ record { stripe = (2, 0x100_0000); uuid = replicate 16 9 }
      ∷ [];
}

chunk_length : length (encode_chunk chunk ++ (1 ∷ [])) < 2 ^ 64
unfolding encode_chunk encode_stripes encode_stripe to_le_bytes
chunk_length = omega arith

pub chunk-FitsChunk : FitsChunk chunk
chunk-FitsChunk = record {
  length_fits = omega arith;
  owner_length = refl;
  ty = omega arith;
  alignment_length = refl;
  sub_stripes_length = refl;
  some_stripes = omega arith;
  few_stripes = omega arith;
  stripes = ((omega arith, omega arith, refl), ((omega arith, omega arith, refl), tt));
}

parse_chunk-encode_chunk_example :
    parse_chunk 0x100_0000 (encode_chunk chunk ++ (1 ∷ []))
    ≡ ok (decoded 0x100_0000 chunk, length (encode_chunk chunk))
parse_chunk-encode_chunk_example =
    parse_chunk-encode_chunk 0x100_0000 chunk (1 ∷ []) chunk-FitsChunk chunk_length

-- A file last modified before 1970.
abbrev inode : Inode
inode = record {
  size = 5;
  nlink = 1;
  uid = 1000;
  gid = 100;
  mode = 0o100644;
  mtime_sec = negsuc 86399;
  mtime_nsec = 500;
}

abbrev skipped : Skipped
skipped = record {
  front = replicate 16 1;
  middle = replicate 16 2;
  times = replicate 80 3;
  back = replicate 12 4;
}

parse_inode-encode_inode_example :
    (parse_inode (encode_inode inode skipped) ≡ ok inode)
    × (parse_inode (take 159 (encode_inode inode skipped)) ≡ err (corrupt_structure 160 0))
parse_inode-encode_inode_example =
    parse_inode-encode_inode inode skipped 159
      (record {
        size = omega arith;
        nlink = omega arith;
        uid = omega arith;
        gid = omega arith;
        mode = omega arith;
        mtime_sec = omega arith;
        mtime_nsec = omega arith;
        front_length = refl;
        middle_length = refl;
        times_length = refl;
        back_length = refl;
      })
      (omega arith)

-- Two names with one hash, the second with data behind its name.
abbrev entries : List Stored
entries =
    record {
      entry = record { name = b'a' ∷ []; location = some_key; ftype = 1 };
      transid = replicate 8 1;
      extra = [];
    }
    ∷ record {
      entry = record { name = b'b' ∷ b'c' ∷ []; location = some_key; ftype = 2 };
      transid = replicate 8 2;
      extra = 5 ∷ [];
    }
    ∷ []

entries_length : length (encode_all entries) < 2 ^ 64
unfolding encode_all encode_stored encode_tail encode_key to_le_bytes
entries_length = omega arith

parse_dir_entries-encode_all_example :
    parse_dir_entries (encode_all entries) ≡ ok (map (λ s. s.entry) entries)
parse_dir_entries-encode_all_example =
    parse_dir_entries-encode_all entries
      (
        record {
          location = some_key-FitsKey;
          transid = refl;
          name = omega arith;
          extra = omega arith;
        },
        (
          record {
            location = some_key-FitsKey;
            transid = refl;
            name = omega arith;
            extra = omega arith;
          },
          tt,
        ),
      )
      entries_length

-- A compressed extent in the middle of its disk extent.
abbrev extent : Extent
extent = record {
  file_off = 8192;
  len = 4096;
  ram_bytes = 0x2_0000;
  compression = 3;
  kind = regular 0x100_0000 0x1000 4096;
}

extent_length : length (encode_extent extent (replicate 8 1) (0 ∷ 0 ∷ []) (replicate 24 0)) < 2 ^ 64
unfolding encode_extent to_le_bytes
extent_length = omega arith

parse_extent-encode_extent_example :
    parse_extent 8192 (encode_extent extent (replicate 8 1) (0 ∷ 0 ∷ []) (replicate 24 0))
    ≡ ok extent
parse_extent-encode_extent_example =
    parse_extent-encode_extent extent (replicate 8 1) (0 ∷ 0 ∷ []) (replicate 24 0)
      (record {
        ram_bytes = omega arith;
        len = omega arith;
        kind = (omega arith, omega arith, omega arith);
        generation_length = refl;
        encoding_length = refl;
        skipped_length = refl;
      })
      extent_length
