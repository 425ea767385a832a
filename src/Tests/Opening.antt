-- ===== src/Tests/Opening.antt =====
-- The start of a filesystem from one device, and a system chunk array.
use btrfs_peek.Prelude.{◌≡◌, refl, List, [], ◌∷◌, arith, ok, length, All}
use btrfs_peek.Disk.Bytes.{IsU64, u16_at, u32_at, u64_at, bytes, to_le_bytes, from_le_bytes}
use btrfs_peek.Disk.External.{eq_bytes}
use btrfs_peek.Disk.Keys.{new_key, encode_key}
use btrfs_peek.Disk.Superblocks.{
  is_power_of_two, before_zero, check_crc32c, check_checksum, read_fields, check_sizes,
  parse_superblock,
}
use btrfs_peek.Disk.Chunks.Encoding.{encode_chunk, encode_stripes, encode_stripe}
use btrfs_peek.Dev.{got, Device, read_loop, fill, read}
use btrfs_peek.Fs.Mirrors.{Filesystem}
use btrfs_peek.Fs.Opening.{
  insert_device, insert_chunks, gather_one, gather, bootstrap, system_chunks,
}
use btrfs_peek.Fs.Opening.Newest.{IsNewest, bootstrap-IsNewest}
use btrfs_peek.Fs.Opening.Bootstrap.{
  Stored, Fits, encode_system, decoded_chunks, system_chunks-encode_system,
}
use btrfs_peek.Tests.Parsers.{external, superblock, superblock_with, chunk, chunk-FitsChunk}

-- A device of which only the superblock is read.
abbrev device : Device
device = record { read_at = λ k off want. got (superblock_with 0); retries = 0 }

abbrev opened : Filesystem
opened = record {
  devs = (1, device) ∷ [];
  sb = record superblock { sys_chunk_array = [] };
  chunks = [];
}

opens : bootstrap external (ok device ∷ []) ≡ ok opened
unfolding bootstrap gather gather_one insert_device system_chunks read fill read_loop
    parse_superblock check_checksum check_crc32c read_fields check_sizes u16_at u32_at u64_at bytes
    eq_bytes is_power_of_two before_zero from_le_bytes to_le_bytes
opens = refl

bootstrap-IsNewest_example :
    IsNewest external (record superblock { sys_chunk_array = [] }) (ok device ∷ [])
bootstrap-IsNewest_example = bootstrap-IsNewest external (ok device ∷ []) opened opens

-- A system array of one chunk.
abbrev system : List Stored
system = (new_key 256 228 0x10_0000, chunk) ∷ []

system-Fits : All Fits system
system-Fits = (
  (
    record { objectid = omega arith; ty = omega arith; offset = omega arith },
    refl,
    chunk-FitsChunk,
  ),
  tt,
)

system_length : IsU64 (length (encode_system system))
unfolding encode_chunk encode_stripes encode_stripe encode_key to_le_bytes
system_length = omega arith

system_chunks-encode_system_example :
    system_chunks (encode_system system) (length (encode_system system)) 0 []
    ≡ ok (insert_chunks (decoded_chunks system) [])
system_chunks-encode_system_example = system_chunks-encode_system system system-Fits system_length
