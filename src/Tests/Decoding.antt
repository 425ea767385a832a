-- ===== src/Tests/Decoding.antt =====
-- The decoders of decompress.rs on small extents.
use btrfs_peek.Prelude.{◌^◌, ◌≤◌, ◌≡◌, refl, ◌↔◌, true, false, none, [], ◌∷◌, ok, length}
use btrfs_peek.Disk.Bytes.{Bytes, from_le_bytes}
use btrfs_peek.Decompress.{
  plain, Decoders, next_multiple_of, finish, le32, plain_segment, header_pos, extent_size,
  segment_at, lzo_loop, lzo, decode_with, decode,
}
use btrfs_peek.Decompress.Exact.{size_allowed, length-decode}
use btrfs_peek.Decompress.Zlib.{AcceptsZlib, decode_zlib}

-- Decoders that hand the bytes on, as a stored block does.
abbrev pub stored : Decoders
stored = record {
  zlib = λ s. record { produced = s; fails = false };
  zstd = λ s. none;
  lzokay = λ s most. plain s;
}

-- A frame of 11 bytes: its length, and one segment of three bytes.
abbrev frame : Bytes
frame = 11 ∷ 0 ∷ 0 ∷ 0 ∷ 3 ∷ 0 ∷ 0 ∷ 0 ∷ 5 ∷ 6 ∷ 7 ∷ 99 ∷ []

frame_decodes : decode stored 2 frame 5 4096 false ≡ ok (5 ∷ 6 ∷ 7 ∷ 0 ∷ 0 ∷ [])
unfolding decode decode_with lzo lzo_loop segment_at header_pos le32 plain_segment finish
    extent_size next_multiple_of from_le_bytes
frame_decodes = refl

abbrev frame_contents : Bytes
frame_contents = 5 ∷ 6 ∷ 7 ∷ 0 ∷ 0 ∷ []

length-decode_example : (length frame_contents ≡ 5) × (5 ≤ 2 ^ 30)
length-decode_example = length-decode stored 2 frame 5 4096 false frame_contents frame_decodes

decode_zlib_example :
    (decode stored 1 (8 ∷ 9 ∷ []) 3 512 true ≡ ok (8 ∷ 9 ∷ 0 ∷ []))
    ↔ AcceptsZlib (stored.zlib (8 ∷ 9 ∷ [])) 3 (size_allowed 3 512 true) 512 (8 ∷ 9 ∷ 0 ∷ [])
decode_zlib_example = decode_zlib stored (8 ∷ 9 ∷ []) 3 512 true (8 ∷ 9 ∷ 0 ∷ [])
