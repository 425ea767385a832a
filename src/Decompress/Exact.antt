-- ===== src/Decompress/Exact.antt =====
-- A decoded extent has exactly the size that it declares, and decoding always returns.
use btrfs_peek.Prelude.{
  ℕ, ◌+◌, ◌-◌, ◌*◌, ◌/◌, ◌%◌, ◌^◌, ◌≤◌, ◌<◌, ◌≡◌, refl, Bool, true, false, not, ◌&&◌, Option, none,
  some, [], arith, ok, err, >>=-eq-ok, guard, guard-eq-ok, length, take, length-append, length-take,
  length-replicate, leb, ◌==◌, if◌then◌else◌, leb→le, implausible_size, zero_sectorsize, bad_frame,
  unknown_compression,
}
use btrfs_peek.Disk.Bytes.{Bytes}
use btrfs_peek.Decompress.{
  next_multiple_of, Stream, Decoders, Size, pad, finish, read_limited, stream, le32, lzo_loop, lzo,
  zstd_stream, decode_with, extent_size, decode, max_ram_bytes,
}

pub length-pad : (n : ℕ) (out : Bytes) → length out ≤ n → length (pad n out) ≡ n
length-pad n out h = rw (length-append, length-replicate) (omega (arith, h))

-- What `finish` accepts, and what it makes of it.
pub finish_lem :
    (out : Bytes) (size : Size) {r : Bytes}
    → finish out size ≡ ok r
    → (r ≡ pad size.ram_bytes (take size.ram_bytes out))
      × (length out ≤ size.most)
      × (size.ram_bytes < length out + size.sectorsize)
unfolding finish
finish_lem out size h = ground (arith, length-take size.ram_bytes out)

-- The size that an inline extent may decode to is rounded up to a sector.
unfoldable pub size_allowed : ℕ → ℕ → Bool → ℕ
size_allowed ram sector inline =
    if inline then (ram + (sector - 1)) / sector * sector % 2 ^ 64 else ram

abbrev pub size_of : ℕ → ℕ → Bool → Size
size_of ram sector inline = record {
  ram_bytes = ram;
  most = size_allowed ram sector inline;
  sectorsize = sector;
}

pub extent_size_lem :
    (ram sector : ℕ) (inline : Bool)
    → (sector == 0) ≡ false
    → extent_size ram sector inline ≡ ok (size_of ram sector inline)
unfolding extent_size next_multiple_of size_allowed
extent_size_lem ram sector true z = rw z refl
extent_size_lem ram sector false z = refl

pub nonzero :
    (sector : ℕ) {u : Unit {0}}
    → guard (not (sector == 0)) zero_sectorsize ≡ ok u
    → (sector == 0) ≡ false
nonzero sector h = ground (arith, guard-eq-ok (not (sector == 0)) zero_sectorsize h)

-- Every decoder ends in `finish`.
lzo-finish :
    (x : Decoders) (src : Bytes) (size : Size) {r : Bytes}
    → lzo x src size ≡ ok r
    → (out : Bytes) × (finish out size ≡ ok r)
unfolding lzo
lzo-finish x src size h =
    let (total, e, h1) = >>=-eq-ok (le32 src 0) _ h in
    let (u, g, h2) = >>=-eq-ok (guard (leb 4 total && leb total (length src)) bad_frame) _ h1 in
    let (out, f, h3) = >>=-eq-ok (lzo_loop x total src total size 4 []) _ h2 in (out, h3)

stream-finish :
    (s : Stream) (size : Size) {r : Bytes}
    → stream s size ≡ ok r
    → (out : Bytes) × (finish out size ≡ ok r)
unfolding stream
stream-finish s size h =
    let (out, e, f) = >>=-eq-ok (read_limited s (size.most + 1)) _ h in (out, f)

zstd-finish :
    (s : Option Stream) (size : Size) {r : Bytes}
    → zstd_stream s size ≡ ok r
    → (out : Bytes) × (finish out size ≡ ok r)
unfolding zstd_stream
zstd-finish none size h = cc
zstd-finish (some s) size h = stream-finish s size h

decode-finish :
    (x : Decoders) (algo : ℕ) (src : Bytes) (size : Size) {r : Bytes}
    → decode_with x algo src size ≡ ok r
    → (out : Bytes) × (finish out size ≡ ok r)
unfolding decode_with
decode-finish x algo src size {r} h = pick (algo == 1) (algo == 2) (algo == 3) h
  where
    pick :
        (a b c : Bool)
        → (if a
            then stream (x.zlib src) size
            else if b
            then lzo x src size
            else if c
            then zstd_stream (x.zstd src) size
            else err (unknown_compression algo))
          ≡ ok r
        → (out : Bytes) × (finish out size ≡ ok r)
    pick true b c h = stream-finish (x.zlib src) size h
    pick false true c h = lzo-finish x src size h
    pick false false true h = zstd-finish (x.zstd src) size h
    pick false false false h = cc

-- An extent that decodes, whatever its compression type, has exactly the `ram_bytes` bytes that it declares, at most 2^30 of them.
pub length-decode :
    (x : Decoders) (algo : ℕ) (src : Bytes) (ram sector : ℕ) (inline : Bool) (r : Bytes)
    → decode x algo src ram sector inline ≡ ok r
    → (length r ≡ ram) × (ram ≤ 2 ^ 30)
unfolding decode
length-decode x algo src ram sector inline r h =
    let (u, g, h1) = >>=-eq-ok (guard (leb ram max_ram_bytes) implausible_size) _ h in
    let (v, z, h2) = >>=-eq-ok (guard (not (sector == 0)) zero_sectorsize) _ h1 in
    let h3 = rw (extent_size_lem ram sector inline (nonzero sector z)) at h2 in
    let (out, f) = decode-finish x algo src (size_of ram sector inline) h3 in
    let (e, _, _) = finish_lem out (size_of ram sector inline) f in
    (
      rw (e, length-pad ram (take ram out) (rw length-take (omega arith))),
      leb→le ram max_ram_bytes (guard-eq-ok (leb ram max_ram_bytes) implausible_size g),
    )
