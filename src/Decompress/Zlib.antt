-- ===== src/Decompress/Zlib.antt =====
-- When a streamed extent is accepted, and what it then decodes to.
use btrfs_peek.Prelude.{
  ℕ, ◌+◌, ◌-◌, ◌^◌, ◌≤◌, ◌<◌, ◌≡◌, ◌↔◌, Bool, true, false, not, arith, ok, >>=-eq-ok, guard,
  guard-eq-ok, length, take, length-take, ltb, leb, ◌==◌, lt→ltb, le→leb, leb→le, implausible_size,
  zero_sectorsize,
}
use btrfs_peek.Disk.Bytes.{Bytes}
use btrfs_peek.Decompress.{
  Stream, Decoders, Size, pad, finish, read_limited, stream, decode_with, decode, max_ram_bytes,
}
use btrfs_peek.Decompress.Exact.{size_allowed, size_of, extent_size_lem, nonzero, finish_lem}

-- The conditions under which a zlib extent is accepted, and the bytes that it then has.
pub record AcceptsZlib (s : Stream) (ram most sector : ℕ) (r : Bytes) : Type 0 where
  pub small : ram ≤ 2 ^ 30
  pub sector_size : 0 < sector
  pub whole : s.fails ≡ false
  pub not_over : length s.produced ≤ most
  pub not_short : ram < length s.produced + sector
  pub result : r ≡ pad ram (take ram s.produced)

read_limited_lem :
    (s : Stream) (n : ℕ) {out : Bytes}
    → read_limited s (n + 1) ≡ ok out
    → length out ≤ n
    → (out ≡ s.produced) × (s.fails ≡ false)
unfolding read_limited
read_limited_lem s n h l = ground (arith, length-take (n + 1) s.produced)

stream_accepted :
    (s : Stream) (size : Size) {r : Bytes}
    → stream s size ≡ ok r
    → (s.fails ≡ false)
      × (length s.produced ≤ size.most)
      × (size.ram_bytes < length s.produced + size.sectorsize)
      × (r ≡ pad size.ram_bytes (take size.ram_bytes s.produced))
unfolding stream
stream_accepted s size h =
    let (out, e, f) = >>=-eq-ok (read_limited s (size.most + 1)) _ h in
    let (same, over, short) = finish_lem out size f in
    let (all, whole) = read_limited_lem s size.most e over in
    (whole, rw all at over, rw all at short, rw all at same)

stream_accepts :
    (s : Stream) (size : Size)
    → 0 < size.sectorsize
    → s.fails ≡ false
    → length s.produced ≤ size.most
    → size.ram_bytes < length s.produced + size.sectorsize
    → stream s size ≡ ok (pad size.ram_bytes (take size.ram_bytes s.produced))
unfolding stream read_limited finish
stream_accepts s size z w o sh =
    let past : leb (size.most + 1) (length s.produced) ≡ false = ground arith in
    let short : ltb (size.ram_bytes - length (take size.ram_bytes s.produced)) size.sectorsize
        ≡ true =
      lt→ltb _ _ (rw length-take (omega (arith, sh, z))) in
    rw (past, w, le→leb _ _ o, short)

-- A zlib extent decodes to `r` exactly when the stream ends without an error, within the size allowed and less than a sector short of the size declared, and `r` is what the stream yields, cut or filled with zeros to that size.
pub decode_zlib :
    (x : Decoders) (src : Bytes) (ram sector : ℕ) (inline : Bool) (r : Bytes)
    → (decode x 1 src ram sector inline ≡ ok r)
      ↔ AcceptsZlib (x.zlib src) ram (size_allowed ram sector inline) sector r
unfolding decode decode_with
decode_zlib x src ram sector inline r = (
  λ h.
      let (u, g, h1) = >>=-eq-ok (guard (leb ram max_ram_bytes) implausible_size) _ h in
      let (v, z, h2) = >>=-eq-ok (guard (not (sector == 0)) zero_sectorsize) _ h1 in
      let (whole, over, short, same) =
        stream_accepted (x.zlib src) (size_of ram sector inline)
          (rw (extent_size_lem ram sector inline (nonzero sector z)) at h2) in
      record {
        small = leb→le ram max_ram_bytes (guard-eq-ok (leb ram max_ram_bytes) implausible_size g);
        sector_size = ground (arith, guard-eq-ok (not (sector == 0)) zero_sectorsize z);
        whole = whole;
        not_over = over;
        not_short = short;
        result = same;
      },
  λ a.
      let positive : (sector == 0) ≡ false = ground (arith, a.sector_size) in
      rw
        (
          le→leb ram max_ram_bytes a.small,
          positive,
          extent_size_lem ram sector inline positive,
          a.result,
        )
        (stream_accepts (x.zlib src) (size_of ram sector inline) a.sector_size a.whole a.not_over
          a.not_short),
)
