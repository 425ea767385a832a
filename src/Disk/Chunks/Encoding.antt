-- ===== src/Disk/Chunks/Encoding.antt =====
-- A chunk item read back from its bytes.
use btrfs_peek.Prelude.{
  ℕ, ◌+◌, ◌*◌, ◌<◌, ◌≡◌, refl, false, List, [], ◌∷◌, ◌++◌, map, arith, ok, length, All,
  length-append, ◌==◌,
}
use btrfs_peek.Disk.Bytes.{Bytes, IsU64, to_le_bytes}
use btrfs_peek.Disk.Bytes.Slices.{At, At-left, At-skip, length-to_le_bytes}
use btrfs_peek.Disk.Bytes.Words.{u16_at-At, u64_at-At}
use btrfs_peek.Disk.Chunks.{Chunk, parse_stripes, parse_chunk}

-- A stripe as it is stored: with the device's uuid, which the parser skips.
pub record StoredStripe : Type 0 where
  pub stripe : ℕ × ℕ
  pub uuid : Bytes

abbrev pub FitsStripe : StoredStripe → Type 0
FitsStripe s = IsU64 s.stripe.0 × IsU64 s.stripe.1 × (length s.uuid ≡ 16)

unfoldable pub encode_stripe : StoredStripe → Bytes
encode_stripe s = to_le_bytes 8 s.stripe.0 ++ (to_le_bytes 8 s.stripe.1 ++ s.uuid)

unfoldable pub encode_stripes : List StoredStripe → Bytes
encode_stripes [] = []
encode_stripes (s ∷ ss) = encode_stripe s ++ encode_stripes ss

-- A chunk item: the fields between those that the parser reads are any bytes.
pub record StoredChunk : Type 0 where
  pub length : ℕ
  pub owner : Bytes
  pub ty : ℕ
  pub alignment : Bytes
  pub sub_stripes : Bytes
  pub stripes : List StoredStripe

pub record FitsChunk (c : StoredChunk) : Type 0 where
  pub length_fits : IsU64 c.length
  pub owner_length : length c.owner ≡ 16
  pub ty : IsU64 c.ty
  pub alignment_length : length c.alignment ≡ 12
  pub sub_stripes_length : length c.sub_stripes ≡ 2
  pub some_stripes : 0 < length c.stripes
  pub few_stripes : length c.stripes < 0x1_0000
  pub stripes : All FitsStripe c.stripes

unfoldable pub encode_chunk : StoredChunk → Bytes
encode_chunk c =
    to_le_bytes 8 c.length
    ++ (c.owner
        ++ (to_le_bytes 8 c.ty
            ++ (c.alignment
                ++ (to_le_bytes 2 (length c.stripes)
                    ++ (c.sub_stripes ++ encode_stripes c.stripes)))))

abbrev pub decoded : ℕ → StoredChunk → Chunk
decoded start c = record {
  start = start;
  length = c.length;
  ty = c.ty;
  stripes = map (λ s. s.stripe) c.stripes;
}

length-encode_stripe : (s : StoredStripe) → length s.uuid ≡ 16 → length (encode_stripe s) ≡ 32
unfolding encode_stripe
length-encode_stripe s h = simp (length-append, length-to_le_bytes) (omega (arith, h))

length-encode_stripes :
    (ss : List StoredStripe) → All FitsStripe ss → length (encode_stripes ss) ≡ length ss * 32
unfolding encode_stripes
length-encode_stripes [] f = refl
length-encode_stripes (s ∷ ss) f = omega (
  arith,
  length-append (encode_stripe s) (encode_stripes ss),
  length-encode_stripe s f.0.2,
  length-encode_stripes ss f.1,
)

parse_stripes-encode_stripes :
    {b : Bytes} (i : ℕ) (ss : List StoredStripe)
    → All FitsStripe ss
    → IsU64 (length b)
    → At b (48 + i * 32) (encode_stripes ss)
    → parse_stripes b (length ss) i ≡ ok (map (λ s. s.stripe) ss)
unfolding parse_stripes encode_stripes encode_stripe
parse_stripes-encode_stripes i [] f w a = refl
parse_stripes-encode_stripes i (s ∷ ss) ((fd, fp, fu), f) w a =
    let here = At-left (encode_stripe s) (encode_stripes ss) a in
    let devid = to_le_bytes 8 s.stripe.0 in
    let physical = to_le_bytes 8 s.stripe.1 in
    let at8 =
      At-skip devid (physical ++ s.uuid) 8 (48 + i * 32 + 8) (length-to_le_bytes 8 _) refl here in
    let rest =
      At-skip (encode_stripe s) (encode_stripes ss) 32 (48 + (i + 1) * 32)
        (length-encode_stripe s fu) (omega arith) a in
    rw (
      u64_at-At s.stripe.0 w fd (At-left devid _ here),
      u64_at-At s.stripe.1 w fp (At-left physical _ at8),
      parse_stripes-encode_stripes (i + 1) ss f w rest,
    )

length-encode_chunk :
    (c : StoredChunk) → FitsChunk c → length (encode_chunk c) ≡ 48 + length c.stripes * 32
unfolding encode_chunk
length-encode_chunk c f =
    simp (length-append, length-to_le_bytes)
      (omega (
        arith,
        f.owner_length,
        f.alignment_length,
        f.sub_stripes_length,
        length-encode_stripes c.stripes f.stripes,
      ))

parse_chunk-At :
    {b : Bytes} (start : ℕ) (c : StoredChunk)
    → FitsChunk c
    → IsU64 (length b)
    → At b 0 (encode_chunk c)
    → parse_chunk start b ≡ ok (decoded start c, 48 + length c.stripes * 32)
unfolding parse_chunk encode_chunk
parse_chunk-At {b} start c f w at0 =
    let len = to_le_bytes 8 c.length in
    let ty = to_le_bytes 8 c.ty in
    let count = to_le_bytes 2 (length c.stripes) in
    let after_count = c.sub_stripes ++ encode_stripes c.stripes in
    let after_ty = c.alignment ++ (count ++ after_count) in
    let at8 = At-skip len (c.owner ++ (ty ++ after_ty)) 8 8 (length-to_le_bytes 8 _) refl at0 in
    let at24 = At-skip c.owner (ty ++ after_ty) 16 24 f.owner_length refl at8 in
    let at32 = At-skip ty after_ty 8 32 (length-to_le_bytes 8 _) refl at24 in
    let at44 = At-skip c.alignment (count ++ after_count) 12 44 f.alignment_length refl at32 in
    let at46 = At-skip count after_count 2 46 (length-to_le_bytes 2 _) refl at44 in
    let at48 =
      At-skip c.sub_stripes (encode_stripes c.stripes) 2 48 f.sub_stripes_length refl at46 in
    let nonzero : (length c.stripes == 0) ≡ false = ground (arith, f.some_stripes) in
    rw (
      u16_at-At (length c.stripes) w f.few_stripes (At-left count _ at44),
      nonzero,
      parse_stripes-encode_stripes 0 c.stripes f.stripes w at48,
      u64_at-At c.length w f.length_fits (At-left len _ at0),
      u64_at-At c.ty w f.ty (At-left ty _ at24),
    )

-- A chunk item whose fields fit, with one stripe at least and any bytes behind it, is parsed into its start, length, type and stripes, and the size returned is that of the encoding.
pub parse_chunk-encode_chunk :
    (start : ℕ) (c : StoredChunk) (more : Bytes)
    → FitsChunk c
    → IsU64 (length (encode_chunk c ++ more))
    → parse_chunk start (encode_chunk c ++ more) ≡ ok (decoded start c, length (encode_chunk c))
parse_chunk-encode_chunk start c more f w =
    rw (length-encode_chunk c f) (
      parse_chunk-At start c f w
        (record { before = []; after = more; whole = refl; offset = refl }))
