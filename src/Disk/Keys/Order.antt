-- ===== src/Disk/Keys/Order.antt =====
-- Keys are totally ordered, and a key is read back from its 17 bytes.
use btrfs_peek.Prelude.{
  ℕ, ◌+◌, ◌≤◌, ◌≡◌, refl, true, false, [], ◌∷◌, arith, ok, >>=-eq-ok, length, length-append,
}
use btrfs_peek.Disk.Bytes.{Bytes, IsU64, u8_at, u64_at, to_le_bytes}
use btrfs_peek.Disk.Bytes.Slices.{At, At-left, At-right, length-to_le_bytes}
use btrfs_peek.Disk.Bytes.Words.{u8_at-At, u64_at-At, u64_at_takes}
use btrfs_peek.Disk.Keys.{Key, parse_key, ltb_key, leb_key, FitsKey, encode_key}

pub length-encode_key : (k : Key) → length (encode_key k) ≡ 17
unfolding encode_key
length-encode_key k = omega (
  arith,
  length-append (to_le_bytes 8 k.objectid) (k.ty ∷ to_le_bytes 8 k.offset),
  length-to_le_bytes 8 k.objectid,
  length-to_le_bytes 8 k.offset,
)

-- A key whose fields fit is read back from its encoding, wherever that stands in the slice.
pub parse_key-encode_key :
    {b : Bytes} {off : ℕ} (k : Key)
    → FitsKey k
    → IsU64 (length b)
    → At b off (encode_key k)
    → parse_key b off ≡ ok k
unfolding parse_key encode_key
parse_key-encode_key {b} {off} k f w a =
    let head = At-left (to_le_bytes 8 k.objectid) (k.ty ∷ to_le_bytes 8 k.offset) a in
    let rest =
      At-right (to_le_bytes 8 k.objectid) (k.ty ∷ to_le_bytes 8 k.offset) 8
        (length-to_le_bytes 8 k.objectid) a in
    let ty = At-left (k.ty ∷ []) (to_le_bytes 8 k.offset) rest in
    let offset = At-right (k.ty ∷ []) (to_le_bytes 8 k.offset) 1 refl rest in
    let e : off + 8 + 1 ≡ off + 9 = omega arith in
    let r = u64_at-At k.offset w f.offset offset in
    rw (u64_at-At k.objectid w f.objectid head, u8_at-At k.ty w ty, rw e at r)

pub parse_key_takes : (b : Bytes) (off : ℕ) {k : Key} → parse_key b off ≡ ok k → off + 17 ≤ length b
unfolding parse_key
parse_key_takes b off h =
    let (o, e, h1) = >>=-eq-ok (u64_at b off) _ h in
    let (t, f, h2) = >>=-eq-ok (u8_at b (off + 8)) _ h1 in
    let (p, g, h3) = >>=-eq-ok (u64_at b (off + 9)) _ h2 in
    omega (arith, u64_at_takes b (off + 9) g)

pub ltb_key_irrefl : (a : Key) → ltb_key a a ≡ false
unfolding ltb_key
ltb_key_irrefl a = ground arith

pub ltb_key_trans : (a b c : Key) → ltb_key a b ≡ true → ltb_key b c ≡ true → ltb_key a c ≡ true
unfolding ltb_key
ltb_key_trans a b c p q = ground arith

-- From `a < b` and `b ≤ c`.
pub ltb_key_le : (a b c : Key) → ltb_key a b ≡ true → ltb_key c b ≡ false → ltb_key a c ≡ true
unfolding ltb_key
ltb_key_le a b c p q = ground arith

-- From `a ≤ b` and `b < c`.
pub le_ltb_key : (a b c : Key) → ltb_key b a ≡ false → ltb_key b c ≡ true → ltb_key a c ≡ true
unfolding ltb_key
le_ltb_key a b c p q = ground arith

pub ltb_key_asymm : (a b : Key) → ltb_key a b ≡ true → ltb_key b a ≡ false
unfolding ltb_key
ltb_key_asymm a b p = ground arith

pub ltb_key_antisymm : (a b : Key) → ltb_key a b ≡ false → ltb_key b a ≡ false → a ≡ b
unfolding ltb_key
ltb_key_antisymm a b p q = ground arith

pub leb_key→ltb : (a b : Key) → leb_key a b ≡ true → ltb_key b a ≡ false
unfolding leb_key
leb_key→ltb a b h = ground arith
