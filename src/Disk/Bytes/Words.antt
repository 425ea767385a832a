-- ===== src/Disk/Bytes/Words.antt =====
-- Little-endian words: a word that stands in a slice is read back, a word read is in range, and a
-- read at an offset ends inside the slice.
use btrfs_peek.Prelude.{
  ℕ, ◌+◌, ◌^◌, ◌≤◌, ◌<◌, ◌≡◌, refl, ap, [], ◌∷◌, arith, Result, ok, ◌>>=◌, >>=-eq-ok, length, eq→==,
}
use btrfs_peek.Disk.Bytes.{
  word, Bytes, AreBytes, IsU64, bytes, from_le_bytes, to_le_bytes, u8_at, u16_at, u32_at, u64_at,
}
use btrfs_peek.Disk.Bytes.Slices.{
  At, bytes-At, bytes_takes, bytes-AreBytes, length-to_le_bytes, from_le_bytes-to_le_bytes,
  from_le_bytes-lt,
}

-- The four readers are one reader at four widths (`u8_at` indexes the slice it has read).
word_at : ℕ → Bytes → ℕ → Result ℕ
word_at n b off = do s ← bytes b off n; word n s

word_at-At :
    {b : Bytes} {off : ℕ} (n v : ℕ)
    → v < 256 ^ n
    → IsU64 (length b)
    → At b off (to_le_bytes n v)
    → word_at n b off ≡ ok v
unfolding word_at
word_at-At n v h w a =
    rw
      (
        bytes-At (to_le_bytes n v) n (length-to_le_bytes n v) w a,
        eq→== (length (to_le_bytes n v)) n (length-to_le_bytes n v),
      )
      (ap ok (from_le_bytes-to_le_bytes n v h))

word_at_takes : (n : ℕ) (b : Bytes) (off : ℕ) {v : ℕ} → word_at n b off ≡ ok v → off + n ≤ length b
unfolding word_at
word_at_takes n b off h = let (s, e, _) = >>=-eq-ok (bytes b off n) _ h in (bytes_takes b off n e).0

word_at-lt :
    (n : ℕ) (b : Bytes) (off : ℕ) {v : ℕ} → word_at n b off ≡ ok v → AreBytes b → v < 256 ^ n
unfolding word_at
word_at-lt n b off {v} h w =
    let (s, e, f) = >>=-eq-ok (bytes b off n) _ h in
    let size = (bytes_takes b off n e).2 in
    let l : from_le_bytes s ≡ v = ground (arith, (rw (eq→== (length s) n size) at f)) in
    let t = from_le_bytes-lt s (bytes-AreBytes b off n e w) in
    rw (l, (bytes_takes b off n e).2) at t

module _ {b : Bytes} {off : ℕ} (v : ℕ) (w : IsU64 (length b)) where
  pub u16_at-At : v < 0x1_0000 → At b off (to_le_bytes 2 v) → u16_at b off ≡ ok v
  unfolding u16_at word_at
  u16_at-At h a = word_at-At 2 v h w a

  pub u32_at-At : v < 0x1_0000_0000 → At b off (to_le_bytes 4 v) → u32_at b off ≡ ok v
  unfolding u32_at word_at
  u32_at-At h a = word_at-At 4 v h w a

  pub u64_at-At : IsU64 v → At b off (to_le_bytes 8 v) → u64_at b off ≡ ok v
  unfolding u64_at word_at
  u64_at-At h a = word_at-At 8 v h w a

  pub u8_at-At : At b off (v ∷ []) → u8_at b off ≡ ok v
  unfolding u8_at
  u8_at-At a = rw (bytes-At (v ∷ []) 1 refl w a)

module _ (b : Bytes) (off : ℕ) {v : ℕ} where
  pub u8_at_takes : u8_at b off ≡ ok v → off + 1 ≤ length b
  unfolding u8_at
  u8_at_takes h = let (s, e, _) = >>=-eq-ok (bytes b off 1) _ h in (bytes_takes b off 1 e).0

  pub u16_at_takes : u16_at b off ≡ ok v → off + 2 ≤ length b
  unfolding u16_at word_at
  u16_at_takes h = word_at_takes 2 b off h

  pub u32_at_takes : u32_at b off ≡ ok v → off + 4 ≤ length b
  unfolding u32_at word_at
  u32_at_takes h = word_at_takes 4 b off h

  pub u64_at_takes : u64_at b off ≡ ok v → off + 8 ≤ length b
  unfolding u64_at word_at
  u64_at_takes h = word_at_takes 8 b off h

  pub u16_at-lt : u16_at b off ≡ ok v → AreBytes b → v < 0x1_0000
  unfolding u16_at word_at
  u16_at-lt h w = word_at-lt 2 b off h w

  pub u32_at-lt : u32_at b off ≡ ok v → AreBytes b → v < 0x1_0000_0000
  unfolding u32_at word_at
  u32_at-lt h w = word_at-lt 4 b off h w

  pub u64_at-lt : u64_at b off ≡ ok v → AreBytes b → IsU64 v
  unfolding u64_at word_at
  u64_at-lt h w = word_at-lt 8 b off h w
