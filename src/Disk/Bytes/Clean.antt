-- ===== src/Disk/Bytes/Clean.antt =====
-- The readers return a word or the error for a corrupt structure; they never panic.
use btrfs_peek.Prelude.{
  ℕ, ◌≡◌, refl, Bool, true, false, [], ◌∷◌, arith, Error, guard, raised, IsClean, IsClean-bind,
  length, eq→==,
}
use btrfs_peek.Disk.Bytes.{word, Bytes, bytes, first, u8_at, u16_at, u32_at, u64_at}
use btrfs_peek.Disk.Bytes.Slices.{bytes_takes}

pub bytes-IsClean : (b : Bytes) (off len : ℕ) → IsClean (bytes b off len)
unfolding bytes
bytes-IsClean b off len = ground arith

first-IsClean : (s : Bytes) → length s ≡ 1 → IsClean (first s)
first-IsClean [] h = absurd (omega arith)
first-IsClean (x ∷ xs) h = refl

word-IsClean : (n : ℕ) (s : Bytes) → length s ≡ n → IsClean (word n s)
word-IsClean n s h = rw (eq→== (length s) n h) refl

module _ (b : Bytes) (off : ℕ) where
  pub u8_at-IsClean : IsClean (u8_at b off)
  unfolding u8_at
  u8_at-IsClean =
      IsClean-bind (bytes b off 1) _ (bytes-IsClean b off 1)
        (λ s e. first-IsClean s (bytes_takes b off 1 e).2)

  pub u16_at-IsClean : IsClean (u16_at b off)
  unfolding u16_at
  u16_at-IsClean =
      IsClean-bind (bytes b off 2) _ (bytes-IsClean b off 2)
        (λ s e. word-IsClean 2 s (bytes_takes b off 2 e).2)

  pub u32_at-IsClean : IsClean (u32_at b off)
  unfolding u32_at
  u32_at-IsClean =
      IsClean-bind (bytes b off 4) _ (bytes-IsClean b off 4)
        (λ s e. word-IsClean 4 s (bytes_takes b off 4 e).2)

  pub u64_at-IsClean : IsClean (u64_at b off)
  unfolding u64_at
  u64_at-IsClean =
      IsClean-bind (bytes b off 8) _ (bytes-IsClean b off 8)
        (λ s e. word-IsClean 8 s (bytes_takes b off 8 e).2)

pub guard-IsClean : (b : Bool) (e : Error) → raised e ≡ true → IsClean (guard b e)
guard-IsClean true e h = refl
guard-IsClean false e h = h

pub ruleset clean_reads =
    (bytes-IsClean, u8_at-IsClean, u16_at-IsClean, u32_at-IsClean, u64_at-IsClean, guard-IsClean)
