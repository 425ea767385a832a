-- ===== src/Disk/External.antt =====
-- What disk.rs calls and does not implement: the crc32c crate, and the standard library's repair of
-- a byte string into UTF-8. A Rust `String` is the list of its UTF-8 bytes.
use btrfs_peek.Prelude.{ℕ, ◌≡◌, refl, Bool, true, false, ◌&&◌, [], ◌∷◌, arith, ◌==◌}
use btrfs_peek.Disk.Bytes.{Bytes}

pub record External : Type 0 where
  -- `crc32c::crc32c`, and `crc32c::crc32c_append`, which takes the checksum so far first.
  pub crc32c : Bytes → ℕ
  pub crc32c_append : ℕ → Bytes → ℕ
  -- `String::from_utf8_lossy`.
  pub from_utf8_lossy : Bytes → Bytes

-- Slice comparison, `==`.
unfoldable pub eq_bytes : Bytes → Bytes → Bool
eq_bytes [] [] = true
eq_bytes [] (y ∷ ys) = false
eq_bytes (x ∷ xs) [] = false
eq_bytes (x ∷ xs) (y ∷ ys) = x == y && eq_bytes xs ys

pub eq_bytes→eq : (xs ys : Bytes) → eq_bytes xs ys ≡ true → xs ≡ ys
unfolding eq_bytes
eq_bytes→eq [] [] h = refl
eq_bytes→eq [] (y ∷ ys) h = cc
eq_bytes→eq (x ∷ xs) [] h = cc
eq_bytes→eq (x ∷ xs) (y ∷ ys) h = ground (arith, eq_bytes→eq xs ys)

pub eq_bytes_refl : (xs : Bytes) → eq_bytes xs xs ≡ true
unfolding eq_bytes
eq_bytes_refl [] = refl
eq_bytes_refl (x ∷ xs) = ground (arith, eq_bytes_refl xs)
