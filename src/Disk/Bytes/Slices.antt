-- ===== src/Disk/Bytes/Slices.antt =====
-- Reads of a slice whose contents at an offset are known, and bounds of what a read returns.
use btrfs_peek.Prelude.{
  ℕ, zero, suc, ◌+◌, ◌-◌, ◌/◌, ◌^◌, ◌≤◌, ◌<◌, ◌≡◌, refl, ap, ◌∙◌, [], ◌∷◌, ◌++◌, append_assoc,
  arith, ok, err, length, take, drop, length-append, length-take, length-drop, take-append_length,
  drop-append_length, All-take, All-drop, lt→ltb, le→leb, corrupt_structure,
}
use native.Mathlib.Nat.{pow-suc}
use btrfs_peek.Disk.Bytes.{
  Bytes, IsByte, AreBytes, IsU64, u64_mod, bytes, from_le_bytes, to_le_bytes,
}

-- `s` stands in `b` at offset `off`.
pub record At (b : Bytes) (off : ℕ) (s : Bytes) : Type 0 where
  pub before : Bytes
  pub after : Bytes
  pub whole : b ≡ before ++ (s ++ after)
  pub offset : length before ≡ off

pub At-left : {b : Bytes} {off : ℕ} (s t : Bytes) → At b off (s ++ t) → At b off s
At-left s t a = record {
  before = a.before;
  after = t ++ a.after;
  whole = rw (← append_assoc s t a.after) a.whole;
  offset = a.offset;
}

pub At-right :
    {b : Bytes} {off : ℕ} (s t : Bytes) (n : ℕ)
    → length s ≡ n
    → At b off (s ++ t)
    → At b (off + n) t
At-right s t n e a = record {
  before = a.before ++ s;
  after = a.after;
  whole = a.whole ∙ simp append_assoc;
  offset = omega (arith, length-append a.before s, a.offset, e);
}

-- The same at an offset written as the code writes it.
pub At-skip :
    {b : Bytes} {off : ℕ} (s t : Bytes) (n to : ℕ)
    → length s ≡ n
    → off + n ≡ to
    → At b off (s ++ t)
    → At b to t
At-skip s t n to e f a = let r = At-right s t n e a in rw f at r

pub At-length : {b : Bytes} {off : ℕ} (s : Bytes) → At b off s → off + length s ≤ length b
At-length s a =
    rw a.whole
      (omega (arith, length-append a.before (s ++ a.after), length-append s a.after, a.offset))

pub bytes_in_range :
    (b : Bytes) (off len : ℕ)
    → off + len ≤ length b
    → IsU64 (length b)
    → bytes b off len ≡ ok (take len (drop off b))
unfolding bytes
bytes_in_range b off len h w =
    let e : off + len - off ≡ len = omega arith in
    rw
      (lt→ltb (off + len) u64_mod (omega arith), le→leb off (off + len) (omega arith), le→leb _ _ h)
      (ap (λ n. ok (take n (drop off b))) e)

-- A read outside the slice is the error.
pub bytes_out_of_range :
    (b : Bytes) (off len : ℕ)
    → length b < off + len
    → bytes b off len ≡ err (corrupt_structure len off)
unfolding bytes
bytes_out_of_range b off len h = ground arith

-- A read of exactly what stands there.
pub bytes-At :
    {b : Bytes} {off : ℕ} (s : Bytes) (n : ℕ)
    → length s ≡ n
    → IsU64 (length b)
    → At b off s
    → bytes b off n ≡ ok s
bytes-At {b} {off} s n e h a =
    bytes_in_range b off n (rw (← e) (At-length s a)) h
    ∙ rw (← e, a.whole, ← a.offset, drop-append_length, take-append_length)

-- What a successful read returns: as many bytes as asked for, from inside the slice.
pub bytes_takes :
    (b : Bytes) (off len : ℕ) {s : Bytes}
    → bytes b off len ≡ ok s
    → (off + len ≤ length b) × (s ≡ take len (drop off b)) × (length s ≡ len)
unfolding bytes
bytes_takes b off len {s} h =
    let (fits, e) = slice in (fits, e, rw (e, length-take, length-drop) (omega (arith, fits)))
  where
    slice : (off + len ≤ length b) × (s ≡ take len (drop off b))
    slice = let e : off + len - off ≡ len = omega arith in ground (arith, e)

pub bytes-AreBytes :
    (b : Bytes) (off len : ℕ) {s : Bytes} → bytes b off len ≡ ok s → AreBytes b → AreBytes s
bytes-AreBytes b off len h w =
    rw ((bytes_takes b off len h).1) (All-take IsByte len _ (All-drop IsByte off b w))

pub length-to_le_bytes : (n v : ℕ) → length (to_le_bytes n v) ≡ n
unfolding to_le_bytes
length-to_le_bytes zero v = refl
length-to_le_bytes (suc n) v = ap suc (length-to_le_bytes n (v / 256))

pub from_le_bytes-to_le_bytes : (n v : ℕ) → v < 256 ^ n → from_le_bytes (to_le_bytes n v) ≡ v
unfolding to_le_bytes from_le_bytes
from_le_bytes-to_le_bytes zero v h = omega arith
from_le_bytes-to_le_bytes (suc n) v h =
    omega (arith, from_le_bytes-to_le_bytes n (v / 256) (omega (arith, h, pow-suc 256 n)))

pub from_le_bytes-lt : (s : Bytes) → AreBytes s → from_le_bytes s < 256 ^ length s
unfolding from_le_bytes
from_le_bytes-lt [] w = omega arith
from_le_bytes-lt (x ∷ xs) w = omega (arith, w.0, from_le_bytes-lt xs w.1, pow-suc 256 (length xs))
