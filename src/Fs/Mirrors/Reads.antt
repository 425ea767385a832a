-- ===== src/Fs/Mirrors/Reads.antt =====
-- A read of a logical address gives what its first readable mirror gives.
use btrfs_peek.Prelude.{
  ℕ, ◌+◌, ◌-◌, ◌%◌, ◌≤◌, ◌≡◌, ◌∙◌, ◌↔◌, ◌⊎◌, inl, inr, List, [], ◌∷◌, arith, Error, ok, err,
  >>=-eq-ok, guard, guard-eq-ok, length, take, drop, length-take, length-drop, leb, leb→le,
  Result-cases, unexpected_eof, unreadable,
}
use btrfs_peek.Disk.Bytes.{Bytes}
use btrfs_peek.Dev.{Device, fill, read}
use btrfs_peek.Fs.Mirrors.{Filesystem, mirrors, read_mirrors, read_logical}

-- A read that succeeds has the length asked for, whatever the device is.
pub length-read : (d : Device) (off len : ℕ) {b : Bytes} → read d off len ≡ ok b → length b ≡ len
unfolding read
length-read d off len {b} h =
    let skip = off - (off - off % 4096) in
    let (buf, e, h1) = >>=-eq-ok (fill d (off - off % 4096) _) _ h in
    let (u, g, h2) = >>=-eq-ok (guard (leb (skip + len) (length buf)) unexpected_eof) _ h1 in
    let fits = leb→le _ _ (guard-eq-ok (leb (skip + len) (length buf)) unexpected_eof g) in
    cut buf skip fits h2
  where
    cut :
        (buf : Bytes) (skip : ℕ)
        → skip + len ≤ length buf
        → ok (drop skip (take (skip + len) buf)) ≡ ok b
        → length b ≡ len
    cut buf skip fits same =
        let e : drop skip (take (skip + len) buf) ≡ b = ground (arith, same) in
        let l : length (drop skip (take (skip + len) buf)) ≡ len =
          rw (length-drop, length-take) (omega (arith, fits)) in
        rw e at l

-- The mirrors in front of the first that can be read fail, and that one gives `b`.
abbrev pub FirstReadable : ℕ → Bytes → List (Device × ℕ) → Type 0
FirstReadable len b [] = ⊥
FirstReadable len b ((d, phys) ∷ ms) =
    (read d phys len ≡ ok b) ⊎ ((e : Error) × (read d phys len ≡ err e) × FirstReadable len b ms)

read_mirrors_first :
    (len : ℕ) (e : Error) (ms : List (Device × ℕ)) {b : Bytes}
    → read_mirrors len e ms ≡ ok b
    → FirstReadable len b ms
unfolding read_mirrors
read_mirrors_first len e [] h = cc
read_mirrors_first len e ((d, phys) ∷ ms) {b} h = elim (Result-cases (read d phys len)) [
  | inl (a, f) ↦ inl (f ∙ (rw f at h))
  | inr (e', f) ↦ inr (e', f, read_mirrors_first len e' ms (rw f at h))
]

first_read_mirrors :
    (len : ℕ) (e : Error) (ms : List (Device × ℕ)) {b : Bytes}
    → FirstReadable len b ms
    → read_mirrors len e ms ≡ ok b
unfolding read_mirrors
first_read_mirrors len e [] h = absurd h
first_read_mirrors len e ((d, phys) ∷ ms) (inl f) = rw f
first_read_mirrors len e ((d, phys) ∷ ms) (inr (e', f, r)) = rw f (first_read_mirrors len e' ms r)

-- A logical address reads as `b` exactly when a chunk maps it to mirrors of which the first that can be read gives `b`: an error of one mirror is never the result while another can be read.
pub read_logical-FirstReadable :
    (fs : Filesystem) (logical len : ℕ) (b : Bytes)
    → (read_logical fs logical len ≡ ok b)
      ↔ ((ms : List (Device × ℕ)) × (mirrors fs logical len ≡ ok ms) × FirstReadable len b ms)
unfolding read_logical
read_logical-FirstReadable fs logical len b = (
  λ h.
      let (ms, e, r) = >>=-eq-ok (mirrors fs logical len) _ h in
      (ms, e, read_mirrors_first len unreadable ms r),
  λ (ms, e, r). rw e (first_read_mirrors len unreadable ms r),
)

FirstReadable-length :
    (len : ℕ) (b : Bytes) (ms : List (Device × ℕ)) → FirstReadable len b ms → length b ≡ len
FirstReadable-length len b [] h = absurd h
FirstReadable-length len b ((d, phys) ∷ ms) (inl f) = length-read d phys len f
FirstReadable-length len b ((d, phys) ∷ ms) (inr (e, f, r)) = FirstReadable-length len b ms r

pub length-read_logical :
    (fs : Filesystem) (logical len : ℕ) {b : Bytes}
    → read_logical fs logical len ≡ ok b
    → length b ≡ len
length-read_logical fs logical len {b} h =
    let (ms, e, r) = (read_logical-FirstReadable fs logical len b).0 h in
    FirstReadable-length len b ms r
