-- ===== src/Dev/Content.antt =====
-- A read of a device returns the bytes that the device holds.
use btrfs_peek.Prelude.{
  ℕ, zero, suc, ◌+◌, ◌-◌, ◌%◌, ◌^◌, ◌≤◌, ◌<◌, min, ◌≡◌, refl, sym, ap, ◌∙◌, inl, inr, Bool, true,
  false, [], ◌∷◌, ◌++◌, arith, Error, Result, ok, err, ◌>>=◌, guard, length, take, drop,
  length-append, length-take, length-drop, take_all, take_add, drop-drop, drop-take, take-take, ltb,
  leb, if◌then◌else◌, ltb→lt, lt→ltb, Bool-cases, unexpected_eof,
}
use btrfs_peek.Disk.Bytes.{Bytes, add64}
use mathlib.Core.Path.{ap₂}
use btrfs_peek.Dev.{
  after_attempt, Attempt, got, interrupted, failed, Device, max_io, sub64, round_up, read_loop,
  fill, read,
}

-- One attempt at `off` for `want` bytes of a device that holds `disk`: some of the bytes there, and none only at its end, or an interruption, which comes only before attempt `retries`.
abbrev pub AttemptFits : Bytes → ℕ → ℕ → ℕ → ℕ → Attempt → Type 0
AttemptFits disk retries k off want (got s) =
    (length s ≤ want) × (s ≡ take (length s) (drop off disk)) × (length s ≡ 0 → length disk ≤ off)
AttemptFits disk retries k off want interrupted = k < retries
AttemptFits disk retries k off want failed = ⊥

-- The device holds `disk`: reads of the operating system may be short and may be interrupted.
pub record IsDisk (d : Device) (disk : Bytes) : Type 0 where
  pub attempts :
      (k off want : ℕ) → 0 < want → AttemptFits disk d.retries k off want (d.read_at k off want)

module _ (d : Device) (disk : Bytes) (holds : IsDisk d disk) (start size : ℕ) where
  -- Where the device ends, what has been read is all that there is.
  at_end :
      (buf : Bytes)
      → buf ≡ take (length buf) (drop start disk)
      → length buf ≤ size
      → length disk ≤ start + length buf
      → buf ≡ take size (drop start disk)
  at_end buf e l h =
      let short : length (drop start disk) ≤ length buf = rw length-drop (omega (arith, h)) in
      e ∙ take_all (length buf) _ short ∙ sym (take_all size _ (omega (arith, short, l)))

  -- The bytes of one more attempt continue those read so far.
  extend :
      (buf s : Bytes)
      → buf ≡ take (length buf) (drop start disk)
      → s ≡ take (length s) (drop (start + length buf) disk)
      → buf ++ s ≡ take (length (buf ++ s)) (drop start disk)
  extend buf s e f =
      let whole =
        take_add (length buf) (length s) (length (buf ++ s)) (drop start disk)
          (sym (length-append buf s)) in
      let next : take (length s) (drop (length buf) (drop start disk)) ≡ s =
        rw (drop-drop start (length buf) (start + length buf) disk refl) (sym f) in
      sym (whole ∙ ap₂ (λ a b. a ++ b) (sym e) next)

  after_attempt-take :
      (more : Bytes → Result Bytes) (fuel k want : ℕ) (buf : Bytes) (a : Attempt)
      → AttemptFits disk d.retries k (start + length buf) want a
      → ((b : Bytes)
          → b ≡ take (length b) (drop start disk)
          → length b ≤ size
          → size - length b + (d.retries - (k + 1)) ≤ fuel
          → more b ≡ ok (take size (drop start disk)))
      → want ≤ size - length buf
      → buf ≡ take (length buf) (drop start disk)
      → length buf < size
      → size - length buf + (d.retries - k) ≤ suc fuel
      → after_attempt more buf a ≡ ok (take size (drop start disk))
  unfolding after_attempt
  after_attempt-take more fuel k want buf (got []) (w, s, z) ih r e l f =
      ap ok (at_end buf e (omega (arith, l)) (z refl))
  after_attempt-take more fuel k want buf (got (x ∷ xs)) (w, s, z) ih r e l f =
      let n = length-append buf (x ∷ xs) in
      ih (buf ++ (x ∷ xs)) (extend buf (x ∷ xs) e s) (omega (arith, n, w, r))
        (omega (arith, n, f, l))
  after_attempt-take more fuel k want buf interrupted w ih r e l f =
      ih buf e (omega (arith, l)) (omega (arith, w, f))
  after_attempt-take more fuel k want buf failed w ih r e l f = absurd w

  read_loop_step :
      (fuel k : ℕ) (buf : Bytes)
      → ltb (length buf) size ≡ true
      → read_loop d start size (suc fuel) k buf
        ≡ after_attempt
            (read_loop d start size fuel (k + 1))
            buf
            (d.read_at k (start + length buf) (min (size - length buf) max_io))
  unfolding read_loop
  read_loop_step fuel k buf h = rw h

  pub read_loop-take :
      (fuel k : ℕ) (buf : Bytes)
      → buf ≡ take (length buf) (drop start disk)
      → length buf ≤ size
      → size - length buf + (d.retries - k) ≤ fuel
      → read_loop d start size fuel k buf ≡ ok (take size (drop start disk))
  read_loop-take zero k buf e l f =
      let full : length buf ≡ size = omega arith in
      let done : ltb (length buf) size ≡ false = ground arith in
      unfold read_loop in rw done (ap ok (rw full at e))
  read_loop-take (suc fuel) k buf e l f = elim (Bool-cases (ltb (length buf) size)) [
    | inl more ↦
        let room = ltb→lt (length buf) size more in
        let want = min (size - length buf) max_io in
        let fits = holds.attempts k (start + length buf) want (omega (arith, room)) in
        read_loop_step fuel k buf more
        ∙ after_attempt-take (read_loop d start size fuel (k + 1)) fuel k want buf _ fits
            (λ b p q m. read_loop-take fuel (k + 1) b p q m) (omega arith) e room f
    | inr done ↦
        let full : length buf ≡ size = ground arith in
        unfold read_loop in rw done (ap ok (rw full at e))
  ]

-- The widened range: page-aligned, and around the bytes asked for.
widened :
    (off len : ℕ)
    → off + len + 4096 ≤ 2 ^ 63
    → let start = off - off % 4096 in
      let size = sub64 (round_up (add64 off len)) start in
      (off - start + len ≤ size) × (start + (off - start) ≡ off) × (size < 2 ^ 63)
widened off len fits = (omega arith, omega arith, omega arith)

fill-take :
    (d : Device) (disk : Bytes) (start size : ℕ)
    → IsDisk d disk
    → size < 2 ^ 63
    → fill d start size ≡ ok (take size (drop start disk))
unfolding fill
fill-take d disk start size holds l = rw (lt→ltb size (2 ^ 63) l) (
    read_loop-take d disk holds start size (d.retries + size) 0 [] refl (omega arith) (omega arith))

guard-if :
    (e : Error) {x y : Bytes} (b : Bool)
    → x ≡ y
    → (guard b e >>= λ _. ok x) ≡ (if b then ok y else err e)
guard-if e true p = ap ok p
guard-if e false p = refl

-- What is cut out of the widened buffer.
cut :
    (disk : Bytes) (off len start size skip : ℕ)
    → 0 < len
    → skip + len ≤ size
    → start + skip ≡ off
    → (leb (skip + len) (length (take size (drop start disk))) ≡ leb (off + len) (length disk))
      × (drop skip (take (skip + len) (take size (drop start disk))) ≡ take len (drop off disk))
cut disk off len start size skip p h e = (
  rw (length-take, length-drop) (ground arith),
  ap (drop skip) (take-take (skip + len) size (drop start disk) h)
      ∙ drop-take skip len (skip + len) (drop start disk) refl
      ∙ ap (take len) (drop-drop start skip off disk e),
)

-- A read of a device whose attempts may be short or interrupted, but neither fail nor lie, returns exactly the `len` bytes that the device holds at `off`, and is the error for an unexpected end exactly where the device ends before them, for ranges that are not empty and end at least a page below 2^63.
pub read-take :
    (d : Device) (disk : Bytes) (off len : ℕ)
    → IsDisk d disk
    → 0 < len
    → off + len + 4096 ≤ 2 ^ 63
    → read d off len ≡ (
        if leb (off + len) (length disk) then ok (take len (drop off disk)) else err unexpected_eof)
unfolding read
read-take d disk off len holds p fits =
    let start = off - off % 4096 in
    let size = sub64 (round_up (add64 off len)) start in
    let (room, back, small) = widened off len fits in
    let (same, bytes) = cut disk off len start size (off - start) p room back in
    rw (fill-take d disk start size holds small, same)
      (guard-if unexpected_eof (leb (off + len) (length disk)) bytes)
