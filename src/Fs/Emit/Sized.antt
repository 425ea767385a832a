-- ===== src/Fs/Emit/Sized.antt =====
-- The bytes emitted are as many as the position moves on.
use btrfs_peek.Prelude.{
  ℕ, zero, suc, ◌+◌, ◌-◌, ◌^◌, ◌≤◌, min, max, ◌≡◌, refl, inl, inr, false, Option, none, some, ◌++◌,
  arith, Result, ok, err, then_next-eq-ok, length, replicate, length-append, length-replicate, ltb,
  leb, ltb→lt, leb→le, Bool-cases,
}
use btrfs_peek.Disk.Bytes.{Bytes}
use btrfs_peek.Fs.Emit.{
  Piece, piece_data, piece_zeros, Reader, send_bytes, send_data, send_contents, send_gap, emit,
}

-- The sink of `read_to_vec`.
abbrev pub collect : Piece → Bytes → Result (Unit {0}) × Bytes
collect (piece_data d) out = (ok tt, out ++ d)
collect (piece_zeros n) out = (ok tt, out ++ replicate n 0)

-- A reader that gives as many bytes as it is asked for, or an error.
abbrev pub IsExact : Reader → Type 0
IsExact read = (at n : ℕ) (b : Bytes) → n ≤ 2 ^ 20 → read at n ≡ ok b → length b ≡ n

abbrev pub AreExact : Option Reader → Type 0
AreExact none = Unit {0}
AreExact (some read) = IsExact read

send_bytes_lem :
    (r : Result Bytes) (out t : Bytes) {u : Unit {0}}
    → send_bytes collect r out ≡ (ok u, t)
    → (b : Bytes) × (r ≡ ok b) × (length t ≡ length out + length b)
unfolding send_bytes
send_bytes_lem (ok b) out t h =
    let same : out ++ b ≡ t = ground (arith, h) in (b, refl, (rw same at (length-append out b)))
send_bytes_lem (err e) out t h = cc

length-send_data :
    (read : Reader) (to fuel at : ℕ) (out out' : Bytes) {u : Unit {0}}
    → IsExact read
    → at ≤ to
    → to ≤ at + fuel
    → send_data collect read to fuel at out ≡ (ok u, out')
    → length out' ≡ length out + (to - at)
unfolding send_data
length-send_data read to zero at out out' x l f h =
    let done : ltb at to ≡ false = ground arith in
    let same : out ≡ out' = ground (arith, (rw done at h)) in rw same (omega arith)
length-send_data read to (suc fuel) at out out' {u} x l f h = elim (Bool-cases (ltb at to)) [
  | inr done ↦ let same : out ≡ out' = ground (arith, (rw done at h)) in rw same (ground arith)
  | inl more ↦
      let n = min (to - at) (2 ^ 20) in
      let (v, t, e, h1) = then_next-eq-ok _ (send_bytes collect (read at n) out) (rw more at h) in
      let (b, r, size) = send_bytes_lem (read at n) out t e in
      let room = ltb→lt at to more in
      let ih =
        length-send_data read to fuel (at + n) t out' x (omega arith) (omega (arith, room, f)) h1 in
      omega (arith, ih, size, x at n b (omega arith) r, room)
]

filled : (out out' : Bytes) (n : ℕ) → out ++ replicate n 0 ≡ out' → length out' ≡ length out + n
filled out out' n same =
    let l : length (out ++ replicate n 0) ≡ length out + n =
      rw (length-append, length-replicate) refl in
    rw same at l

length-send_contents :
    (contents : Option Reader) (from to : ℕ) (out out' : Bytes) {u : Unit {0}}
    → AreExact contents
    → from ≤ to
    → send_contents collect contents from to out ≡ (ok u, out')
    → length out' ≡ length out + (to - from)
unfolding send_contents
length-send_contents none from to out out' x l h =
    let same : out ++ replicate (to - from) 0 ≡ out' = ground (arith, h) in
    filled out out' (to - from) same
length-send_contents (some read) from to out out' x l h =
    length-send_data read to (to - from) from out out' x l (omega arith) h

length-send_gap :
    (pos from : ℕ) (out out' : Bytes) {u : Unit {0}}
    → pos ≤ from
    → send_gap collect pos from out ≡ (ok u, out')
    → length out' ≡ length out + (from - pos)
unfolding send_gap
length-send_gap pos from out out' l h = elim (Bool-cases (ltb pos from)) [
  | inl gap ↦
      let same : out ++ replicate (from - pos) 0 ≡ out' = ground (arith, (rw gap at h)) in
      filled out out' (from - pos) same
  | inr none_left ↦
      let same : out ≡ out' = ground (arith, (rw none_left at h)) in rw same (ground arith)
]

-- The position moves from `pos` to `next`, never past `end`, and as many bytes were sent.
pub record Moved (end pos next : ℕ) (out out' : Bytes) : Type 0 where
  pub sent : length out' ≡ length out + (next - pos)
  pub forward : pos ≤ next
  pub within : next ≤ max pos end

pub emit-Moved :
    (end from to : ℕ) (contents : Option Reader) (pos next : ℕ) (out out' : Bytes)
    → AreExact contents
    → emit collect end from to contents pos out ≡ (ok next, out')
    → Moved end pos next out out' × (from ≤ pos → min to end ≤ next)
unfolding emit
emit-Moved end from0 to0 contents pos next out out' x h =
    let from = max from0 pos in
    let to = min to0 end in
    elim (Bool-cases (leb to from)) [
      | inl nothing ↦ stays (rw nothing at h) (leb→le to from nothing)
      | inr some_left ↦
          let (u, t, e, h1) =
            then_next-eq-ok _ (send_gap collect pos from out) (rw some_left at h) in
          let (v, t', f, h2) = then_next-eq-ok _ (send_contents collect contents from to t) h1 in
          let room : from ≤ to = ground arith in
          moves t t' (length-send_gap pos from out t (omega arith) e)
            (length-send_contents contents from to t t' x room f) room h2
    ]
  where
    stays :
        ◌≡◌ {A = Result ℕ × Bytes} (ok pos, out) (ok next, out')
        → min to0 end ≤ max from0 pos
        → Moved end pos next out out' × (from0 ≤ pos → min to0 end ≤ next)
    stays h l =
        let p : pos ≡ next = ground (arith, h) in
        let o : out ≡ out' = ground (arith, h) in
        rw (← p, ← o)
          (
            record { sent = omega arith; forward = omega arith; within = omega arith },
            λ m. omega (arith, l, m),
          )

    moves :
        (t t' : Bytes)
        → length t ≡ length out + (max from0 pos - pos)
        → length t' ≡ length t + (min to0 end - max from0 pos)
        → max from0 pos ≤ min to0 end
        → ◌≡◌ {A = Result ℕ × Bytes} (ok (min to0 end), t') (ok next, out')
        → Moved end pos next out out' × (from0 ≤ pos → min to0 end ≤ next)
    moves t t' a b l h =
        let p : min to0 end ≡ next = ground (arith, h) in
        let o : t' ≡ out' = ground (arith, h) in
        rw (← p, ← o)
          (
            record {
              sent = omega (arith, a, b, l);
              forward = omega (arith, l);
              within = omega arith;
            },
            λ m. omega arith,
          )
