-- ===== src/Fs/Contents/Whole.antt =====
-- A read of a range of a file that succeeds hands on exactly as many bytes as the range has.
use btrfs_peek.Prelude.{
  ℕ, ◌+◌, ◌-◌, min, ◌≡◌, refl, ap, inl, inr, ◌&&◌, ◌||◌, Option, none, some, List, [], ◌∷◌, arith,
  Result, ok, err, ◌>>=◌, >>=-eq-ok, then_next-eq-ok, length, take, drop, length-take, length-drop,
  leb, ◌==◌, Bool-cases,
}
use btrfs_peek.Disk.Bytes.{Bytes, add64, checked_add, get_range}
use btrfs_peek.Disk.Extents.{Extent, ExtentKind, inline, regular, prealloc}
use btrfs_peek.Disk.Keys.{u64_max}
use btrfs_peek.Decompress.{Decoders}
use btrfs_peek.Fs.Mirrors.{Filesystem}
use btrfs_peek.Fs.Mirrors.Reads.{length-read_logical}
use btrfs_peek.Fs.Emit.{emit}
use btrfs_peek.Fs.Emit.Sized.{collect, IsExact, AreExact, Moved, emit-Moved}
use btrfs_peek.Fs.Contents.{
  Source, with_last, LastExtent, or_overflow, inline_bytes, inline_reader, disk_reader,
  plain_reader, inline_source, plain_source, disk_source, source_of, emit_source, emit_extents,
  emit_rest, read_extents, read_range,
}

inline_reader-IsExact : (from : ℕ) (plain : Bytes) → IsExact (inline_reader from plain)
unfolding inline_reader
inline_reader-IsExact from plain at n b l h =
    elim (Bool-cases (leb (at - from) (at - from + n) && leb (at - from + n) (length plain))) [
      | inl fits ↦
          let e : take (at - from + n - (at - from)) (drop (at - from) plain) ≡ b =
            ground (arith, (rw fits at h)) in
          let size : length (take (at - from + n - (at - from)) (drop (at - from) plain)) ≡ n =
            rw (length-take, length-drop) (ground arith) in
          rw e at size
      | inr out ↦ cc (rw out at h)
    ]

plain_reader-IsExact : (from offset : ℕ) (plain : Bytes) → IsExact (plain_reader from offset plain)
unfolding plain_reader get_range
plain_reader-IsExact from offset plain at n b l h =
    let s = add64 offset (at - from) in
    let end = add64 s n in
    elim (Bool-cases (leb s end && leb end (length plain))) [
      | inl fits ↦
          let e : take (end - s) (drop s plain) ≡ b = ground (arith, (rw fits at h)) in
          let size : length (take (end - s) (drop s plain)) ≡ n =
            rw (length-take, length-drop) (ground arith) in
          rw e at size
      | inr out ↦ cc (rw out at h)
    ]

module _ (x : Decoders) (fs : Filesystem) where
  disk_reader-IsExact : (from base : ℕ) → IsExact (disk_reader x fs from base)
  unfolding disk_reader
  disk_reader-IsExact from base at n b l h =
      let (addr, e, h1) = >>=-eq-ok (or_overflow (checked_add base (at - from))) _ h in
      length-read_logical fs addr n h1

abbrev SourceIsExact : Result Source → Type 0
SourceIsExact (ok (to, contents)) = AreExact contents
SourceIsExact (err e) = Unit {0}

inline_source-exact : (ext : Extent) (r : Result Bytes) → SourceIsExact (inline_source ext r)
unfolding inline_source
inline_source-exact ext (ok plain) = inline_reader-IsExact ext.file_off plain
inline_source-exact ext (err e) = tt

plain_source-exact :
    (ext : Extent) (to offset : ℕ) (r : Result Bytes × LastExtent)
    → SourceIsExact (plain_source ext to offset r).0
unfolding plain_source
plain_source-exact ext to offset (ok plain, last) = plain_reader-IsExact ext.file_off offset plain
plain_source-exact ext to offset (err e, last) = tt

disk_source-exact :
    (x : Decoders) (fs : Filesystem) (ext : Extent) (to disk_bytenr offset : ℕ)
    → SourceIsExact (disk_source x fs ext to disk_bytenr offset)
unfolding disk_source or_overflow
disk_source-exact x fs ext to disk_bytenr offset = base (checked_add disk_bytenr offset)
  where
    base :
        (o : Option ℕ)
        → SourceIsExact (or_overflow o >>= λ b. ok (to, some (disk_reader x fs ext.file_off b)))
    base (some b) = disk_reader-IsExact x fs ext.file_off b
    base none = tt

source_of-exact :
    (x : Decoders) (fs : Filesystem) (ext : Extent) (to : ℕ) (k : ExtentKind) (last : LastExtent)
    → SourceIsExact (source_of x fs ext to k last).0
unfolding source_of
source_of-exact x fs ext to prealloc last = tt
source_of-exact x fs ext to (inline raw) last = inline_source-exact ext (inline_bytes x fs ext raw)
source_of-exact x fs ext to (regular d n o) last = elim (Bool-cases (d == 0)) [
  | inl hole ↦ rw hole tt
  | inr data_at ↦ elim (Bool-cases (ext.compression == 0)) [
    | inl plain ↦ rw (data_at, plain) (disk_source-exact x fs ext to d o)
    | inr packed ↦ rw (data_at, packed) (plain_source-exact ext to o _)
  ]
]

Moved-trans :
    {end a b c : ℕ} {s t u : Bytes} → Moved end a b s t → Moved end b c t u → Moved end a c s u
Moved-trans m n = record {
  sent = omega (arith, m.sent, n.sent, m.forward, n.forward);
  forward = omega (arith, m.forward, n.forward);
  within = omega (arith, m.within, n.within, m.forward);
}

Moved-refl : {end a : ℕ} {s : Bytes} → Moved end a a s s
Moved-refl = record { sent = omega arith; forward = omega arith; within = omega arith }

stopped :
    {end pos next : ℕ} {last last' : LastExtent} {out out' : Bytes}
    → ◌≡◌ {A = Result ℕ × (LastExtent × Bytes)} (ok pos, (last, out)) (ok next, (last', out'))
    → Moved end pos next out out'
stopped {end} {pos} {next} {last} {last'} {out} {out'} h =
    let p : pos ≡ next = ground (arith, h) in
    let o : out ≡ out' = ground (arith, h) in rw (← p, ← o) Moved-refl

module _ (x : Decoders) (fs : Filesystem) (end : ℕ) where
  with_last_lem :
      (w : Result ℕ × Bytes) (last : LastExtent) {last' : LastExtent} {next : ℕ} {out : Bytes}
      → with_last x fs collect end last w ≡ (ok next, (last', out))
      → w ≡ (ok next, out)
  unfolding with_last
  with_last_lem (r, s) last {last'} {next} {out} h =
      let p : r ≡ ok next = ap (λ z. z.0) h in let q : s ≡ out = ap (λ z. z.1.1) h in rw (p, q) refl

  emit_source-Moved :
      (from pos next : ℕ) (out out' : Bytes) (r : Result Source × LastExtent) {last : LastExtent}
      → SourceIsExact r.0
      → emit_source x fs collect end from pos out r ≡ (ok next, (last, out'))
      → Moved end pos next out out'
  unfolding emit_source
  emit_source-Moved from pos next out out' (err e, last) exact h = cc
  emit_source-Moved from pos next out out' (ok (to, contents), last) exact h =
      (emit-Moved end from to contents pos next out out' exact
        (with_last_lem (emit collect end from to contents pos out) last h)).0

  emit_extents-Moved :
      (exts : List Extent) (pos next : ℕ) (last last' : LastExtent) (out out' : Bytes)
      → emit_extents x fs collect end exts pos (last, out) ≡ (ok next, (last', out'))
      → Moved end pos next out out'
  unfolding emit_extents
  emit_extents-Moved [] pos next last last' out out' h = stopped h
  emit_extents-Moved (ext ∷ exts) pos next last last' out out' h =
      let to = min (ext.file_off + ext.len) u64_max in
      elim (Bool-cases (leb end pos || leb end ext.file_off)) [
        | inl past ↦ stopped (rw past at h)
        | inr wanted ↦ elim (Bool-cases (leb to pos)) [
          | inl before ↦
              emit_extents-Moved exts pos next last last' out out' (rw (wanted, before) at h)
          | inr within ↦
              let source = source_of x fs ext to ext.kind last in
              let (mid, (last1, out1), e, h1) =
                then_next-eq-ok (emit_extents x fs collect end exts)
                  (emit_source x fs collect end ext.file_off pos out source)
                  (rw (wanted, within) at h) in
              Moved-trans
                (emit_source-Moved ext.file_off pos mid out out1 source
                  (source_of-exact x fs ext to ext.kind last) e)
                (emit_extents-Moved exts mid next last1 last' out1 out' h1)
        ]
      ]

  -- Behind the extents the rest is a hole up to the end.
  read_extents_lem :
      (exts : List Extent) (start next : ℕ) (last last' : LastExtent) (out : Bytes)
      → read_extents x fs collect end exts start (last, []) ≡ (ok next, (last', out))
      → length out ≡ end - start
  unfolding read_extents emit_rest
  read_extents_lem exts start next last last' out h =
      let (mid, (last1, out1), e, h1) =
        then_next-eq-ok (emit_rest x fs collect end)
          (emit_extents x fs collect end exts start (last, [])) h in
      let m = emit_extents-Moved exts start mid last last1 [] out1 e in
      let (n, all) =
        emit-Moved end mid end none mid next out1 out tt
          (with_last_lem (emit collect end mid end none mid out1) last1 h1) in
      omega (arith, m.sent, m.forward, m.within, n.sent, n.forward, n.within, all (omega arith))

-- A read of a range of a file that succeeds, whatever its extents, the devices, the decoders and the cached extent are, hands on exactly as many bytes as lie between `start` and the smaller of `end` and the file's size.
pub length-read_range :
    (x : Decoders) (fs : Filesystem) (size : ℕ) (exts : List Extent) (start end next : ℕ)
    (last last' : LastExtent) (out : Bytes)
    → read_range x fs collect size exts start end (last, []) ≡ (ok next, (last', out))
    → length out ≡ min end size - start
unfolding read_range
length-read_range x fs size exts start end next last last' out h =
    read_extents_lem x fs (min end size) exts start next last last' out h
