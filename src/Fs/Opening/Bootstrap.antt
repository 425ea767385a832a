-- ===== src/Fs/Opening/Bootstrap.antt =====
-- The loop over the system chunk array of a superblock.
use btrfs_peek.Prelude.{
  ℕ, zero, suc, ◌+◌, ◌-◌, ◌≤◌, ◌≡◌, refl, sym, ap, ◌∙◌, inl, inr, List, [], ◌∷◌, ◌++◌, append_assoc,
  append-nil, arith, ok, IsClean, IsClean-bind, length, All, length-append, ltb, lt→ltb, eq→==,
  Bool-cases,
}
use btrfs_peek.Disk.Bytes.{Bytes, IsU64, bytes}
use btrfs_peek.Disk.Bytes.Clean.{clean_reads}
use btrfs_peek.Disk.Bytes.Slices.{bytes-At}
use btrfs_peek.Disk.Keys.{Key, parse_key, FitsKey, encode_key, chunk_item_key, key_size}
use btrfs_peek.Disk.Keys.Order.{length-encode_key, parse_key-encode_key}
use btrfs_peek.Disk.Chunks.{Chunk}
use btrfs_peek.Disk.Chunks.Encoding.{
  StoredChunk, FitsChunk, encode_chunk, decoded, parse_chunk-encode_chunk,
}
use btrfs_peek.Disk.Robust.{parse_key-IsClean, parse_chunk-IsClean}
use btrfs_peek.Fs.Mirrors.{insert_chunk}
use btrfs_peek.Fs.Opening.{insert_chunks, system_chunk, system_chunks}

system_chunk-IsClean : (arr : Bytes) (off : ℕ) → IsClean (system_chunk arr off)
unfolding system_chunk
system_chunk-IsClean arr off = grind (arith, clean_reads, parse_key-IsClean, parse_chunk-IsClean)

-- The loop over any system chunk array ends without a panic, within as many rounds as the array has bytes.
pub system_chunks-IsClean :
    (arr : Bytes) (fuel off : ℕ) (chunks : List Chunk)
    → length arr ≤ fuel + off
    → IsClean (system_chunks arr fuel off chunks)
unfolding system_chunks
system_chunks-IsClean arr zero off chunks h = ground arith
system_chunks-IsClean arr (suc fuel) off chunks h = elim (Bool-cases (ltb off (length arr))) [
  | inl more ↦ rw more (
      IsClean-bind (system_chunk arr off) _ (system_chunk-IsClean arr off) (λ r e.
        system_chunks-IsClean arr fuel (off + (key_size + r.1)) (insert_chunk r.0 chunks)
          (omega (arith, h))))
  | inr done ↦ rw done refl
]

-- What a system chunk array holds: keys, each followed by its chunk.
abbrev pub Stored : Type 0
Stored = Key × StoredChunk

abbrev pub encode_system : List Stored → Bytes
encode_system [] = []
encode_system ((k, c) ∷ cs) = encode_key k ++ (encode_chunk c ++ encode_system cs)

abbrev pub decoded_chunks : List Stored → List Chunk
decoded_chunks [] = []
decoded_chunks ((k, c) ∷ cs) = decoded k.offset c ∷ decoded_chunks cs

abbrev pub Fits : Stored → Type 0
Fits (k, c) = FitsKey k × (k.ty ≡ chunk_item_key) × FitsChunk c

system_chunk-encode :
    (before : Bytes) (k : Key) (c : StoredChunk) (rest : Bytes)
    → Fits (k, c)
    → IsU64 (length (before ++ (encode_key k ++ (encode_chunk c ++ rest))))
    → system_chunk (before ++ (encode_key k ++ (encode_chunk c ++ rest))) (length before)
      ≡ ok (decoded k.offset c, length (encode_chunk c))
unfolding system_chunk
system_chunk-encode before k c rest (fk, ty, fc) wide =
    let arr = before ++ (encode_key k ++ (encode_chunk c ++ rest)) in
    let tail = encode_chunk c ++ rest in
    let size : length arr ≡ length before + (17 + length tail) = omega (
      arith,
      length-append before (encode_key k ++ tail),
      length-append (encode_key k) tail,
      length-encode_key k,
    ) in
    let key : parse_key arr (length before) ≡ ok k =
      parse_key-encode_key k fk wide
        (record { before = before; after = tail; whole = refl; offset = refl }) in
    let behind : bytes arr (length before + key_size) (length arr - length before - key_size)
        ≡ ok tail =
      bytes-At tail _ (omega (arith, size)) wide (record {
        before = before ++ encode_key k;
        after = [];
        whole =
            ap (λ t. before ++ (encode_key k ++ t)) (sym (append-nil tail))
            ∙ sym (append_assoc before (encode_key k) (tail ++ []));
        offset = omega (arith, length-append before (encode_key k), length-encode_key k);
      }) in
    rw (key, eq→== k.ty chunk_item_key ty, behind)
      (parse_chunk-encode_chunk k.offset c rest fc (omega (arith, size, wide)))

system_chunks_from :
    (cs : List Stored) (arr before : Bytes) (fuel off : ℕ) (chunks : List Chunk)
    → arr ≡ before ++ encode_system cs
    → length before ≡ off
    → IsU64 (length arr)
    → All Fits cs
    → length (encode_system cs) ≤ fuel
    → system_chunks arr fuel off chunks ≡ ok (insert_chunks (decoded_chunks cs) chunks)
unfolding system_chunks insert_chunks
system_chunks_from [] arr before zero off chunks whole at wide fits few =
    let size : length arr ≡ off = omega (arith, ap length whole, length-append before [], at) in
    ground arith
system_chunks_from [] arr before (suc fuel) off chunks whole at wide fits few =
    let size : length arr ≡ off = omega (arith, ap length whole, length-append before [], at) in
    ground arith
system_chunks_from ((k, c) ∷ cs) arr before zero off chunks whole at wide (fit, fits) few = absurd (
    omega (
      arith,
      few,
      length-append (encode_key k) (encode_chunk c ++ encode_system cs),
      length-encode_key k,
    ))
system_chunks_from ((k, c) ∷ cs) arr before (suc fuel) off chunks whole at wide (fit, fits) few =
    let here : encode_key k ++ (encode_chunk c ++ encode_system cs)
        ≡ (encode_key k ++ encode_chunk c) ++ encode_system cs =
      sym (append_assoc (encode_key k) (encode_chunk c) (encode_system cs)) in
    let sizes : (length (encode_system ((k, c) ∷ cs))
        ≡ 17 + (length (encode_chunk c) + length (encode_system cs))) =
      omega (
        arith,
        length-append (encode_key k) (encode_chunk c ++ encode_system cs),
        length-encode_key k,
        length-append (encode_chunk c) (encode_system cs),
      ) in
    let total : length arr ≡ length before + length (encode_system ((k, c) ∷ cs)) =
      omega (arith, ap length whole, length-append before (encode_system ((k, c) ∷ cs))) in
    let one : system_chunk arr off ≡ ok (decoded k.offset c, length (encode_chunk c)) =
      (rw (← whole, at) at
        (system_chunk-encode before k c (encode_system cs) fit (rw (← whole) wide))) in
    rw (lt→ltb off (length arr) (omega (arith, sizes, total, at)), one)
      (system_chunks_from cs arr (before ++ (encode_key k ++ encode_chunk c)) fuel
        (off + (key_size + length (encode_chunk c))) (insert_chunk (decoded k.offset c) chunks)
        (whole
          ∙ ap (λ t. before ++ t) here
          ∙ sym (append_assoc before (encode_key k ++ encode_chunk c) (encode_system cs)))
        (omega (
          arith,
          length-append before (encode_key k ++ encode_chunk c),
          length-append (encode_key k) (encode_chunk c),
          length-encode_key k,
          at,
        ))
        wide fits (omega (arith, sizes, few)))

-- A system chunk array that holds keys and chunks whose fields fit gives exactly those chunks, put into the map in their order.
pub system_chunks-encode_system :
    (cs : List Stored)
    → All Fits cs
    → IsU64 (length (encode_system cs))
    → system_chunks (encode_system cs) (length (encode_system cs)) 0 []
      ≡ ok (insert_chunks (decoded_chunks cs) [])
system_chunks-encode_system cs fits wide =
    system_chunks_from cs (encode_system cs) [] (length (encode_system cs)) 0 [] refl refl wide fits
      (omega arith)
