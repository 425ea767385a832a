-- ===== src/Disk/Superblocks/Checked.antt =====
-- What an accepted superblock satisfies.
use btrfs_peek.Prelude.{
  ℕ, ◌^◌, ◌≤◌, ◌≡◌, refl, sym, ap, ◌∙◌, Bool, true, ◌||◌, arith, ok, >>=-eq-ok, guard, guard-eq-ok,
  length, ltb, leb, ◌==◌, if◌then◌else◌, leb→le, ==→eq, eq→==, all_below, all_below_sound, no_magic,
  checksum_mismatch, bad_array_size,
}
use btrfs_peek.Disk.Bytes.{Bytes, bytes, u16_at, u32_at}
use btrfs_peek.Disk.Bytes.Slices.{bytes_takes}
use btrfs_peek.Disk.External.{External, eq_bytes, eq_bytes→eq}
use btrfs_peek.Disk.Superblocks.{
  Superblock, is_power_of_two, check_crc32c, check_checksum, read_fields, check_sizes,
  parse_superblock, magic,
}

-- The exponent of an accepted size, and the accepted sizes.
exponent : ℕ → ℕ
exponent n =
    if n == 512
    then 9
    else if n == 1024
    then 10
    else if n == 2048
    then 11
    else if n == 4096
    then 12
    else if n == 8192
    then 13
    else if n == 16384
    then 14
    else if n == 32768
    then 15
    else 16

-- Over the sizes that are accepted, every value is checked by evaluation.
power_ok : ℕ → Bool
power_ok n = if is_power_of_two n then ltb n 512 || n == 2 ^ exponent n else true

power_table : all_below 65537 power_ok ≡ true
unfolding all_below power_ok is_power_of_two exponent
power_table = refl

-- A power of two in the range that the parser accepts.
abbrev pub IsSize : ℕ → ℕ → Type 0
IsSize least n = (k : ℕ) × (n ≡ 2 ^ k) × (least ≤ n) × (n ≤ 65536)

power_of_two_size : (n : ℕ) → is_power_of_two n ≡ true → 512 ≤ n → n ≤ 65536 → n ≡ 2 ^ exponent n
unfolding power_ok
power_of_two_size n p l h =
    let e = 2 ^ exponent n in
    ground (arith, all_below_sound 65537 power_ok n power_table (omega arith), ==→eq n e)

of_power :
    (least n : ℕ)
    → 512 ≤ least
    → (is_power_of_two n ≡ true) × (least ≤ n) × (n ≤ 65536)
    → IsSize least n
of_power least n l (p, lo, hi) =
    (exponent n, power_of_two_size n p (omega (arith, l, lo)) hi, lo, hi)

check_sizes_lem :
    (x : External) (s t : Superblock)
    → check_sizes x s ≡ ok t
    → (s ≡ t) × IsSize 512 s.sectorsize × IsSize 4096 s.nodesize
unfolding check_sizes
check_sizes_lem x s t h =
    let facts : (s ≡ t)
        × ((is_power_of_two s.sectorsize ≡ true) × (512 ≤ s.sectorsize) × (s.sectorsize ≤ 65536))
        × ((is_power_of_two s.nodesize ≡ true) × (4096 ≤ s.nodesize) × (s.nodesize ≤ 65536)) =
      ground arith in
    let (e, sector, node) = facts in
    (e, of_power 512 s.sectorsize (omega arith) sector, of_power 4096 s.nodesize (omega arith) node)

-- The fields of the result are the words at their offsets.
read_fields_lem :
    (x : External) (b : Bytes) (c n : ℕ) (raw : Bytes) (sb : Superblock)
    → read_fields x b c n raw ≡ ok sb
    → (bytes b 0x20 16 ≡ ok sb.fsid)
      × (bytes b 0x32b n ≡ ok sb.sys_chunk_array)
      × (sb.csum_type ≡ c)
unfolding read_fields
read_fields_lem x b c n raw sb h = ground arith

-- What a superblock that is accepted satisfies.
pub record IsAccepted (x : External) (b : Bytes) (sb : Superblock) : Type 0 where
  pub has_magic : bytes b 0x40 8 ≡ ok magic
  pub csum_type : u16_at b 0xc4 ≡ ok sb.csum_type
  pub covered :
      sb.csum_type ≡ 0 → (s : Bytes) × (bytes b 32 4064 ≡ ok s) × (u32_at b 0 ≡ ok (x.crc32c s))
  pub fsid_length : length sb.fsid ≡ 16
  pub array_length : length sb.sys_chunk_array ≤ 2048
  pub sectorsize : IsSize 512 sb.sectorsize
  pub nodesize : IsSize 4096 sb.nodesize

check_checksum_lem :
    (x : External) (b : Bytes) (c : ℕ) {u : Unit {0}}
    → check_checksum x b c ≡ ok u
    → c ≡ 0
    → (s : Bytes) × (bytes b 32 4064 ≡ ok s) × (u32_at b 0 ≡ ok (x.crc32c s))
unfolding check_checksum check_crc32c
check_checksum_lem x b c {u} h z =
    let h' : check_crc32c x b ≡ ok u = rw (eq→== c 0 z) at h in crc h'
  where
    crc :
        check_crc32c x b ≡ ok u
        → (s : Bytes) × (bytes b 32 4064 ≡ ok s) × (u32_at b 0 ≡ ok (x.crc32c s))
    crc h =
        let (want, e, h1) = >>=-eq-ok (u32_at b 0) _ h in
        let (s, f, h2) = >>=-eq-ok (bytes b 32 4064) _ h1 in
        (s, f, e ∙ ap ok (==→eq _ _ (guard-eq-ok (want == x.crc32c s) checksum_mismatch h2)))

-- A superblock that is accepted has the magic in its bytes, the checksum type that its bytes state, a crc32c over its bytes 32 to 4096 that matches where that type is 0, a 16-byte fsid, a system chunk array of at most 2048 bytes, and a sector size and a node size that are powers of two, from 512 and from 4096, up to 65536.
pub parse_superblock-IsAccepted :
    (x : External) (b : Bytes) (sb : Superblock) → parse_superblock x b ≡ ok sb → IsAccepted x b sb
unfolding parse_superblock
parse_superblock-IsAccepted x b sb h =
    let (found, e0, h0) = >>=-eq-ok (bytes b 0x40 8) _ h in
    let (u0, g0, h1) = >>=-eq-ok (guard (eq_bytes found magic) no_magic) _ h0 in
    let (c, ec, h2) = >>=-eq-ok (u16_at b 0xc4) _ h1 in
    let (u1, g1, h3) = >>=-eq-ok (check_checksum x b c) _ h2 in
    let (n, en, h4) = >>=-eq-ok (u32_at b 0xa0) _ h3 in
    let (u2, g2, h5) = >>=-eq-ok (guard (leb n 2048) (bad_array_size n)) _ h4 in
    let (raw, er, h6) = >>=-eq-ok (bytes b 0x12b 256) _ h5 in
    let (s, es, h7) = >>=-eq-ok (read_fields x b c n raw) _ h6 in
    let (same, sector, node) = check_sizes_lem x s sb h7 in
    let (fsid, array, csum) = read_fields_lem x b c n raw sb (rw same at es) in
    record {
      has_magic =
          e0 ∙ ap ok (eq_bytes→eq found magic (guard-eq-ok (eq_bytes found magic) no_magic g0));
      csum_type = ec ∙ ap ok (sym csum);
      covered = λ z. check_checksum_lem x b c g1 (sym csum ∙ z);
      fsid_length = (bytes_takes b 0x20 16 fsid).2;
      array_length =
          rw ((bytes_takes b 0x32b n array).2)
            (leb→le n 2048 (guard-eq-ok (leb n 2048) (bad_array_size n) g2));
      sectorsize = rw same at sector;
      nodesize = rw same at node;
    }
