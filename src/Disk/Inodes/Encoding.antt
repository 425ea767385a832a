-- ===== src/Disk/Inodes/Encoding.antt =====
-- An inode item read back from its bytes, and the file types told apart.
use btrfs_peek.Prelude.{
  ℕ, ◌-◌, ◌^◌, ◌≤◌, ◌<◌, ◌≡◌, refl, sym, [], ◌++◌, append-nil, arith, ok, err, length, take,
  length-append, length-take, corrupt_structure,
}
use btrfs_peek.Disk.Bytes.{Bytes, IsU64, u64_mod, to_le_bytes}
use btrfs_peek.Disk.Bytes.Slices.{
  At, At-left, At-skip, bytes_in_range, bytes_out_of_range, length-to_le_bytes,
}
use btrfs_peek.Disk.Bytes.Words.{u32_at-At, u64_at-At}
use btrfs_peek.Disk.Inodes.{ℤ, pos, negsuc, as_i64, Inode, parse_inode}

-- The two's complement word of an i64.
unfoldable pub of_i64 : ℤ → ℕ
of_i64 (pos n) = n
of_i64 (negsuc n) = u64_mod - 1 - n

abbrev pub IsI64 : ℤ → Type 0
IsI64 (pos n) = n < 2 ^ 63
IsI64 (negsuc n) = n < 2 ^ 63

abbrev IsU32 : ℕ → Type 0
IsU32 n = n < 0x1_0000_0000

as_i64-of_i64 : (t : ℤ) → IsI64 t → IsU64 (of_i64 t) × (as_i64 (of_i64 t) ≡ t)
unfolding as_i64 of_i64
as_i64-of_i64 (pos n) h = ground arith
as_i64-of_i64 (negsuc n) h = ground arith

-- The stored fields that the parser skips.
pub record Skipped : Type 0 where
  pub front : Bytes
  pub middle : Bytes
  pub times : Bytes
  pub back : Bytes

unfoldable pub encode_inode : Inode → Skipped → Bytes
encode_inode i s =
    s.front
    ++ (to_le_bytes 8 i.size
        ++ (s.middle
            ++ (to_le_bytes 4 i.nlink
                ++ (to_le_bytes 4 i.uid
                    ++ (to_le_bytes 4 i.gid
                        ++ (to_le_bytes 4 i.mode
                            ++ (s.times
                                ++ (to_le_bytes 8 (of_i64 i.mtime_sec)
                                    ++ (to_le_bytes 4 i.mtime_nsec ++ s.back)))))))))

pub record FitsInode (i : Inode) (s : Skipped) : Type 0 where
  pub size : IsU64 i.size
  pub nlink : IsU32 i.nlink
  pub uid : IsU32 i.uid
  pub gid : IsU32 i.gid
  pub mode : IsU32 i.mode
  pub mtime_sec : IsI64 i.mtime_sec
  pub mtime_nsec : IsU32 i.mtime_nsec
  pub front_length : length s.front ≡ 16
  pub middle_length : length s.middle ≡ 16
  pub times_length : length s.times ≡ 80
  pub back_length : length s.back ≡ 12

parse_inode-At :
    {b : Bytes} (i : Inode) (s : Skipped)
    → FitsInode i s
    → IsU64 (length b)
    → 160 ≤ length b
    → At b 0 (encode_inode i s)
    → parse_inode b ≡ ok i
unfolding parse_inode encode_inode
parse_inode-At {b} i s f w l at0 =
    let size = to_le_bytes 8 i.size in
    let nlink = to_le_bytes 4 i.nlink in
    let uid = to_le_bytes 4 i.uid in
    let gid = to_le_bytes 4 i.gid in
    let mode = to_le_bytes 4 i.mode in
    let sec = to_le_bytes 8 (of_i64 i.mtime_sec) in
    let nsec = to_le_bytes 4 i.mtime_nsec in
    let after136 = sec ++ (nsec ++ s.back) in
    let after48 = gid ++ (mode ++ (s.times ++ after136)) in
    let after24 = s.middle ++ (nlink ++ (uid ++ after48)) in
    let at16 = At-skip s.front (size ++ after24) 16 16 f.front_length refl at0 in
    let at24 = At-skip size after24 8 24 (length-to_le_bytes 8 _) refl at16 in
    let at40 = At-skip s.middle (nlink ++ (uid ++ after48)) 16 40 f.middle_length refl at24 in
    let at44 = At-skip nlink (uid ++ after48) 4 44 (length-to_le_bytes 4 _) refl at40 in
    let at48 = At-skip uid after48 4 48 (length-to_le_bytes 4 _) refl at44 in
    let at52 =
      At-skip gid (mode ++ (s.times ++ after136)) 4 52 (length-to_le_bytes 4 _) refl at48 in
    let at56 = At-skip mode (s.times ++ after136) 4 56 (length-to_le_bytes 4 _) refl at52 in
    let at136 = At-skip s.times after136 80 136 f.times_length refl at56 in
    let at144 = At-skip sec (nsec ++ s.back) 8 144 (length-to_le_bytes 8 _) refl at136 in
    let time = as_i64-of_i64 i.mtime_sec f.mtime_sec in
    rw (
      bytes_in_range b 0 160 l w,
      u64_at-At i.size w f.size (At-left size _ at16),
      u32_at-At i.nlink w f.nlink (At-left nlink _ at40),
      u32_at-At i.uid w f.uid (At-left uid _ at44),
      u32_at-At i.gid w f.gid (At-left gid _ at48),
      u32_at-At i.mode w f.mode (At-left mode _ at52),
      u64_at-At (of_i64 i.mtime_sec) w time.0 (At-left sec _ at136),
      u32_at-At i.mtime_nsec w f.mtime_nsec (At-left nsec _ at144),
      time.1,
    )

length-encode_inode : (i : Inode) (s : Skipped) → FitsInode i s → length (encode_inode i s) ≡ 160
unfolding encode_inode
length-encode_inode i s f =
    simp (length-append, length-to_le_bytes)
      (omega (arith, f.front_length, f.middle_length, f.times_length, f.back_length))

parse_inode_short : (b : Bytes) → length b < 160 → parse_inode b ≡ err (corrupt_structure 160 0)
unfolding parse_inode
parse_inode_short b h = rw (bytes_out_of_range b 0 160 (omega (arith, h)))

-- An inode whose fields fit, with a modification time before or after 1970, is read back from its 160 bytes, and every shorter prefix of them is refused as corrupt.
pub parse_inode-encode_inode :
    (i : Inode) (s : Skipped) (n : ℕ)
    → FitsInode i s
    → n < 160
    → (parse_inode (encode_inode i s) ≡ ok i)
      × (parse_inode (take n (encode_inode i s)) ≡ err (corrupt_structure 160 0))
parse_inode-encode_inode i s n f h =
    let size = length-encode_inode i s f in
    let here : At (encode_inode i s) 0 (encode_inode i s) = record {
      before = [];
      after = [];
      whole = sym (append-nil _);
      offset = refl;
    } in
    (
      parse_inode-At i s f (rw size (omega arith)) (rw size (omega arith)) here,
      parse_inode_short _ (rw length-take (omega (arith, h))),
    )
