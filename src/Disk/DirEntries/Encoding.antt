-- ===== src/Disk/DirEntries/Encoding.antt =====
-- A directory item read back from its bytes.
use btrfs_peek.Prelude.{
  ℕ, zero, suc, ◌+◌, ◌≤◌, ◌<◌, ◌≡◌, refl, sym, List, [], ◌∷◌, ◌++◌, map, append-nil, arith, ok,
  length, All, length-append, lt→ltb,
}
use btrfs_peek.Disk.Bytes.{Bytes, IsU64, to_le_bytes}
use btrfs_peek.Disk.Bytes.Slices.{At, At-left, At-skip, bytes-At, length-to_le_bytes}
use btrfs_peek.Disk.Bytes.Words.{u8_at-At, u16_at-At}
use btrfs_peek.Disk.Keys.{FitsKey, encode_key}
use btrfs_peek.Disk.Keys.Order.{parse_key-encode_key, length-encode_key}
use btrfs_peek.Disk.DirEntries.{DirEntry, parse_dir_entry, dir_entries_from, parse_dir_entries}

-- An entry as it is stored: with the transaction id and the data that the parser skips.
pub record Stored : Type 0 where
  pub entry : DirEntry
  pub transid : Bytes
  pub extra : Bytes

pub record FitsStored (s : Stored) : Type 0 where
  pub location : FitsKey s.entry.location
  pub transid : length s.transid ≡ 8
  pub name : length s.entry.name < 0x1_0000
  pub extra : length s.extra < 0x1_0000

-- The fields after the key and the transaction id.
unfoldable pub encode_tail : Stored → Bytes
encode_tail s =
    to_le_bytes 2 (length s.extra)
    ++ (to_le_bytes 2 (length s.entry.name) ++ (s.entry.ftype ∷ s.entry.name ++ s.extra))

unfoldable pub encode_stored : Stored → Bytes
encode_stored s = encode_key s.entry.location ++ (s.transid ++ encode_tail s)

unfoldable pub encode_all : List Stored → Bytes
encode_all [] = []
encode_all (s ∷ ss) = encode_stored s ++ encode_all ss

length-encode_stored :
    (s : Stored)
    → length s.transid ≡ 8
    → length (encode_stored s) ≡ 30 + length s.entry.name + length s.extra
unfolding encode_stored encode_tail
length-encode_stored s h =
    simp (length-append, length-encode_key, length-to_le_bytes) (omega (arith, h))

parse_dir_entry-encode_stored :
    {b : Bytes} {off : ℕ} (s : Stored)
    → FitsStored s
    → IsU64 (length b)
    → At b off (encode_stored s)
    → parse_dir_entry b off ≡ ok (s.entry, off + (30 + length s.entry.name + length s.extra))
unfolding encode_stored encode_tail parse_dir_entry
parse_dir_entry-encode_stored {b} {off} s f w a =
    let key = encode_key s.entry.location in
    let extra_len = to_le_bytes 2 (length s.extra) in
    let name_len = to_le_bytes 2 (length s.entry.name) in
    let text = s.entry.ftype ∷ (s.entry.name ++ s.extra) in
    let at17 =
      At-skip key (s.transid ++ (extra_len ++ (name_len ++ text))) 17 (off + 17)
        (length-encode_key s.entry.location) refl a in
    let at25 =
      At-skip s.transid (extra_len ++ (name_len ++ text)) 8 (off + 25) f.transid (omega arith)
        at17 in
    let at27 =
      At-skip extra_len (name_len ++ text) 2 (off + 27) (length-to_le_bytes 2 _) (omega arith)
        at25 in
    let at29 = At-skip name_len text 2 (off + 29) (length-to_le_bytes 2 _) (omega arith) at27 in
    let at30 =
      At-skip (s.entry.ftype ∷ []) (s.entry.name ++ s.extra) 1 (off + 30) refl (omega arith) at29 in
    rw (
      parse_key-encode_key s.entry.location f.location w (At-left key _ a),
      u16_at-At (length s.extra) w f.extra (At-left extra_len _ at25),
      u16_at-At (length s.entry.name) w f.name (At-left name_len _ at27),
      u8_at-At s.entry.ftype w (At-left (s.entry.ftype ∷ []) _ at29),
      bytes-At s.entry.name (length s.entry.name) refl w (At-left s.entry.name _ at30),
    )

dir_entries_from-encode_all :
    {b : Bytes} (fuel off : ℕ) (ss : List Stored)
    → All FitsStored ss
    → IsU64 (length b)
    → length (encode_all ss) ≤ fuel
    → off + length (encode_all ss) ≡ length b
    → At b off (encode_all ss)
    → dir_entries_from fuel b off ≡ ok (map (λ s. s.entry) ss)
unfolding encode_all dir_entries_from
dir_entries_from-encode_all {b} zero off [] f w h e a = ground arith
dir_entries_from-encode_all {b} (suc fuel) off [] f w h e a = ground arith
dir_entries_from-encode_all {b} zero off (s ∷ ss) f w h e a = absurd (
    omega
      (arith, length-append (encode_stored s) (encode_all ss), length-encode_stored s f.0.transid))
dir_entries_from-encode_all {b} (suc fuel) off (s ∷ ss) f w h e a =
    let size = length-encode_stored s f.0.transid in
    let sum = length-append (encode_stored s) (encode_all ss) in
    let next = off + (30 + length s.entry.name + length s.extra) in
    let rest = At-skip (encode_stored s) (encode_all ss) _ next size refl a in
    let ih =
      dir_entries_from-encode_all fuel next ss f.1 w (omega (arith, sum, size))
        (omega (arith, sum, size, e)) rest in
    rw (
      lt→ltb off (length b) (omega (arith, sum, size, e)),
      parse_dir_entry-encode_stored s f.0 w (At-left (encode_stored s) _ a),
      ih,
    )

-- A directory item that stores any entries, each with its transaction id and skipped data, is parsed into exactly those entries in their order, for entries whose fields fit and an item shorter than 2^64 bytes.
pub parse_dir_entries-encode_all :
    (ss : List Stored)
    → All FitsStored ss
    → IsU64 (length (encode_all ss))
    → parse_dir_entries (encode_all ss) ≡ ok (map (λ s. s.entry) ss)
unfolding parse_dir_entries
parse_dir_entries-encode_all ss f w =
    dir_entries_from-encode_all (length (encode_all ss)) 0 ss f w (omega arith) (omega arith)
      (record { before = []; after = []; whole = sym (append-nil (encode_all ss)); offset = refl })
