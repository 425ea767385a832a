-- ===== src/Helper/Wire.antt =====
-- helper.rs: the bytes of a connection.
pub mod Transfers
use btrfs_peek.Prelude.{
  ℕ, zero, suc, ◌+◌, ◌-◌, ◌*◌, ◌/◌, ◌%◌, ◌^◌, ◌≤◌, ◌<◌, min, max, bit_and, bit_or, ◌≡◌, refl, sym,
  ap, ◌∙◌, ◌≢◌, ◌↔◌, ◌⊎◌, inl, inr, Bool, true, false, not, ◌&&◌, ◌||◌, Option, none, some, List,
  [], ◌∷◌, ◌++◌, map, append_assoc, append-nil, arith, Error, Result, ok, err, ◌>>=◌, ◌>>◌,
  >>=-eq-ok, guard, guard-eq-ok, raised, match_result, then_next, then_next-eq-ok, clean, IsClean,
  IsClean-bind, IsClean-if, ascii, onto, onto_first, split_once, split, strip_prefix, join,
  strip_prefix-append, strip_prefix_lem, Lacks, split_once-append, split_once_lem, join-split,
  split-append, split_whole, length, get_elem?, take, drop, replicate, All, length-append,
  length-take, length-drop, length-replicate, take-append_length, drop-append_length, take_all,
  take-append-drop, take_add, drop-drop, drop-take, take-take, take-append_le, All-append, All-take,
  All-drop, All-replicate, ltb, leb, ◌==◌, if◌then◌else◌, ltb→lt, lt→ltb, le→leb, leb→le, ==→eq,
  eq→==, Bool-cases, Option-cases, Result-cases, all_below, all_below_sound, insert_by, sort_by,
  IsSortedBy, sort_by-Perm, sort_by-IsSortedBy, Permᴰ, is_digit, AreDigits, all_digits,
  all_digits-AreDigits, AreDigits-all_digits, digits_from, to_decimal, digits_from-append,
  digits_from-to_decimal, to_decimal-AreDigits, to_decimal_fuel, digits_from-lt,
  to_decimal-digits_from, length-to_decimal, LeadsNonzero, to_decimal-LeadsNonzero,
  to_decimal-canonical, panicked, out_of_fuel, corrupt_structure, no_magic, checksum_mismatch,
  encrypted, zero_stripes, bad_array_size, bad_sectorsize, bad_nodesize, unknown_extent_type,
  io_error, unexpected_eof, implausible_size, zero_sectorsize, decodes_to_more, decodes_short,
  bad_frame, bad_segment, truncated_header, oversized_segment, malformed_segment, malformed_stream,
  unknown_compression, unmapped_address, striped_chunk, missing_device, unreadable, wrong_address,
  bad_node_checksum, too_many_items, wrong_level, too_deep, bad_chunk_array, extent_overflow,
  outside_extent, inline_too_large, implausible_extent, symlink_too_long, no_device,
  other_filesystem, refused_features, no_subvolume, no_inode, no_parent, endless_parents,
  not_directory, is_symlink, not_found, malformed_signature, malformed_key, bad_signature,
  wrong_comment, not_newer, helper_missing, helper_refused, helper_failed, predates_update,
  unknown_status, oversized_message, long_reply, long_path, oversized_download, signature_not_utf8,
}
use btrfs_peek.Disk.Bytes.{Bytes, from_le_bytes, to_le_bytes}

-- A connection as one side sees it: the bytes that the other side sends, whether a read behind them
-- fails or finds that it has hung up, the bytes sent so far, and how many more the other side takes
-- before a write fails. Short and
-- interrupted reads and writes do not show behind `read_exact` and `write_all`.
pub record Conn : Type 0 where
  pub input : Bytes
  pub reset : Bool
  pub output : Bytes
  pub room : ℕ

abbrev pub Io : Type 0 → Type 0
Io A = Conn → Result A × Conn

-- `?` between two steps.
abbrev pub after_io : {A B : Type 0} → Io A → (A → Io B) → Io B
after_io m next c = then_next next (m c)

abbrev pub done_io : {A : Type 0} → A → Io A
done_io a c = (ok a, c)

abbrev pub fail_io : {A : Type 0} → Error → Io A
fail_io e c = (err e, c)

-- `write_all`: where it fails, a part was sent.
unfoldable pub write_all : Bytes → Io (Unit {0})
write_all msg c =
    if leb (length msg) c.room
    then (ok tt, record c { output = c.output ++ msg; room = c.room - length msg })
    else (err io_error, record c { output = c.output ++ take c.room msg; room = 0 })

-- `read_exact`.
unfoldable pub read_exact : ℕ → Io Bytes
read_exact n c =
    if leb n (length c.input)
    then (ok (take n c.input), record c { input = drop n c.input })
    else (err (if c.reset then io_error else unexpected_eof), record c { input = [] })

unfoldable pub byte_of : Bytes → Io (Option ℕ)
byte_of [] c = (if c.reset then err io_error else ok none, c)
byte_of (b ∷ rest) c = (ok (some b), record c { input = rest })

-- `read_byte`: `none` when the other side has hung up.
unfoldable pub read_byte : Io (Option ℕ)
unfolding byte_of
read_byte c = byte_of c.input c

unfoldable pub read_u32 : Io ℕ
read_u32 = after_io (read_exact 4) (λ b. done_io (from_le_bytes b))

unfoldable pub read_u64 : Io ℕ
read_u64 = after_io (read_exact 8) (λ b. done_io (from_le_bytes b))

-- The bytes of one response: the status, the length as a `u32`, the payload.
abbrev pub frame : ℕ → Bytes → Bytes
frame status payload = status ∷ (to_le_bytes 4 (length payload) ++ payload)

unfoldable pub respond : ℕ → Bytes → Io (Unit {0})
respond status payload = write_all (frame status payload)

abbrev pub status_ok : ℕ
status_ok = 0

abbrev pub status_not_found : ℕ
status_not_found = 1

abbrev pub status_refused : ℕ
status_refused = 2

abbrev pub status_error : ℕ
status_error = 3
