-- ===== src/Copy.antt =====
-- copy.rs: the name that an entry gets on the host. `cfg!(windows)` is an argument.
pub mod Components
use btrfs_peek.Prelude.{
  ℕ, zero, suc, ◌+◌, ◌-◌, ◌*◌, ◌/◌, ◌%◌, ◌^◌, ◌≤◌, ◌<◌, min, max, bit_and, bit_or, ◌≡◌, refl, sym,
  ap, ◌∙◌, ◌≢◌, ◌↔◌, ◌⊎◌, inl, inr, Bool, true, false, not, ◌&&◌, ◌||◌, Option, none, some, List,
  [], ◌∷◌, ◌++◌, map, append_assoc, append-nil, arith, Error, Result, ok, err, ◌>>=◌, ◌>>◌,
  >>=-eq-ok, guard, guard-eq-ok, raised, match_result, then_next, then_next-eq-ok, clean, IsClean,
  IsClean-bind, IsClean-if, ascii, onto, onto_first, split_once, split, strip_prefix, join,
  strip_prefix-append, strip_prefix_lem, Lacks, split_once-append, split_once_lem, join-split,
  split-append, split_whole, length, get_elem?, take, drop, replicate, All, length-append,
  length-take, length-drop, length-replicate, take-append_length, drop-append_length, take_all,
  take-append-drop, take_add, drop-drop, drop-take, take-take, take-append_le, All-append, All-take,
  All-drop, All-replicate, ltb, leb, ◌==◌, if◌then◌else◌, ltb→lt, lt→ltb, le→leb, leb→le, ==→eq,
  eq→==, Bool-cases, Option-cases, Result-cases, all_below, all_below_sound, insert_by, sort_by,
  IsSortedBy, sort_by-Perm, sort_by-IsSortedBy, Permᴰ, is_digit, AreDigits, all_digits,
  all_digits-AreDigits, AreDigits-all_digits, digits_from, to_decimal, digits_from-append,
  digits_from-to_decimal, to_decimal-AreDigits, to_decimal_fuel, digits_from-lt,
  to_decimal-digits_from, length-to_decimal, LeadsNonzero, to_decimal-LeadsNonzero,
  to_decimal-canonical, panicked, out_of_fuel, corrupt_structure, no_magic, checksum_mismatch,
  encrypted, zero_stripes, bad_array_size, bad_sectorsize, bad_nodesize, unknown_extent_type,
  io_error, unexpected_eof, implausible_size, zero_sectorsize, decodes_to_more, decodes_short,
  bad_frame, bad_segment, truncated_header, oversized_segment, malformed_segment, malformed_stream,
  unknown_compression, unmapped_address, striped_chunk, missing_device, unreadable, wrong_address,
  bad_node_checksum, too_many_items, wrong_level, too_deep, bad_chunk_array, extent_overflow,
  outside_extent, inline_too_large, implausible_extent, symlink_too_long, no_device,
  other_filesystem, refused_features, no_subvolume, no_inode, no_parent, endless_parents,
  not_directory, is_symlink, not_found, malformed_signature, malformed_key, bad_signature,
  wrong_comment, not_newer, helper_missing, helper_refused, helper_failed, predates_update,
  unknown_status, oversized_message, long_reply, long_path, oversized_download, signature_not_utf8,
}
use btrfs_peek.Disk.Bytes.{Bytes}
use btrfs_peek.Disk.External.{eq_bytes}

-- A name is its UTF-8 bytes: the characters that are replaced have one byte each.
abbrev pub one_of : ℕ → Bytes → Bool
one_of c [] = false
one_of c (d ∷ ds) = c == d || one_of c ds

-- `illegal || windows_illegal`.
unfoldable pub is_illegal : Bool → ℕ → Bool
is_illegal windows c =
    (c == b'/' || (c == b'\\' || ltb c b' ')) || (windows && one_of c (ascii "<>:\"|?*"))

unfoldable pub replaced : Bool → Bytes → Bytes
replaced windows [] = []
replaced windows (c ∷ cs) = (if is_illegal windows c then b'_' else c) ∷ replaced windows cs

-- `out.is_empty() || out.chars().all(|c| c == '.')`.
unfoldable pub all_dots : Bytes → Bool
all_dots [] = true
all_dots (c ∷ cs) = c == b'.' && all_dots cs

unfoldable pub undotted : Bytes → Bytes
undotted out = if all_dots out then b'_' ∷ out else out

-- `out.ends_with(['.', ' '])`.
unfoldable pub ends_badly : Bytes → Bool
ends_badly [] = false
ends_badly (c ∷ []) = c == b'.' || c == b' '
ends_badly (c ∷ d ∷ ds) = ends_badly (d ∷ ds)

unfoldable pub end_closed : Bytes → Bytes
end_closed out = if ends_badly out then out ++ (b'_' ∷ []) else out

-- `out.split('.').next().unwrap_or("").to_ascii_uppercase()`.
abbrev pub upper : ℕ → ℕ
upper c = if leb b'a' c && leb c b'z' then c - 32 else c

unfoldable pub stem : Bytes → Bytes
stem [] = []
stem (c ∷ cs) = if c == b'.' then [] else upper c ∷ stem cs

-- `stem.len() == 4 && (stem.starts_with("COM") || ..) && stem.as_bytes()[3].is_ascii_digit()`.
unfoldable pub is_port : Bytes → Bool
is_port (a ∷ b ∷ c ∷ d ∷ []) =
    (eq_bytes (a ∷ b ∷ c ∷ []) (ascii "COM") || eq_bytes (a ∷ b ∷ c ∷ []) (ascii "LPT"))
    && is_digit d
is_port _ = false

unfoldable pub is_reserved : Bytes → Bool
is_reserved s =
    (eq_bytes s (ascii "CON")
      || (eq_bytes s (ascii "PRN")
          || (eq_bytes s (ascii "AUX")
              || (eq_bytes s (ascii "NUL")
                  || (eq_bytes s (ascii "CONIN$") || eq_bytes s (ascii "CONOUT$"))))))
    || is_port s

unfoldable pub unreserved : Bytes → Bytes
unreserved out = if is_reserved (stem out) then b'_' ∷ out else out

-- `host_name`.
unfoldable pub host_name : Bool → Bytes → Bytes
host_name windows name =
    let out = undotted (replaced windows name) in
    if windows then unreserved (end_closed out) else out
