-- ===== src/Helper/Updates.antt =====
-- helper/update.rs: what the service accepts as an update of itself. `minisign_verify` is a
-- parameter.
pub mod Trusted
use btrfs_peek.Prelude.{
  ℕ, zero, suc, ◌+◌, ◌-◌, ◌*◌, ◌/◌, ◌%◌, ◌^◌, ◌≤◌, ◌<◌, min, max, bit_and, bit_or, ◌≡◌, refl, sym,
  ap, ◌∙◌, ◌≢◌, ◌↔◌, ◌⊎◌, inl, inr, Bool, true, false, not, ◌&&◌, ◌||◌, Option, none, some, List,
  [], ◌∷◌, ◌++◌, map, append_assoc, append-nil, arith, Error, Result, ok, err, ◌>>=◌, ◌>>◌,
  >>=-eq-ok, guard, guard-eq-ok, raised, match_result, then_next, then_next-eq-ok, clean, IsClean,
  IsClean-bind, IsClean-if, ascii, onto, onto_first, split_once, split, strip_prefix, join,
  strip_prefix-append, strip_prefix_lem, Lacks, split_once-append, split_once_lem, join-split,
  split-append, split_whole, length, get_elem?, take, drop, replicate, All, length-append,
  length-take, length-drop, length-replicate, take-append_length, drop-append_length, take_all,
  take-append-drop, take_add, drop-drop, drop-take, take-take, take-append_le, All-append, All-take,
  All-drop, All-replicate, ltb, leb, ◌==◌, if◌then◌else◌, ltb→lt, lt→ltb, le→leb, leb→le, ==→eq,
  eq→==, Bool-cases, Option-cases, Result-cases, all_below, all_below_sound, insert_by, sort_by,
  IsSortedBy, sort_by-Perm, sort_by-IsSortedBy, Permᴰ, is_digit, AreDigits, all_digits,
  all_digits-AreDigits, AreDigits-all_digits, digits_from, to_decimal, digits_from-append,
  digits_from-to_decimal, to_decimal-AreDigits, to_decimal_fuel, digits_from-lt,
  to_decimal-digits_from, length-to_decimal, LeadsNonzero, to_decimal-LeadsNonzero,
  to_decimal-canonical, panicked, out_of_fuel, corrupt_structure, no_magic, checksum_mismatch,
  encrypted, zero_stripes, bad_array_size, bad_sectorsize, bad_nodesize, unknown_extent_type,
  io_error, unexpected_eof, implausible_size, zero_sectorsize, decodes_to_more, decodes_short,
  bad_frame, bad_segment, truncated_header, oversized_segment, malformed_segment, malformed_stream,
  unknown_compression, unmapped_address, striped_chunk, missing_device, unreadable, wrong_address,
  bad_node_checksum, too_many_items, wrong_level, too_deep, bad_chunk_array, extent_overflow,
  outside_extent, inline_too_large, implausible_extent, symlink_too_long, no_device,
  other_filesystem, refused_features, no_subvolume, no_inode, no_parent, endless_parents,
  not_directory, is_symlink, not_found, malformed_signature, malformed_key, bad_signature,
  wrong_comment, not_newer, helper_missing, helper_refused, helper_failed, predates_update,
  unknown_status, oversized_message, long_reply, long_path, oversized_download, signature_not_utf8,
}
use btrfs_peek.Disk.Bytes.{Bytes}
use btrfs_peek.Disk.External.{eq_bytes}
use btrfs_peek.Helper.Versions.{Text, Version, parse_version, display_version, ltb_version}

-- The crate's `PublicKey::from_base64`, `Signature::decode`, `trusted_comment` and
-- `PublicKey::verify`, with its argument `allow_legacy`; keys and signatures are the crate's own.
pub record Minisign : Type 1 where
  pub PublicKey : Type 0
  pub Signature : Type 0
  pub from_base64 : Text → Option PublicKey
  pub decode_signature : Text → Option Signature
  pub trusted_comment : Signature → Text
  pub verify : PublicKey → Bytes → Signature → Bool → Bool

abbrev pub target : Text
target = ascii "windows-x86_64"

abbrev pub program : Text
program = ascii "btrfs-peek "

versioned_for : Option (Text × Text) → Option Version
versioned_for none = none
versioned_for (some (v, t)) = if eq_bytes t target then parse_version v else none

after_program : Option Text → Option Version
unfolding versioned_for
after_program none = none
after_program (some rest) = versioned_for (split_once b' ' rest)

-- `comment_version`.
unfoldable pub comment_version : Text → Option Version
unfolding after_program
comment_version comment = after_program (strip_prefix program comment)

or_error : {A : Type 0} → Error → Option A → Result A
or_error e none = err e
or_error e (some a) = ok a

module _ (m : Minisign) where
  open m use {from_base64, decode_signature, trusted_comment, verify}

  -- `announced`.
  unfoldable pub announced : Text → Result Version
  unfolding or_error
  announced sig = do
    s ← or_error malformed_signature (decode_signature sig)
    or_error wrong_comment (comment_version (trusted_comment s))

  -- `verify_update`.
  unfoldable pub verify_update : Text → Bytes → Text → Version → Result Version
  unfolding or_error
  verify_update public_key_b64 exe sig running = do
    key ← or_error malformed_key (from_base64 public_key_b64)
    s ← or_error malformed_signature (decode_signature sig)
    guard (verify key exe s false) bad_signature
    v ← or_error wrong_comment (comment_version (trusted_comment s))
    guard (ltb_version running v) not_newer
    ok v

-- `Update`: what a check for an update did.
pub data Update : Type 0 where
  up_to_date installed : Version → Update

abbrev pub updated_to : Text
updated_to = ascii "updated to "

-- `Update`'s `Display`.
unfoldable pub display_update : Update → Text
display_update (up_to_date v) = ascii "up to date (" ++ (display_version v ++ ascii ")")
display_update (installed v) =
    updated_to ++ (display_version v ++ (b';' ∷ ascii " restarting when idle"))

first_part : Option (Text × Text) → Option Version
first_part none = none
first_part (some (v, _)) = parse_version v

after_updated : Option Text → Option Version
unfolding first_part
after_updated none = none
after_updated (some rest) = first_part (split_once b';' rest)

-- `installed_version`.
unfoldable pub installed_version : Text → Option Version
unfolding after_updated
installed_version reply = after_updated (strip_prefix updated_to reply)
