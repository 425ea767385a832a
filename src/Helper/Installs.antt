-- ===== src/Helper/Installs.antt =====
-- helper/windows/updater.rs: a check for an update, and the swap of the service's program. The
-- operating system and curl are parameters.
pub mod Swapped
use btrfs_peek.Prelude.{
  ℕ, zero, suc, ◌+◌, ◌-◌, ◌*◌, ◌/◌, ◌%◌, ◌^◌, ◌≤◌, ◌<◌, min, max, bit_and, bit_or, ◌≡◌, refl, sym,
  ap, ◌∙◌, ◌≢◌, ◌↔◌, ◌⊎◌, inl, inr, Bool, true, false, not, ◌&&◌, ◌||◌, Option, none, some, List,
  [], ◌∷◌, ◌++◌, map, append_assoc, append-nil, arith, Error, Result, ok, err, ◌>>=◌, ◌>>◌,
  >>=-eq-ok, guard, guard-eq-ok, raised, match_result, then_next, then_next-eq-ok, clean, IsClean,
  IsClean-bind, IsClean-if, ascii, onto, onto_first, split_once, split, strip_prefix, join,
  strip_prefix-append, strip_prefix_lem, Lacks, split_once-append, split_once_lem, join-split,
  split-append, split_whole, length, get_elem?, take, drop, replicate, All, length-append,
  length-take, length-drop, length-replicate, take-append_length, drop-append_length, take_all,
  take-append-drop, take_add, drop-drop, drop-take, take-take, take-append_le, All-append, All-take,
  All-drop, All-replicate, ltb, leb, ◌==◌, if◌then◌else◌, ltb→lt, lt→ltb, le→leb, leb→le, ==→eq,
  eq→==, Bool-cases, Option-cases, Result-cases, all_below, all_below_sound, insert_by, sort_by,
  IsSortedBy, sort_by-Perm, sort_by-IsSortedBy, Permᴰ, is_digit, AreDigits, all_digits,
  all_digits-AreDigits, AreDigits-all_digits, digits_from, to_decimal, digits_from-append,
  digits_from-to_decimal, to_decimal-AreDigits, to_decimal_fuel, digits_from-lt,
  to_decimal-digits_from, length-to_decimal, LeadsNonzero, to_decimal-LeadsNonzero,
  to_decimal-canonical, panicked, out_of_fuel, corrupt_structure, no_magic, checksum_mismatch,
  encrypted, zero_stripes, bad_array_size, bad_sectorsize, bad_nodesize, unknown_extent_type,
  io_error, unexpected_eof, implausible_size, zero_sectorsize, decodes_to_more, decodes_short,
  bad_frame, bad_segment, truncated_header, oversized_segment, malformed_segment, malformed_stream,
  unknown_compression, unmapped_address, striped_chunk, missing_device, unreadable, wrong_address,
  bad_node_checksum, too_many_items, wrong_level, too_deep, bad_chunk_array, extent_overflow,
  outside_extent, inline_too_large, implausible_extent, symlink_too_long, no_device,
  other_filesystem, refused_features, no_subvolume, no_inode, no_parent, endless_parents,
  not_directory, is_symlink, not_found, malformed_signature, malformed_key, bad_signature,
  wrong_comment, not_newer, helper_missing, helper_refused, helper_failed, predates_update,
  unknown_status, oversized_message, long_reply, long_path, oversized_download, signature_not_utf8,
}
use btrfs_peek.Disk.Bytes.{Bytes}
use btrfs_peek.Helper.Versions.{Text, Version, ltb_version}
use btrfs_peek.Helper.Updates.{Minisign, announced, verify_update, Update, up_to_date, installed}

abbrev pub releases : Text
releases = ascii "https://github.com/noahsabaj/btrfs-peek/releases/latest/download/"

abbrev pub asset : Text
asset = ascii "btrfs-peek-windows-x86_64.exe"

abbrev pub max_sig : ℕ
max_sig = 0x4000

abbrev pub max_exe : ℕ
max_exe = 0x400_0000

-- The folder of the service, with its files `btrfs-peek.exe`, `.exe.new` and `.exe.old`; the
-- version that waits for the restart (`INSTALLED`); and the number of calls that changed a file.
pub record Machine : Type 0 where
  pub exe_file : Option Bytes
  pub new_file : Option Bytes
  pub old_file : Option Bytes
  pub waiting : Option Version
  pub calls : ℕ

-- Which calls of the file system fail, by their number, and how much a failed write leaves.
pub record Os : Type 0 where
  pub refuses : ℕ → Bool
  pub written : ℕ → ℕ

abbrev pub Change : Type 0 → Type 0
Change A = Machine → Result A × Machine

abbrev pub and_change : {A B : Type 0} → Change A → (A → Change B) → Change B
and_change m next s = then_next next (m s)

abbrev pub done_change : {A : Type 0} → A → Change A
done_change a s = (ok a, s)

abbrev pub fail_change : {A : Type 0} → Error → Change A
fail_change e s = (err e, s)

abbrev pub pure_change : {A : Type 0} → Result A → Change A
pure_change r s = (r, s)

module _ (os : Os) where
  open os use {refuses, written}

  -- A call that changes the machine, unless it is refused.
  abbrev pub attempt : (Machine → Machine) → Change (Unit {0})
  attempt change s =
      let t = record s { calls = s.calls + 1 } in
      if refuses s.calls then (err io_error, t) else (ok tt, change t)

  -- `File::create(&new)`, `f.write_all(exe)`, `f.sync_all()`.
  unfoldable pub create_new : Change (Unit {0})
  create_new = attempt (λ s. record s { new_file = some [] })

  unfoldable pub write_new : Bytes → Change (Unit {0})
  write_new exe s =
      if refuses s.calls
      then (
        err io_error,
        record s { new_file = some (take (written s.calls) exe); calls = s.calls + 1 },
      )
      else (ok tt, record s { new_file = some exe; calls = s.calls + 1 })

  unfoldable pub sync_new : Change (Unit {0})
  sync_new = attempt (λ s. s)

  -- `fs::remove_file(old)`, where a file that is missing is no error.
  unfoldable pub remove_old : Change (Unit {0})
  remove_old = attempt (λ s. record s { old_file = none })

  -- `fs::rename`, which takes the place of what is there.
  moved : Option Bytes → (Machine → Bytes → Machine) → Change (Unit {0})
  moved none place s = (err not_found, record s { calls = s.calls + 1 })
  moved (some b) place s = attempt (λ t. place t b) s

  unfoldable pub rename_exe_old : Change (Unit {0})
  unfolding moved
  rename_exe_old s = moved s.exe_file (λ t b. record t { exe_file = none; old_file = some b }) s

  unfoldable pub rename_new_exe : Change (Unit {0})
  unfolding moved
  rename_new_exe s = moved s.new_file (λ t b. record t { new_file = none; exe_file = some b }) s

  unfoldable pub rename_old_exe : Change (Unit {0})
  unfolding moved
  rename_old_exe s = moved s.old_file (λ t b. record t { old_file = none; exe_file = some b }) s

  -- `if let Err(e) = fs::rename(new, exe) { let _ = fs::rename(old, exe); return Err(e); }`.
  put_back : Result (Unit {0}) × Machine → Result (Unit {0}) × Machine
  put_back (ok u, s) = (ok tt, s)
  put_back (err e, s) = (err e, (rename_old_exe s).1)

  -- `swap`.
  unfoldable pub swap : Change (Unit {0})
  unfolding put_back
  swap = and_change remove_old (λ u. and_change rename_exe_old (λ v s. put_back (rename_new_exe s)))

  -- `install`.
  unfoldable pub install : Bytes → Change (Unit {0})
  install exe =
      and_change create_new (λ u. and_change (write_new exe) (λ v. and_change sync_new (λ w. swap)))

  -- What curl gives for a URL within a time and a size.
  module _ (m : Minisign) (curl : Text → ℕ → ℕ → Result Bytes) (is_utf8 : Bytes → Bool)
      (release_key : Text) (running : Version) where
    -- `fetch`.
    unfoldable pub download : Text → ℕ → ℕ → Result Bytes
    download url max_time max_size = do
      body ← curl url max_time max_size
      guard (leb (length body) max_size) oversized_download
      ok body

    -- The signature of the latest release, as a text.
    unfoldable pub fetch_signature : Result Text
    fetch_signature = do
      sig ← download (releases ++ (asset ++ ascii ".minisig")) 120 max_sig
      guard (is_utf8 sig) signature_not_utf8
      ok sig

    -- The program of that release and its version, verified.
    unfoldable pub fetch_release : Text → Result (Bytes × Version)
    fetch_release sig = do
      exe ← download (releases ++ asset) 900 max_exe
      v ← verify_update m release_key exe sig running
      ok (exe, v)

    put_in_place : Bytes × Version → Change Update
    put_in_place (exe, v) =
        and_change (install exe) (λ u s. (ok (installed v), record s { waiting = some v }))

    compared : Text → Version → Change Update
    unfolding put_in_place
    compared sig latest =
        if ltb_version running latest
        then and_change (pure_change (fetch_release sig)) put_in_place
        else done_change (up_to_date running)

    checks : Option Version → Change Update
    unfolding compared
    checks (some v) = done_change (installed v)
    checks none =
        and_change (pure_change fetch_signature)
          (λ sig. and_change (pure_change (announced m sig)) (compared sig))

    -- `check_for_update`.
    unfoldable pub check_for_update : Change Update
    unfolding checks
    check_for_update s = checks s.waiting s
