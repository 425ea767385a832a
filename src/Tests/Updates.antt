-- ===== src/Tests/Updates.antt =====
-- Versions, updates and the names that the service accepts, at small inputs.
use btrfs_peek.Prelude.{
  ◌≤◌, ◌<◌, ◌≡◌, refl, ◌↔◌, true, not, ◌&&◌, none, some, [], ◌∷◌, ◌++◌, arith, ok, ascii, length,
  leb,
}
use btrfs_peek.Disk.Bytes.{Bytes}
use btrfs_peek.Helper.Versions.{Text, Version, parse_version, display_version, ltb_version}
use btrfs_peek.Helper.Versions.Spelling.{
  display_version-parse_version, parse_version-display_version,
}
use btrfs_peek.Helper.Updates.{
  Minisign, verify_update, installed_version, display_update, up_to_date, installed,
}
use btrfs_peek.Helper.Updates.Trusted.{
  HasShortFields, IsTrusted, verify_update-IsTrusted, IsTrusted-verify_update,
  installed_version-display_update, comment_of,
}
use btrfs_peek.Helper.Paths.{partition_path_ok, sid_ok}
use btrfs_peek.Helper.Paths.Shapes.{
  IsPartition, AreSidBytes, partition_path_ok-IsPartition, sid_ok-AreSidBytes,
}

abbrev pub release : Version
release = record { major = 1; minor = 20; patch = 3 }

abbrev pub running : Version
running = record { major = 1; minor = 4; patch = 9 }

-- Signatures of one's own: a key signs what starts with it, and a signature is its comment.
abbrev pub toy : Minisign
toy = record {
  PublicKey = Bytes;
  Signature = Text;
  from_base64 = λ t. some t;
  decode_signature = λ t. some t;
  trusted_comment = λ t. t;
  verify = λ key exe s legacy. not legacy && leb (length key) (length exe);
}

release_fits : HasShortFields release
release_fits = (omega arith, omega arith, omega arith)

trusted : IsTrusted toy (1 ∷ []) (1 ∷ 2 ∷ []) (comment_of release) running release
trusted = record {
  key = 1 ∷ [];
  signature = comment_of release;
  reads_key = refl;
  reads_signature = refl;
  signs_exe = refl;
  names_version = refl;
  newer = unfold ltb_version in refl;
}

IsTrusted-verify_update_example :
    verify_update toy (1 ∷ []) (1 ∷ 2 ∷ []) (comment_of release) running ≡ ok release
IsTrusted-verify_update_example =
    IsTrusted-verify_update toy (1 ∷ []) (1 ∷ 2 ∷ []) (comment_of release) running release
      release_fits trusted

verify_update-IsTrusted_example :
    IsTrusted toy (1 ∷ []) (1 ∷ 2 ∷ []) (comment_of release) running release
verify_update-IsTrusted_example =
    verify_update-IsTrusted toy (1 ∷ []) (1 ∷ 2 ∷ []) (comment_of release) running release
      IsTrusted-verify_update_example

installed_version-display_update_example :
    (installed_version (display_update (installed release)) ≡ some release)
    × (installed_version (display_update (up_to_date release)) ≡ none)
installed_version-display_update_example =
    installed_version-display_update release (omega arith) (omega arith) (omega arith)

parse_version-display_version_example : parse_version (display_version release) ≡ some release
parse_version-display_version_example =
    parse_version-display_version release (omega arith) (omega arith) (omega arith)

display_version-parse_version_example : display_version release ≡ display_version release
display_version-parse_version_example =
    display_version-parse_version (display_version release) release
      parse_version-display_version_example

partition_path_ok-IsPartition_example :
    (partition_path_ok (ascii "\\\\.\\HardDisk0Partition12") ≡ true)
    ↔ ((disk : Text) × (part : Text) × IsPartition (ascii "\\\\.\\HardDisk0Partition12") disk part)
partition_path_ok-IsPartition_example =
    partition_path_ok-IsPartition (ascii "\\\\.\\HardDisk0Partition12")

sid_ok-AreSidBytes_example : (sid_ok (ascii "S-1-5-18") ≡ true) ↔ (
    (rest : Text) × (ascii "S-1-5-18" ≡ ascii "S-1-" ++ rest)
    × (1 ≤ length rest)
    × (length (ascii "S-1-5-18") < 200)
    × AreSidBytes rest)
sid_ok-AreSidBytes_example = sid_ok-AreSidBytes (ascii "S-1-5-18")
