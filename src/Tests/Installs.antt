-- ===== src/Tests/Installs.antt =====
-- A check for an update where the last rename of the swap fails.
use btrfs_peek.Prelude.{ℕ, refl, true, none, some, [], ◌∷◌, Result, ok, leb, ◌==◌, if◌then◌else◌}
use btrfs_peek.Disk.Bytes.{Bytes}
use btrfs_peek.Helper.Versions.{Text}
use btrfs_peek.Helper.Updates.Trusted.{comment_of}
use btrfs_peek.Helper.Installs.{Machine, Os, install, check_for_update}
use btrfs_peek.Helper.Installs.Swapped.{Kept, Leaves, install-Kept, check_for_update-Leaves}
use btrfs_peek.Tests.Updates.{toy, running, release}

abbrev os : Os
os = record { refuses = λ n. n == 5; written = λ n. 0 }

abbrev folder : Machine
folder = record {
  exe_file = some (1 ∷ []);
  new_file = none;
  old_file = none;
  waiting = none;
  calls = 0;
}

install-Kept_example : Kept (1 ∷ []) (1 ∷ 2 ∷ []) (install os (1 ∷ 2 ∷ []) folder)
install-Kept_example = install-Kept os (1 ∷ []) (1 ∷ 2 ∷ []) folder refl

-- The signature is the comment of the release, and every other body is its program.
abbrev curl : Text → ℕ → ℕ → Result Bytes
curl url time size = if leb size 0x4000 then ok (comment_of release) else ok (1 ∷ 2 ∷ [])

check_for_update-Leaves_example :
    Leaves os toy curl
      (λ t. true)
      (1 ∷ [])
      running
      os
      curl
      (1 ∷ [])
      folder
      (check_for_update os toy curl (λ t. true) (1 ∷ []) running folder)
check_for_update-Leaves_example =
    check_for_update-Leaves os toy curl (λ t. true) (1 ∷ []) running os curl (1 ∷ []) folder refl
      refl
