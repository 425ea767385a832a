-- ===== src/Helper/Installs/Swapped.antt =====
-- What a check for an update leaves in the service's folder.
use btrfs_peek.Prelude.{
  ℕ, ◌+◌, ◌≡◌, refl, ◌⊎◌, inl, inr, Bool, Option, none, some, ◌++◌, arith, Error, Result, ok, err,
  >>=-eq-ok, then_next, Bool-cases, io_error,
}
use mathlib.Core.Path.{subst}
use btrfs_peek.Disk.Bytes.{Bytes}
use btrfs_peek.Helper.Versions.{Text, Version, ltb_version}
use btrfs_peek.Helper.Updates.{Minisign, announced, verify_update, Update, up_to_date, installed}
use btrfs_peek.Helper.Updates.Trusted.{IsTrusted, verify_update-IsTrusted}
use btrfs_peek.Helper.Installs.{
  Machine, Os, releases, asset, max_exe, download, create_new, write_new, sync_new, remove_old,
  moved, rename_exe_old, rename_new_exe, rename_old_exe, put_back, swap, install, fetch_signature,
  fetch_release, put_in_place, compared, checks, check_for_update,
}

-- The program in place after a change from `current` to `exe`: where it succeeded, the new one, with the other aside; where it failed, the one that was there, or none with that one aside.
abbrev pub Kept : Bytes → Bytes → Result (Unit {0}) × Machine → Type 0
Kept current exe (ok u, s) = (s.exe_file ≡ some exe) × (s.old_file ≡ some current)
Kept current exe (err e, s) =
    (s.exe_file ≡ some current) ⊎ ((s.exe_file ≡ none) × (s.old_file ≡ some current))

module _ (os : Os) where
  restored :
      (current exe : Bytes) (e : Error) (s : Machine)
      → s.exe_file ≡ none
      → s.old_file ≡ some current
      → Kept current exe (put_back os (err e, s))
  unfolding put_back rename_old_exe moved
  restored current exe e s none_there aside = elim (Bool-cases (os.refuses s.calls)) [
    | inl fails ↦ rw (aside, fails) (inr (none_there, refl))
    | inr works ↦ rw (aside, works) (inl refl)
  ]

  swap-Kept :
      (current exe : Bytes) (s : Machine)
      → s.exe_file ≡ some current
      → s.new_file ≡ some exe
      → Kept current exe (swap os s)
  unfolding swap remove_old rename_exe_old rename_new_exe moved put_back
  swap-Kept current exe s here new = elim (Bool-cases (os.refuses s.calls)) [
    | inl fails ↦ rw fails (inl here)
    | inr works ↦
        rw (works, here)
          (elim (Bool-cases (os.refuses (s.calls + 1))) [
            | inl fails ↦ rw fails (inl refl)
            | inr works ↦
                rw (works, new)
                  (elim (Bool-cases (os.refuses (s.calls + 1 + 1))) [
                    | inl fails ↦ rw fails (restored current exe io_error _ refl refl)
                    | inr works ↦ rw works (refl, refl)
                  ])
          ])
  ]

  -- Whatever calls of the file system fail: where an installation succeeds, the program in place is exactly the bytes given, and the one that was running is aside; where it fails, that one is still in place, or it is aside with nothing in its place. The running program is never lost, and nothing but a whole program is ever in place.
  pub install-Kept :
      (current exe : Bytes) (s : Machine)
      → s.exe_file ≡ some current
      → Kept current exe (install os exe s)
  unfolding install create_new write_new sync_new
  install-Kept current exe s here = elim (Bool-cases (os.refuses s.calls)) [
    | inl fails ↦ rw fails (inl here)
    | inr works ↦ rw works (elim (Bool-cases (os.refuses (s.calls + 1))) [
      | inl fails ↦ rw fails (inl here)
      | inr works ↦ rw works (elim (Bool-cases (os.refuses (s.calls + 1 + 1))) [
        | inl fails ↦ rw fails (inl here)
        | inr works ↦ rw works (swap-Kept current exe _ here refl)
      ])
    ])
  ]

  module _ (m : Minisign) (curl : Text → ℕ → ℕ → Result Bytes) (is_utf8 : Bytes → Bool)
      (release_key : Text) (running : Version) (later : Os)
      (later_curl : Text → ℕ → ℕ → Result Bytes) where
    -- What a check that starts from the program `current` leaves, for itself and for a later check.
    abbrev pub Leaves : Bytes → Machine → Result Update × Machine → Type 0
    Leaves current s (ok (installed v), t) =
        (exe : Bytes) × (sig : Text) × IsTrusted m release_key exe sig running v
        × (t.exe_file ≡ some exe)
        × (t.old_file ≡ some current)
        × (t.waiting ≡ some v)
        × (check_for_update later m later_curl is_utf8 release_key running t
            ≡ (ok (installed v), t))
    Leaves current s (ok (up_to_date v), t) = (v ≡ running) × (t ≡ s)
    Leaves current s (err e, t) =
        (t.exe_file ≡ some current) ⊎ ((t.exe_file ≡ none) × (t.old_file ≡ some current))

    placed :
        (current exe : Bytes) (sig : Text) (v : Version) (s : Machine)
        (w : Result (Unit {0}) × Machine)
        → Kept current exe w
        → IsTrusted m release_key exe sig running v
        → Leaves current s (then_next (λ u t. (ok (installed v), record t { waiting = some v })) w)
    unfolding check_for_update checks
    placed current exe sig v s (ok u, t) kept trusted =
        (exe, sig, trusted, kept.0, kept.1, refl, refl)
    placed current exe sig v s (err e, t) kept trusted = kept

    fetch_release-IsTrusted :
        (sig : Text) (r : Bytes × Version)
        → fetch_release os m curl is_utf8 release_key running sig ≡ ok r
        → IsTrusted m release_key r.0 sig running r.1
    unfolding fetch_release
    fetch_release-IsTrusted sig r h =
        let (exe, e0, h0) =
          >>=-eq-ok (download os m curl is_utf8 release_key running (releases ++ asset) 900 max_exe)
            _ h in
        let (v, e1, h1) = >>=-eq-ok (verify_update m release_key exe sig running) _ h0 in
        let same : (exe, v) ≡ r = ground (arith, h1) in
        subst (λ t. IsTrusted m release_key t.0 sig running t.1) same
          (verify_update-IsTrusted m release_key exe sig running v e1)

    compared-Leaves :
        (current : Bytes) (sig : Text) (latest : Version) (s : Machine)
        → s.exe_file ≡ some current
        → Leaves current s (compared os m curl is_utf8 release_key running sig latest s)
    unfolding compared put_in_place
    compared-Leaves current sig latest s here = elim (Bool-cases (ltb_version running latest)) [
      | inr same ↦ rw same (refl, refl)
      | inl newer ↦
          rw newer (released (fetch_release os m curl is_utf8 release_key running sig) refl)
    ]
      where
        released :
            (r : Result (Bytes × Version))
            → fetch_release os m curl is_utf8 release_key running sig ≡ r
            → Leaves current s
                (then_next (put_in_place os m curl is_utf8 release_key running) (r, s))
        released (err e) found = inl here
        released (ok (exe, v)) found =
            placed current exe sig v s (install os exe s) (install-Kept current exe s here)
              (fetch_release-IsTrusted sig (exe, v) found)

    signed :
        (current : Bytes) (sig : Text) (r : Result Version) (s : Machine)
        → s.exe_file ≡ some current
        → Leaves current s (then_next (compared os m curl is_utf8 release_key running sig) (r, s))
    signed current sig (ok latest) s here = compared-Leaves current sig latest s here
    signed current sig (err e) s here = inl here

    fetched :
        (current : Bytes) (r : Result Text) (s : Machine)
        → s.exe_file ≡ some current
        → Leaves current s (
            then_next
              (λ sig t.
                then_next (compared os m curl is_utf8 release_key running sig) (announced m sig, t))
              (r, s))
    fetched current (ok sig) s here = signed current sig (announced m sig) s here
    fetched current (err e) s here = inl here

    from_checks :
        (current : Bytes) (o : Option Version) (s : Machine)
        → o ≡ none
        → s.exe_file ≡ some current
        → Leaves current s (checks os m curl is_utf8 release_key running o s)
    unfolding checks
    from_checks current none s free here =
        fetched current (fetch_signature os m curl is_utf8 release_key running) s here
    from_checks current (some v) s free here = cc

    -- A check for an update that starts with the program `current` in place and with no update waiting. Whatever is fetched and whatever calls of the file system fail: where it says that a version is installed, the program in place is one that is trusted as that version, the other is aside, and a later check, whatever then fails or is fetched, gives that version again and changes nothing; where it says that nothing is newer, nothing has changed; where it fails, the running program is still in place, or aside with nothing in its place.
    pub check_for_update-Leaves :
        (current : Bytes) (s : Machine)
        → s.exe_file ≡ some current
        → s.waiting ≡ none
        → Leaves current s (check_for_update os m curl is_utf8 release_key running s)
    unfolding check_for_update
    check_for_update-Leaves current s here free = from_checks current s.waiting s free here
