-- ===== src/Tests/Devices.antt =====
-- A read of a small device.
use btrfs_peek.Prelude.{
  ℕ, zero, suc, ◌+◌, ◌≤◌, ◌<◌, ◌≡◌, refl, ap, [], ◌∷◌, ◌++◌, arith, ok, err, length, take, drop,
  replicate, length-take, length-drop, leb, if◌then◌else◌, unexpected_eof,
}
use btrfs_peek.Disk.Bytes.{Bytes}
use btrfs_peek.Dev.{Attempt, got, interrupted, Device, read}
use btrfs_peek.Dev.Content.{AttemptFits, read-take}

abbrev pub contents : Bytes
contents = replicate 4100 1 ++ (2 ∷ 3 ∷ 4 ∷ [])

-- The first attempt is interrupted, and the others give what was asked for.
abbrev pub attempt : ℕ → ℕ → ℕ → Attempt
attempt zero off want = interrupted
attempt (suc k) off want = got (take want (drop off contents))

abbrev pub device : Device
device = record { read_at = attempt; retries = 1 }

taken : (xs : Bytes) (n : ℕ) → (length (take n xs) ≤ n) × (take n xs ≡ take (length (take n xs)) xs)
taken [] zero = (omega arith, refl)
taken [] (suc n) = (omega arith, refl)
taken (x ∷ xs) zero = (omega arith, refl)
taken (x ∷ xs) (suc n) = (omega (arith, (taken xs n).0), ap (λ r. x ∷ r) (taken xs n).1)

pub attempt-fits :
    (k off want : ℕ) → 0 < want → AttemptFits contents 1 k off want (attempt k off want)
attempt-fits zero off want p = omega arith
attempt-fits (suc k) off want p = (
  (taken (drop off contents) want).0,
  (taken (drop off contents) want).1,
  λ z. omega (arith, p, z, length-take want (drop off contents), length-drop off contents),
)

read-take_example : read device 4099 3 ≡ (
    if leb (4099 + 3) (length contents)
    then ok (take 3 (drop 4099 contents))
    else err unexpected_eof)
read-take_example =
    read-take device contents 4099 3 (record { attempts = attempt-fits }) (omega arith)
      (omega arith)
