-- ===== src/Copy/Components.antt =====
-- A host name is one harmless component of a path.
use btrfs_peek.Prelude.{
  ℕ, ◌+◌, ◌≤◌, ◌≡◌, refl, ap, ◌≢◌, ◌⊎◌, inl, inr, Bool, true, false, not, ◌&&◌, ◌||◌, List, [], ◌∷◌,
  ◌++◌, arith, ascii, All, All-append, ltb, ◌==◌, Bool-cases,
}
use btrfs_peek.Disk.Bytes.{Bytes}
use btrfs_peek.Disk.External.{eq_bytes}
use btrfs_peek.Copy.{
  upper, is_illegal, replaced, all_dots, undotted, ends_badly, end_closed, stem, is_port,
  is_reserved, unreserved, host_name,
}

-- Bytes that may stand in a component: no separator, no control byte, and on Windows none of the characters it forbids.
abbrev pub AreLegal : Bool → Bytes → Type 0
AreLegal windows = All (λ c. is_illegal windows c ≡ false)

underscore : (windows : Bool) → is_illegal windows b'_' ≡ false
unfolding is_illegal
underscore true = refl
underscore false = refl

replaced-AreLegal : (windows : Bool) (name : Bytes) → AreLegal windows (replaced windows name)
unfolding replaced
replaced-AreLegal windows [] = tt
replaced-AreLegal windows (c ∷ cs) = elim (Bool-cases (is_illegal windows c)) [
  | inl bad ↦ rw bad (underscore windows, replaced-AreLegal windows cs)
  | inr good ↦ rw good (good, replaced-AreLegal windows cs)
]

abbrev pub IsCleaned : Bool → Bytes → Type 0
IsCleaned windows s = AreLegal windows s × (all_dots s ≡ false)

undotted-IsCleaned :
    (windows : Bool) (s : Bytes) → AreLegal windows s → IsCleaned windows (undotted s)
unfolding undotted all_dots
undotted-IsCleaned windows s h = elim (Bool-cases (all_dots s)) [
  | inl dots ↦ rw dots ((underscore windows, h), refl)
  | inr other ↦ rw other (h, other)
]

all_dots-append : (s : Bytes) (c : ℕ) → all_dots s ≡ false → all_dots (s ++ (c ∷ [])) ≡ false
unfolding all_dots
all_dots-append [] c h = cc
all_dots-append (d ∷ ds) c h = ground (arith, h, all_dots-append ds c)

ends_badly-append : (s : Bytes) → ends_badly (s ++ (b'_' ∷ [])) ≡ false
unfolding ends_badly
ends_badly-append [] = refl
ends_badly-append (c ∷ []) = refl
ends_badly-append (c ∷ d ∷ ds) = ends_badly-append (d ∷ ds)

end_closed-IsCleaned :
    (s : Bytes)
    → IsCleaned true s
    → IsCleaned true (end_closed s) × (ends_badly (end_closed s) ≡ false)
unfolding end_closed
end_closed-IsCleaned s (legal, other) = elim (Bool-cases (ends_badly s)) [
  | inl bad ↦ rw bad (
    (
      All-append (λ c. is_illegal true c ≡ false) s (b'_' ∷ []) legal (underscore true, tt),
      all_dots-append s b'_' other,
    ),
    ends_badly-append s,
  )
  | inr good ↦ rw good ((legal, other), good)
]

ends_badly-cons : (s : Bytes) → ends_badly s ≡ false → ends_badly (b'_' ∷ s) ≡ false
unfolding ends_badly
ends_badly-cons [] h = refl
ends_badly-cons (c ∷ cs) h = h

is_reserved-cons : (s : Bytes) → is_reserved (b'_' ∷ s) ≡ false
unfolding is_reserved is_port eq_bytes
is_reserved-cons [] = refl
is_reserved-cons (a ∷ []) = refl
is_reserved-cons (a ∷ b ∷ []) = refl
is_reserved-cons (a ∷ b ∷ c ∷ []) = refl
is_reserved-cons (a ∷ b ∷ c ∷ d ∷ ds) = refl

-- What Windows takes besides.
abbrev pub IsUnreserved : Bytes → Type 0
IsUnreserved s = IsCleaned true s × (ends_badly s ≡ false) × (is_reserved (stem s) ≡ false)

unreserved-IsUnreserved :
    (s : Bytes) → IsCleaned true s → ends_badly s ≡ false → IsUnreserved (unreserved s)
unfolding unreserved all_dots stem
unreserved-IsUnreserved s (legal, other) good = elim (Bool-cases (is_reserved (stem s))) [
  | inl reserved ↦
      rw reserved
        (((underscore true, legal), refl), ends_badly-cons s good, is_reserved-cons (stem s))
  | inr free ↦ rw free ((legal, other), good, free)
]

cleaned_windows :
    (name : Bytes) → IsUnreserved (unreserved (end_closed (undotted (replaced true name))))
cleaned_windows name =
    let (part, good) =
      end_closed-IsCleaned (undotted (replaced true name))
        (undotted-IsCleaned true (replaced true name) (replaced-AreLegal true name)) in
    unreserved-IsUnreserved (end_closed (undotted (replaced true name))) part good

-- A byte of a component: no separator of either kind, and no control byte.
abbrev pub IsPlain : ℕ → Type 0
IsPlain c = (c ≢ b'/') × (c ≢ b'\\') × (32 ≤ c)

-- Some byte is not a dot.
abbrev pub HasOther : Bytes → Type 0
HasOther [] = ⊥
HasOther (c ∷ cs) = (c ≢ b'.') ⊎ HasOther cs

abbrev pub IsComponent : Bytes → Type 0
IsComponent s = All IsPlain s × HasOther s

is_illegal-IsPlain : (windows : Bool) (c : ℕ) → is_illegal windows c ≡ false → IsPlain c
unfolding is_illegal
is_illegal-IsPlain windows c h = ground (arith, h)

AreLegal-IsPlain : (windows : Bool) (s : Bytes) → AreLegal windows s → All IsPlain s
AreLegal-IsPlain windows [] h = tt
AreLegal-IsPlain windows (c ∷ cs) (p, h) =
    (is_illegal-IsPlain windows c p, AreLegal-IsPlain windows cs h)

all_dots-HasOther : (s : Bytes) → all_dots s ≡ false → HasOther s
unfolding all_dots
all_dots-HasOther [] h = cc
all_dots-HasOther (c ∷ cs) h = elim (Bool-cases (c == b'.')) [
  | inl dot ↦ inr (all_dots-HasOther cs (rw dot at h))
  | inr other ↦ inl (ground (arith, other))
]

IsCleaned-IsComponent : (windows : Bool) (s : Bytes) → IsCleaned windows s → IsComponent s
IsCleaned-IsComponent windows s (legal, other) =
    (AreLegal-IsPlain windows s legal, all_dots-HasOther s other)

-- A byte that Windows does not forbid.
abbrev pub IsAllowed : ℕ → Type 0
IsAllowed c = All (λ d. c ≢ d) (ascii "<>:\"|?*")

is_illegal-IsAllowed : (c : ℕ) → is_illegal true c ≡ false → IsAllowed c
unfolding is_illegal
is_illegal-IsAllowed c h = ground (arith, h)

AreLegal-IsAllowed : (s : Bytes) → AreLegal true s → All IsAllowed s
AreLegal-IsAllowed [] h = tt
AreLegal-IsAllowed (c ∷ cs) (p, h) = (is_illegal-IsAllowed c p, AreLegal-IsAllowed cs h)

-- Neither a dot nor a space at the end.
abbrev pub EndsWell : Bytes → Type 0
EndsWell [] = Unit {0}
EndsWell (c ∷ []) = (c ≢ b'.') × (c ≢ b' ')
EndsWell (c ∷ d ∷ ds) = EndsWell (d ∷ ds)

ends_badly-EndsWell : (s : Bytes) → ends_badly s ≡ false → EndsWell s
unfolding ends_badly
ends_badly-EndsWell [] h = tt
ends_badly-EndsWell (c ∷ []) h = ground (arith, h)
ends_badly-EndsWell (c ∷ d ∷ ds) h = ends_badly-EndsWell (d ∷ ds) h

-- The names of devices, in capitals.
abbrev pub devices : List Bytes
devices =
    ascii "CON"
    ∷ ascii "PRN"
    ∷ ascii "AUX"
    ∷ ascii "NUL"
    ∷ ascii "CONIN$"
    ∷ ascii "CONOUT$"
    ∷ ascii "COM1"
    ∷ ascii "COM2"
    ∷ ascii "COM3"
    ∷ ascii "COM4"
    ∷ ascii "COM5"
    ∷ ascii "COM6"
    ∷ ascii "COM7"
    ∷ ascii "COM8"
    ∷ ascii "COM9"
    ∷ ascii "LPT1"
    ∷ ascii "LPT2"
    ∷ ascii "LPT3"
    ∷ ascii "LPT4"
    ∷ ascii "LPT5"
    ∷ ascii "LPT6"
    ∷ ascii "LPT7"
    ∷ ascii "LPT8"
    ∷ ascii "LPT9"
    ∷ []

-- A letter of a device's name, as it is or in small.
abbrev pub Spells : ℕ → ℕ → Type 0
Spells d c = (c ≡ d) ⊎ ((b'A' ≤ d) × (d ≤ b'Z') × (c ≡ d + 32))

-- What Windows takes for a device: the letters of its name, in capitals or not, and then nothing, or a dot and anything.
abbrev pub NamesDevice : Bytes → Bytes → Type 0
NamesDevice [] [] = Unit {0}
NamesDevice [] (c ∷ cs) = c ≡ b'.'
NamesDevice (d ∷ ds) [] = ⊥
NamesDevice (d ∷ ds) (c ∷ cs) = Spells d c × NamesDevice ds cs

-- Bytes without dots and small letters.
unfoldable are_capital : Bytes → Bool
are_capital [] = true
are_capital (d ∷ ds) = (not (d == b'.') && (ltb d b'a' || ltb b'z' d)) && are_capital ds

upper-Spells :
    (d c : ℕ)
    → (not (d == b'.') && (ltb d b'a' || ltb b'z' d)) ≡ true
    → Spells d c
    → ((c == b'.') ≡ false) × (upper c ≡ d)
upper-Spells d c h (inl same) = (ground (arith, h, same), ground (arith, h, same))
upper-Spells d c h (inr (low, high, small)) =
    (ground (arith, low, small), ground (arith, low, high, small))

stem-NamesDevice : (d s : Bytes) → are_capital d ≡ true → NamesDevice d s → stem s ≡ d
unfolding stem are_capital
stem-NamesDevice [] [] h n = refl
stem-NamesDevice [] (c ∷ cs) h n = rw n refl
stem-NamesDevice (d ∷ ds) [] h n = absurd n
stem-NamesDevice (d ∷ ds) (c ∷ cs) h (n, ns) =
    let (other, same) = upper-Spells d c (ground (arith, h)) n in
    rw (other, same, stem-NamesDevice ds cs (ground (arith, h)) ns) refl

unfoldable are_reserved : List Bytes → Bool
are_reserved [] = true
are_reserved (d ∷ ds) = (is_reserved d && are_capital d) && are_reserved ds

devices_reserved : are_reserved devices ≡ true
unfolding are_reserved are_capital is_reserved is_port eq_bytes
devices_reserved = refl

no_device_of :
    (s : Bytes) (ds : List Bytes)
    → is_reserved (stem s) ≡ false
    → are_reserved ds ≡ true
    → All (λ d. ¬ NamesDevice d s) ds
unfolding are_reserved
no_device_of s [] h k = tt
no_device_of s (d ∷ ds) h k =
    let reserved : is_reserved d ≡ true = ground (arith, k) in
    let capital : are_capital d ≡ true = ground (arith, k) in
    (
      λ n. cc (ap is_reserved (stem-NamesDevice d s capital n), h, reserved),
      no_device_of s ds h (ground (arith, k)),
    )

-- Whatever name an entry has in the filesystem, its name on a host is one component of a path: it has a byte that is not a dot, so it is not empty and does not navigate, and it has no separator of either kind and no control byte.
pub host_name-IsComponent : (windows : Bool) (name : Bytes) → IsComponent (host_name windows name)
unfolding host_name
host_name-IsComponent true name =
    IsCleaned-IsComponent true (unreserved (end_closed (undotted (replaced true name))))
      (cleaned_windows name).0
host_name-IsComponent false name =
    IsCleaned-IsComponent false (undotted (replaced false name))
      (undotted-IsCleaned false (replaced false name) (replaced-AreLegal false name))

-- On Windows that name has none of the characters that are forbidden there, does not end in a dot or a space, and names no device, in capitals or not, with an extension or without.
pub host_name-IsWindowsName :
    (name : Bytes)
    → All IsAllowed (host_name true name)
      × EndsWell (host_name true name)
      × All (λ d. ¬ NamesDevice d (host_name true name)) devices
unfolding host_name
host_name-IsWindowsName name =
    let u = cleaned_windows name in
    (
      AreLegal-IsAllowed _ u.0.0,
      ends_badly-EndsWell _ u.1,
      no_device_of _ devices u.2 devices_reserved,
    )
