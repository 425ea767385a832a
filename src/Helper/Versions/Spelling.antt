-- ===== src/Helper/Versions/Spelling.antt =====
-- A version has one spelling: what is printed is read back, and nothing else reads as it.
use btrfs_peek.Prelude.{
  ℕ, ◌^◌, ◌≤◌, ◌<◌, ◌≡◌, refl, sym, ◌∙◌, ◌⊎◌, inl, inr, true, false, Option, some, List, [], ◌∷◌,
  ◌++◌, arith, split, join, Lacks, join-split, split-append, split_whole, length, All-append, ltb,
  leb, ◌==◌, lt→ltb, le→leb, ==→eq, Bool-cases, is_digit, AreDigits, all_digits,
  all_digits-AreDigits, AreDigits-all_digits, digits_from, to_decimal, digits_from-to_decimal,
  to_decimal-AreDigits, length-to_decimal, LeadsNonzero, to_decimal-LeadsNonzero,
  to_decimal-canonical,
}
use btrfs_peek.Disk.External.{eq_bytes, eq_bytes→eq}
use btrfs_peek.Helper.Versions.{
  Text, Version, is_canonical, parse_u64, next_field, whole_version, version_of_parts,
  parse_version, decimal, display_version,
}

abbrev IsField : ℕ → Type 0
IsField n = n < 10 ^ 19

decimal_zero : decimal 0 ≡ b'0' ∷ []
unfolding to_decimal
decimal_zero = refl

LeadsNonzero-canonical :
    (s : Text)
    → LeadsNonzero s
    → leb (length s) 19 ≡ true
    → all_digits s ≡ true
    → is_canonical s ≡ true
unfolding is_canonical
LeadsNonzero-canonical [] f l d = absurd f
LeadsNonzero-canonical (c ∷ s) f l d = ground (arith, f, l, d)

-- A printed field is canonical, and reads as itself.
next_field-decimal : (n : ℕ) → IsField n → next_field (decimal n) ≡ some n
next_field-decimal n h = elim (Bool-cases (n == 0)) [
  | inl none_left ↦
      let z : n ≡ 0 = ==→eq n 0 none_left in
      rw (z, decimal_zero)
        (unfold next_field is_canonical parse_u64 digits_from all_digits eq_bytes in refl)
  | inr some_left ↦
      let digits = AreDigits-all_digits (decimal n) (to_decimal-AreDigits 20 n) in
      let short = length-to_decimal 20 n 19 h (omega arith) in
      let leads = to_decimal-LeadsNonzero 20 n (omega (arith, h)) (ground (arith, some_left)) in
      let canonical = LeadsNonzero-canonical (decimal n) leads (le→leb _ _ short) digits in
      let back = digits_from-to_decimal 20 n (omega (arith, h)) (omega arith) in
      let fits : ltb n 0x1_0000_0000_0000_0000 ≡ true = lt→ltb _ _ (omega (arith, h)) in
      unfold next_field parse_u64 in rw (canonical, back, fits)
]

decimal-next_field : (p : Text) {n : ℕ} → next_field p ≡ some n → decimal n ≡ p
unfolding next_field is_canonical parse_u64
decimal-next_field [] h = cc
decimal-next_field (c ∷ p) {n} h = elim (Bool-cases (is_canonical (c ∷ p))) [
  | inr other ↦ cc (rw other at h)
  | inl canonical ↦
      let facts : (length (c ∷ p) ≤ 19)
          × (all_digits (c ∷ p) ≡ true)
          × ((eq_bytes (c ∷ p) (b'0' ∷ []) ≡ true) ⊎ ((c == b'0') ≡ false)) =
        ground (arith, canonical) in
      let value : digits_from 0 (c ∷ p) ≡ n = ground (arith, (rw canonical at h)) in
      rw (← value) (printed facts.0 (all_digits-AreDigits (c ∷ p) facts.1) facts.2)
]
  where
    printed :
        length (c ∷ p) ≤ 19
        → AreDigits (c ∷ p)
        → (eq_bytes (c ∷ p) (b'0' ∷ []) ≡ true) ⊎ ((c == b'0') ≡ false)
        → decimal (digits_from 0 (c ∷ p)) ≡ c ∷ p
    printed l d (inl zero_text) =
        let e = eq_bytes→eq (c ∷ p) (b'0' ∷ []) zero_text in
        rw e (unfold digits_from in decimal_zero)
    printed l d (inr nonzero) = to_decimal-canonical 20 c p d nonzero (omega (arith, l))

digits-Lacks : (sep : ℕ) (s : Text) → is_digit sep ≡ false → AreDigits s → Lacks sep s
digits-Lacks sep [] n h = tt
digits-Lacks sep (c ∷ s) n h = (ground (arith, n, h.0), digits-Lacks sep s n h.1)

decimal-Lacks : (sep n : ℕ) → is_digit sep ≡ false → Lacks sep (decimal n)
decimal-Lacks sep n h = digits-Lacks sep (decimal n) h (to_decimal-AreDigits 20 n)

-- A separator that is no digit and no dot does not stand in a printed version.
pub display_version-Lacks :
    (sep : ℕ) (v : Version)
    → is_digit sep ≡ false
    → (b'.' == sep) ≡ false
    → Lacks sep (display_version v)
unfolding display_version
display_version-Lacks sep v h dot =
    All-append (λ c. (c == sep) ≡ false) (decimal v.major) _ (decimal-Lacks sep v.major h)
      (
        dot,
        All-append (λ c. (c == sep) ≡ false) (decimal v.minor) _ (decimal-Lacks sep v.minor h)
            (dot, decimal-Lacks sep v.patch h),
      )

-- A version whose fields have nineteen digits at most is printed as a text that parses as it.
pub parse_version-display_version :
    (v : Version)
    → v.major < 10 ^ 19
    → v.minor < 10 ^ 19
    → v.patch < 10 ^ 19
    → parse_version (display_version v) ≡ some v
unfolding parse_version display_version version_of_parts whole_version
parse_version-display_version v a b c =
    rw
      (
        split-append b'.' (decimal v.major) (decimal v.minor ++ (b'.' ∷ decimal v.patch))
            (decimal-Lacks b'.' v.major refl),
        split-append b'.' (decimal v.minor) (decimal v.patch) (decimal-Lacks b'.' v.minor refl),
        split_whole b'.' (decimal v.patch) (decimal-Lacks b'.' v.patch refl),
        next_field-decimal v.major a,
        next_field-decimal v.minor b,
        next_field-decimal v.patch c,
      )
      refl

whole_version_lem :
    (x y z : Option ℕ) (rest : List Text) (v : Version)
    → whole_version x y z rest ≡ some v
    → (x ≡ some v.major) × (y ≡ some v.minor) × (z ≡ some v.patch) × (rest ≡ [])
unfolding whole_version
whole_version_lem x y z rest v h = ground (arith, h)

version_of_parts-join :
    (ps : List Text) (v : Version) → version_of_parts ps ≡ some v → join b'.' ps ≡ display_version v
unfolding version_of_parts
version_of_parts-join [] v h = cc
version_of_parts-join (a ∷ []) v h = cc
version_of_parts-join (a ∷ b ∷ []) v h = cc
version_of_parts-join (a ∷ b ∷ c ∷ rest) v h =
    let (x, y, z, none_left) =
      whole_version_lem (next_field a) (next_field b) (next_field c) rest v h in
    unfold join display_version in
    rw (none_left, decimal-next_field a x, decimal-next_field b y, decimal-next_field c z) refl

-- A text that parses as a version is that version printed, so no other text parses as it.
pub display_version-parse_version :
    (s : Text) (v : Version) → parse_version s ≡ some v → display_version v ≡ s
unfolding parse_version
display_version-parse_version s v h =
    sym (version_of_parts-join (split b'.' s) v h) ∙ join-split b'.' s
