-- ===== src/Prelude/Decimal.antt =====
-- Decimal numbers as texts.
use Prim.Native.Nat.{ℕ, zero, suc, ◌+◌, ◌-◌, ◌*◌, ◌/◌, ◌%◌, ◌^◌, ◌≤◌, ◌<◌}
use mathlib.Core.Path.{◌≡◌, refl, ap, ◌∙◌, sym}
use mathlib.Core.Bool.{Bool, true, false, ◌&&◌}
use mathlib.Core.List.{List, [], ◌∷◌, ◌++◌, append_assoc, append-nil}
use mathlib.Core.Logic.{inl, inr}
use native.Mathlib.Omega.{arith}
use native.Mathlib.Nat.{pow-suc, mul_assoc, mul_comm, mul-le-mul_right, pow-le-pow_right}
use btrfs_peek.Prelude.Tests.{Bool-cases, ◌==◌, ltb, leb, if◌then◌else◌}
use btrfs_peek.Prelude.Lists.{All, length, length-append, All-append}

-- `is_ascii_digit`.
abbrev pub is_digit : ℕ → Bool
is_digit c = leb b'0' c && leb c b'9'

abbrev pub AreDigits : List ℕ → Type 0
AreDigits = All (λ c. is_digit c ≡ true)

-- `bytes().all(is_ascii_digit)`.
unfoldable pub all_digits : List ℕ → Bool
all_digits [] = true
all_digits (c ∷ cs) = is_digit c && all_digits cs

pub all_digits-AreDigits : (s : List ℕ) → all_digits s ≡ true → AreDigits s
unfolding all_digits
all_digits-AreDigits [] h = tt
all_digits-AreDigits (c ∷ s) h = ground (arith, all_digits-AreDigits s)

pub AreDigits-all_digits : (s : List ℕ) → AreDigits s → all_digits s ≡ true
unfolding all_digits
AreDigits-all_digits [] h = refl
AreDigits-all_digits (c ∷ s) h = ground (arith, AreDigits-all_digits s h.1)

-- The number that digits stand for, behind those read so far.
unfoldable pub digits_from : ℕ → List ℕ → ℕ
digits_from acc [] = acc
digits_from acc (c ∷ cs) = digits_from (acc * 10 + (c - b'0')) cs

-- The digits of a number, on fuel: one round for each digit.
unfoldable pub to_decimal : ℕ → ℕ → List ℕ
to_decimal zero n = []
to_decimal (suc fuel) n =
    let front = to_decimal fuel (n / 10) in
    if ltb n 10 then (b'0' + n) ∷ [] else front ++ ((b'0' + n % 10) ∷ [])

pub digits_from-append :
    (acc : ℕ) (s t : List ℕ) → digits_from acc (s ++ t) ≡ digits_from (digits_from acc s) t
unfolding digits_from
digits_from-append acc [] t = refl
digits_from-append acc (c ∷ s) t = digits_from-append (acc * 10 + (c - b'0')) s t

some_fuel : (fuel n : ℕ) → n < 10 ^ suc fuel → 10 ≤ n → 0 < fuel
some_fuel zero n h l = absurd (omega arith)
some_fuel (suc fuel) n h l = omega arith

-- What is printed is read back.
pub digits_from-to_decimal :
    (fuel n : ℕ) → n < 10 ^ fuel → 0 < fuel → digits_from 0 (to_decimal fuel n) ≡ n
unfolding to_decimal
digits_from-to_decimal zero n h p = absurd (omega arith)
digits_from-to_decimal (suc fuel) n h p = elim (Bool-cases (ltb n 10)) [
  | inl small ↦ rw small (unfold digits_from in omega arith)
  | inr big ↦
      let front = to_decimal fuel (n / 10) in
      let l : 10 ≤ n = ground arith in
      let ih =
        digits_from-to_decimal fuel (n / 10) (omega (arith, h, pow-suc 10 fuel))
          (some_fuel fuel n h l) in
      rw (big, digits_from-append 0 front ((b'0' + n % 10) ∷ []), ih) (last (n / 10) n)
]
  where
    last : (m n : ℕ) → digits_from (n / 10) ((b'0' + n % 10) ∷ []) ≡ n
    last m n = unfold digits_from in omega arith

pub to_decimal-AreDigits : (fuel n : ℕ) → AreDigits (to_decimal fuel n)
unfolding to_decimal
to_decimal-AreDigits zero n = tt
to_decimal-AreDigits (suc fuel) n = elim (Bool-cases (ltb n 10)) [
  | inl small ↦ rw small (ground arith)
  | inr big ↦ rw big (
      All-append (λ c. is_digit c ≡ true) (to_decimal fuel (n / 10)) _
        (to_decimal-AreDigits fuel (n / 10)) (ground arith))
]

-- The fuel does not matter where it is enough.
pub to_decimal_fuel :
    (f g n : ℕ) → n < 10 ^ f → n < 10 ^ g → 0 < f → 0 < g → to_decimal f n ≡ to_decimal g n
unfolding to_decimal
to_decimal_fuel zero g n a b p q = absurd (omega arith)
to_decimal_fuel (suc f) zero n a b p q = absurd (omega arith)
to_decimal_fuel (suc f) (suc g) n a b p q = elim (Bool-cases (ltb n 10)) [
  | inl small ↦ rw small
  | inr big ↦
      let l : 10 ≤ n = ground arith in
      rw (
        big,
        to_decimal_fuel f g (n / 10) (omega (arith, a, pow-suc 10 f))
            (omega (arith, b, pow-suc 10 g)) (some_fuel f n a l) (some_fuel g n b l),
      )
]

pub digits_from-lt :
    (acc : ℕ) (s : List ℕ) → AreDigits s → digits_from acc s < (acc + 1) * 10 ^ length s
unfolding digits_from
digits_from-lt acc [] h = omega arith
digits_from-lt acc (c ∷ s) h =
    let ih = digits_from-lt (acc * 10 + (c - b'0')) s h.1 in
    let d : acc * 10 + (c - b'0') + 1 ≤ (acc + 1) * 10 = ground arith in
    let l = mul-le-mul_right (10 ^ length s) d in
    let e : (acc + 1) * 10 * 10 ^ length s ≡ (acc + 1) * (10 ^ length s * 10) =
      mul_assoc (acc + 1) 10 _ ∙ ap (λ t. (acc + 1) * t) (mul_comm 10 _) in
    rw pow-suc (omega (arith, ih, l, e))

to_decimal_step :
    (g acc c : ℕ)
    → 0 < acc
    → is_digit c ≡ true
    → to_decimal (suc g) (acc * 10 + (c - b'0')) ≡ to_decimal g acc ++ (c ∷ [])
unfolding to_decimal
to_decimal_step g acc c p d =
    let big : ltb (acc * 10 + (c - b'0')) 10 ≡ false = ground arith in
    let q : (acc * 10 + (c - b'0')) / 10 ≡ acc = ground arith in
    let r : b'0' + (acc * 10 + (c - b'0')) % 10 ≡ c = ground arith in rw (big, q, r)

pub to_decimal-digits_from :
    (g f acc : ℕ) (s : List ℕ)
    → f ≡ g + length s
    → 0 < acc
    → AreDigits s
    → to_decimal f (digits_from acc s) ≡ to_decimal g acc ++ s
unfolding digits_from
to_decimal-digits_from g f acc [] e p h =
    let same : f ≡ g = omega arith in rw same (sym (append-nil (to_decimal g acc)))
to_decimal-digits_from g f acc (c ∷ s) e p h =
    to_decimal-digits_from (suc g) f (acc * 10 + (c - b'0')) s (omega arith) (omega arith) h.1
    ∙ ap (λ t. t ++ s) (to_decimal_step g acc c p h.0)
    ∙ append_assoc (to_decimal g acc) (c ∷ []) s

-- A number below 10 ^ k has `k` digits at most.
pub length-to_decimal : (fuel n k : ℕ) → n < 10 ^ k → 0 < k → length (to_decimal fuel n) ≤ k
unfolding to_decimal
length-to_decimal zero n k h p = omega arith
length-to_decimal (suc fuel) n zero h p = absurd (omega arith)
length-to_decimal (suc fuel) n (suc k) h p = elim (Bool-cases (ltb n 10)) [
  | inl small ↦ rw small (omega arith)
  | inr big ↦
      let l : 10 ≤ n = ground arith in
      let ih =
        length-to_decimal fuel (n / 10) k (omega (arith, h, pow-suc 10 k)) (some_fuel k n h l) in
      rw (big, length-append (to_decimal fuel (n / 10)) ((b'0' + n % 10) ∷ [])) (omega (arith, ih))
]

-- A text that starts with something else than a zero.
abbrev pub LeadsNonzero : List ℕ → Type 0
LeadsNonzero [] = ⊥
LeadsNonzero (c ∷ cs) = (c == b'0') ≡ false

LeadsNonzero-append : (s t : List ℕ) → LeadsNonzero s → LeadsNonzero (s ++ t)
LeadsNonzero-append [] t h = absurd h
LeadsNonzero-append (c ∷ s) t h = h

pub to_decimal-LeadsNonzero :
    (fuel n : ℕ) → n < 10 ^ fuel → 0 < n → LeadsNonzero (to_decimal fuel n)
unfolding to_decimal
to_decimal-LeadsNonzero zero n h p = absurd (omega arith)
to_decimal-LeadsNonzero (suc fuel) n h p = elim (Bool-cases (ltb n 10)) [
  | inl small ↦ rw small (ground arith)
  | inr big ↦
      let l : 10 ≤ n = ground arith in
      rw big (
        LeadsNonzero-append (to_decimal fuel (n / 10)) ((b'0' + n % 10) ∷ []) (
          to_decimal-LeadsNonzero fuel (n / 10) (omega (arith, h, pow-suc 10 fuel))
            (omega (arith, l))))
]

-- Digits with no zero in front are printed as they were read.
pub to_decimal-canonical :
    (fuel c : ℕ) (s : List ℕ)
    → AreDigits (c ∷ s)
    → (c == b'0') ≡ false
    → length s < fuel
    → to_decimal fuel (digits_from 0 (c ∷ s)) ≡ c ∷ s
unfolding digits_from
to_decimal-canonical fuel c s (d, ds) nonzero l =
    let acc = c - b'0' in
    let p : 0 < acc = ground arith in
    let below = digits_from-lt acc s ds in
    let nine : acc + 1 ≤ 10 = ground arith in
    let bound = mul-le-mul_right (10 ^ length s) nine in
    let few : digits_from acc s < 10 ^ suc (length s) =
      rw pow-suc (omega (arith, below, bound, mul_comm 10 (10 ^ length s))) in
    let more : 10 ^ suc (length s) ≤ 10 ^ fuel =
      pow-le-pow_right (omega arith) (omega (arith, l)) in
    let start : 0 * 10 + (c - b'0') ≡ c - b'0' = omega arith in
    rw start (
      to_decimal_fuel fuel (suc (length s)) (digits_from acc s) (omega (arith, few, more)) few
        (omega arith) (omega arith)
      ∙ to_decimal-digits_from 1 (suc (length s)) acc s (omega arith) p ds
      ∙ ap (λ t. t ++ s) one_digit)
  where
    one_digit : to_decimal 1 (c - b'0') ≡ c ∷ []
    one_digit = unfold to_decimal in ground arith
