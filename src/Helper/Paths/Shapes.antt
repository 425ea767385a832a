-- ===== src/Helper/Paths/Shapes.antt =====
-- Which names the service accepts.
use btrfs_peek.Prelude.{
  ℕ, ◌+◌, ◌≤◌, ◌<◌, ◌≡◌, refl, ap, ◌∙◌, ◌≢◌, ◌↔◌, ◌⊎◌, inl, inr, Bool, true, false, not, ◌&&◌, ◌||◌,
  Option, none, some, [], ◌∷◌, ◌++◌, arith, ascii, strip_prefix, strip_prefix-append,
  strip_prefix_lem, Lacks, length, drop, All, length-append, ltb, leb, ◌==◌, lt→ltb, le→leb,
  Bool-cases, Option-cases, is_digit, AreDigits, all_digits, all_digits-AreDigits,
  AreDigits-all_digits, LeadsNonzero,
}
use btrfs_peek.Disk.External.{eq_bytes, eq_bytes→eq, eq_bytes_refl}
use btrfs_peek.Helper.Versions.{Text}
use btrfs_peek.Helper.Paths.{
  lowercase, past_prefix, or_later, split_once_at, number_ok, harddisk, partition, numbers_ok,
  after_harddisk, partition_path_ok, is_some, all_sid, sid_ok,
}

-- One to three digits, with no leading zero but `0` itself.
pub record IsNumber (n : Text) : Type 0 where
  pub some_digits : 1 ≤ length n
  pub few_digits : length n ≤ 3
  pub digits : AreDigits n
  pub canonical : (n ≡ b'0' ∷ []) ⊎ LeadsNonzero n

number_ok-IsNumber : (n : Text) → number_ok n ≡ true → IsNumber n
unfolding number_ok
number_ok-IsNumber [] h = cc
number_ok-IsNumber (c ∷ n) h =
    let facts : (length (c ∷ n) ≤ 3)
        × (all_digits (c ∷ n) ≡ true)
        × ((eq_bytes (c ∷ n) (b'0' ∷ []) ≡ true) ⊎ ((c == b'0') ≡ false)) =
      ground (arith, h) in
    record {
      some_digits = omega arith;
      few_digits = facts.0;
      digits = all_digits-AreDigits (c ∷ n) facts.1;
      canonical = canonical facts.2;
    }
  where
    canonical :
        (eq_bytes (c ∷ n) (b'0' ∷ []) ≡ true) ⊎ ((c == b'0') ≡ false)
        → ◌≡◌ {A = Text} (c ∷ n) (b'0' ∷ []) ⊎ LeadsNonzero (c ∷ n)
    canonical (inl e) = inl (eq_bytes→eq (c ∷ n) (b'0' ∷ []) e)
    canonical (inr l) = inr l

IsNumber-number_ok : (n : Text) → IsNumber n → number_ok n ≡ true
unfolding number_ok
IsNumber-number_ok [] v = absurd (omega (arith, v.some_digits))
IsNumber-number_ok (c ∷ n) v =
    let digits = AreDigits-all_digits (c ∷ n) v.digits in
    let size = le→leb (length (c ∷ n)) 3 v.few_digits in
    let some_left : leb 1 (length (c ∷ n)) ≡ true = ground arith in
    rw (some_left, size, digits) (canonical v.canonical)
  where
    either : (a b : Bool) → (a ≡ true) ⊎ (b ≡ false) → (a || not b) ≡ true
    either a b (inl e) = rw e refl
    either a b (inr e) = ground (arith, e)

    canonical :
        ◌≡◌ {A = Text} (c ∷ n) (b'0' ∷ []) ⊎ LeadsNonzero (c ∷ n)
        → (eq_bytes (c ∷ n) (b'0' ∷ []) || not (c == b'0')) ≡ true
    canonical (inl e) =
        either _ (c == b'0') (inl (ap (λ t. eq_bytes t (b'0' ∷ [])) e ∙ eq_bytes_refl (b'0' ∷ [])))
    canonical (inr l) = either (eq_bytes (c ∷ n) (b'0' ∷ [])) _ (inr l)

past_prefix_lem :
    (c : ℕ) (o : Option (Text × Text)) (a b : Text)
    → past_prefix c o ≡ some (a, b)
    → (a' : Text) × (a ≡ c ∷ a') × (o ≡ some (a', b))
unfolding past_prefix
past_prefix_lem c none a b h = cc
past_prefix_lem c (some (front, back)) a b h =
    let e : a ≡ c ∷ front = ground (arith, h) in
    let f : back ≡ b = ground (arith, h) in (front, e, rw f refl)

split_once_at_lem : (sep s a b : Text) → split_once_at sep s ≡ some (a, b) → s ≡ a ++ (sep ++ b)
unfolding split_once_at or_later
split_once_at_lem sep [] a b h = elim (Option-cases (strip_prefix sep [])) [
  | inl missing ↦ cc (rw missing at h)
  | inr (r, found) ↦
      let e : a ≡ [] = ground (arith, (rw found at h)) in
      let f : r ≡ b = ground (arith, (rw found at h)) in rw (e, ← f) (strip_prefix_lem sep [] found)
]
split_once_at_lem sep (c ∷ s) a b h = elim (Option-cases (strip_prefix sep (c ∷ s))) [
  | inl missing ↦
      let (a', e, g) = past_prefix_lem c (split_once_at sep s) a b (rw missing at h) in
      rw e (ap (λ t. c ∷ t) (split_once_at_lem sep s a' b g))
  | inr (r, found) ↦
      let e : a ≡ [] = ground (arith, (rw found at h)) in
      let f : r ≡ b = ground (arith, (rw found at h)) in
      rw (e, ← f) (strip_prefix_lem sep (c ∷ s) found)
]

strip_prefix_other : (c d : ℕ) (p s : Text) → (d == c) ≡ false → strip_prefix (c ∷ p) (d ∷ s) ≡ none
unfolding strip_prefix
strip_prefix_other c d p s h = ground (arith, h)

split_once_at-append :
    (c : ℕ) (sep a b : Text)
    → Lacks c a
    → split_once_at (c ∷ sep) (a ++ ((c ∷ sep) ++ b)) ≡ some (a, b)
unfolding split_once_at or_later
split_once_at-append c sep [] b h = rw (strip_prefix-append (c ∷ sep) b) refl
split_once_at-append c sep (d ∷ a) b h =
    rw (strip_prefix_other c d sep (a ++ ((c ∷ sep) ++ b)) h.0, split_once_at-append c sep a b h.1)
      (unfold past_prefix in refl)

digits_lack_p : (s : Text) → AreDigits s → Lacks b'p' s
digits_lack_p [] h = tt
digits_lack_p (c ∷ s) h = (ground (arith, h.0), digits_lack_p s h.1)

-- The lower-case form of a partition's name.
abbrev pub partition_name : Text → Text → Text
partition_name disk part = harddisk ++ (disk ++ (partition ++ part))

-- A partition of a disk: the number of the partition is not 0, which is the whole disk.
pub record IsPartition (p disk part : Text) : Type 0 where
  pub named : lowercase p ≡ partition_name disk part
  pub disk_number : IsNumber disk
  pub part_number : IsNumber part
  pub not_whole : part ≢ b'0' ∷ []

not_zero : (s : Text) → eq_bytes s (b'0' ∷ []) ≡ false → s ≢ b'0' ∷ []
not_zero s h e =
    let t : eq_bytes s (b'0' ∷ []) ≡ true =
      ap (λ t. eq_bytes t (b'0' ∷ [])) e ∙ eq_bytes_refl (b'0' ∷ []) in
    cc (h, t)

is_not_zero : (s : Text) → s ≢ b'0' ∷ [] → eq_bytes s (b'0' ∷ []) ≡ false
is_not_zero s h = elim (Bool-cases (eq_bytes s (b'0' ∷ []))) [
  | inl e ↦ absurd (h (eq_bytes→eq s (b'0' ∷ []) e))
  | inr e ↦ e
]

numbers_ok_lem :
    (disk part : Text)
    → numbers_ok (some (disk, part)) ≡ true
    → IsNumber disk × IsNumber part × (part ≢ b'0' ∷ [])
unfolding numbers_ok
numbers_ok_lem disk part h =
    let facts : (number_ok disk ≡ true)
        × (number_ok part ≡ true)
        × (eq_bytes part (b'0' ∷ []) ≡ false) =
      ground (arith, h) in
    (number_ok-IsNumber disk facts.0, number_ok-IsNumber part facts.1, not_zero part facts.2)

-- The helper opens exactly the names of partitions, in any case: a disk number, and a partition number other than 0, both of one to three digits with no leading zero.
pub partition_path_ok-IsPartition :
    (p : Text)
    → (partition_path_ok p ≡ true) ↔ ((disk : Text) × (part : Text) × IsPartition p disk part)
unfolding partition_path_ok after_harddisk
partition_path_ok-IsPartition p =
    (λ h. accepted (strip_prefix harddisk (lowercase p)) refl h, refused)
  where
    accepted :
        (o : Option Text)
        → strip_prefix harddisk (lowercase p) ≡ o
        → after_harddisk o ≡ true
        → (disk : Text) × (part : Text) × IsPartition p disk part
    accepted none e h = cc
    accepted (some rest) e h = numbers (split_once_at partition rest) refl h
      where
        numbers :
            (o : Option (Text × Text))
            → split_once_at partition rest ≡ o
            → numbers_ok o ≡ true
            → (disk : Text) × (part : Text) × IsPartition p disk part
        numbers none f h = unfold numbers_ok in cc h
        numbers (some (disk, part)) f h =
            let (d, q, z) = numbers_ok_lem disk part h in
            (
              disk,
              part,
              record {
                named =
                    strip_prefix_lem harddisk (lowercase p) e
                    ∙ ap (λ t. harddisk ++ t) (split_once_at_lem partition rest disk part f);
                disk_number = d;
                part_number = q;
                not_whole = z;
              },
            )

    refused :
        (disk : Text) × (part : Text) × IsPartition p disk part
        → after_harddisk (strip_prefix harddisk (lowercase p)) ≡ true
    refused (disk, part, v) =
        rw
          (
            v.named,
            strip_prefix-append harddisk (disk ++ (partition ++ part)),
            split_once_at-append b'p' (ascii "artition") disk part
                (digits_lack_p disk v.disk_number.digits),
            IsNumber-number_ok disk v.disk_number,
            IsNumber-number_ok part v.part_number,
            is_not_zero part v.not_whole,
          )
          (unfold numbers_ok in refl)

-- A byte that stands for nothing but itself in a security descriptor.
abbrev pub AreSidBytes : Text → Type 0
AreSidBytes = All (λ c. (is_digit c || c == b'-') ≡ true)

all_sid-AreSidBytes : (s : Text) → (all_sid s ≡ true) ↔ AreSidBytes s
unfolding all_sid
all_sid-AreSidBytes [] = (λ h. tt, λ h. refl)
all_sid-AreSidBytes (c ∷ s) = (
  λ h.
      let facts : ((is_digit c || c == b'-') ≡ true) × (all_sid s ≡ true) = ground (arith, h) in
      (facts.0, (all_sid-AreSidBytes s).0 facts.1),
  λ h. rw (h.0, (all_sid-AreSidBytes s).1 h.1) refl,
)

-- A SID is accepted exactly when it is `S-1-` and then one byte at least, of digits and dashes alone, below 200 bytes in all.
pub sid_ok-AreSidBytes :
    (sid : Text)
    → (sid_ok sid ≡ true) ↔ (
        (rest : Text) × (sid ≡ ascii "S-1-" ++ rest)
        × (1 ≤ length rest)
        × (length sid < 200)
        × AreSidBytes rest)
unfolding sid_ok
sid_ok-AreSidBytes sid = (accepted (strip_prefix (ascii "S-1-") sid) refl, shaped)
  where
    accepted :
        (o : Option Text)
        → strip_prefix (ascii "S-1-") sid ≡ o
        → ((ltb (length sid) 200 && ltb 4 (length sid)) && (is_some o && all_sid (drop 4 sid)))
          ≡ true
        → (rest : Text) × (sid ≡ ascii "S-1-" ++ rest)
          × (1 ≤ length rest)
          × (length sid < 200)
          × AreSidBytes rest
    accepted none e h = ground (arith, h)
    accepted (some rest) e h =
        let whole = strip_prefix_lem (ascii "S-1-") sid e in
        let facts : (length sid < 200) × (4 < length sid) × (all_sid (drop 4 sid) ≡ true) =
          ground (arith, h) in
        let same : drop 4 sid ≡ rest = ap (drop 4) whole in
        let size : length sid ≡ 4 + length rest =
          ap length whole ∙ length-append (ascii "S-1-") rest in
        (
          rest,
          whole,
          omega (arith, size, facts.1),
          facts.0,
          (all_sid-AreSidBytes rest).0 (rw same at (facts.2)),
        )

    shaped :
        (rest : Text) × (sid ≡ ascii "S-1-" ++ rest)
          × (1 ≤ length rest)
          × (length sid < 200)
          × AreSidBytes rest
        → ((ltb (length sid) 200 && ltb 4 (length sid))
            && (is_some (strip_prefix (ascii "S-1-") sid) && all_sid (drop 4 sid)))
          ≡ true
    shaped (rest, whole, some_left, short, bytes_ok) =
        let size : length sid ≡ 4 + length rest =
          ap length whole ∙ length-append (ascii "S-1-") rest in
        let tail : all_sid (drop 4 sid) ≡ true =
          ap (λ t. all_sid (drop 4 t)) whole ∙ (all_sid-AreSidBytes rest).1 bytes_ok in
        let found : is_some (strip_prefix (ascii "S-1-") sid) ≡ true =
          ap (λ t. is_some (strip_prefix (ascii "S-1-") t)) whole
          ∙ ap is_some (strip_prefix-append (ascii "S-1-") rest) in
        rw
          (
            lt→ltb (length sid) 200 short,
            lt→ltb 4 (length sid) (omega (arith, size, some_left)),
            found,
            tail,
          )
          refl
