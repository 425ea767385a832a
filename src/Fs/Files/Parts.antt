-- ===== src/Fs/Files/Parts.antt =====
-- The parts of a path.
use btrfs_peek.Prelude.{
  ℕ, ◌≡◌, refl, ap, ◌≢◌, ◌⊎◌, inl, inr, true, false, List, [], ◌∷◌, ◌++◌, arith, onto_first, All,
  Bool-cases,
}
use btrfs_peek.Disk.Bytes.{Bytes}
use btrfs_peek.Disk.External.{eq_bytes, eq_bytes→eq}
use btrfs_peek.Fs.Files.{is_slash, split_path, is_kept, kept_parts, path_parts}

abbrev pub IsSlash : ℕ → Type 0
IsSlash c = (c ≡ b'/') ⊎ (c ≡ b'\\')

abbrev pub NotSlash : ℕ → Type 0
NotSlash c = (c ≢ b'/') × (c ≢ b'\\')

-- A path is its pieces, with a slash of either kind between one and the next.
abbrev pub Splits : Bytes → List Bytes → Type 0
Splits path [] = ⊥
Splits path (p ∷ []) = (path ≡ p) × All NotSlash p
Splits path (p ∷ q ∷ ps) =
    (s : ℕ) × (rest : Bytes) × (path ≡ p ++ (s ∷ rest))
    × IsSlash s
    × All NotSlash p
    × Splits rest (q ∷ ps)

-- A piece that leads nowhere: nothing, or one dot.
abbrev pub IsIdle : Bytes → Type 0
IsIdle p = (p ≡ []) ⊎ (p ≡ b'.' ∷ [])

-- The parts are the pieces without the idle ones, in order.
pub data Keeps : List Bytes → List Bytes → Type 0 where
  keep_none : Keeps [] []
  keep_part : {p : Bytes} {ps qs : List Bytes} → ¬ IsIdle p → Keeps ps qs → Keeps (p ∷ ps) (p ∷ qs)
  skip_idle : {p : Bytes} {ps qs : List Bytes} → IsIdle p → Keeps ps qs → Keeps (p ∷ ps) qs

onto_first-Splits :
    (c : ℕ) (path : Bytes) (ps : List Bytes)
    → NotSlash c
    → Splits path ps
    → Splits (c ∷ path) (onto_first c ps)
onto_first-Splits c path [] n h = absurd h
onto_first-Splits c path (p ∷ []) n (same, plain) = (ap (λ t. c ∷ t) same, (n, plain))
onto_first-Splits c path (p ∷ q ∷ ps) n (s, rest, same, slash, plain, h) =
    (s, rest, ap (λ t. c ∷ t) same, slash, (n, plain), h)

after_slash :
    (c : ℕ) (path : Bytes) (ps : List Bytes)
    → IsSlash c
    → Splits path ps
    → Splits (c ∷ path) ([] ∷ ps)
after_slash c path [] slash h = absurd h
after_slash c path (p ∷ ps) slash h = (c, path, refl, slash, tt, h)

split_path-Splits : (path : Bytes) → Splits path (split_path path)
unfolding split_path
split_path-Splits [] = (refl, tt)
split_path-Splits (c ∷ cs) = elim (Bool-cases (is_slash c)) [
  | inl slash ↦
      rw slash (after_slash c cs (split_path cs) (ground (arith, slash)) (split_path-Splits cs))
  | inr other ↦
      rw other
        (onto_first-Splits c cs (split_path cs) (ground (arith, other)) (split_path-Splits cs))
]

is_kept-IsIdle : (p : Bytes) → is_kept p ≡ true → ¬ IsIdle p
unfolding eq_bytes
is_kept-IsIdle p h (inl bare) = cc (rw bare at h)
is_kept-IsIdle p h (inr dot) = cc (rw dot at h)

IsIdle-is_kept : (p : Bytes) → is_kept p ≡ false → IsIdle p
IsIdle-is_kept p h = elim (Bool-cases (eq_bytes p [])) [
  | inl bare ↦ inl (eq_bytes→eq p [] bare)
  | inr long ↦ inr (eq_bytes→eq p (b'.' ∷ []) (ground (arith, h, long)))
]

kept_parts-Keeps : (ps : List Bytes) → Keeps ps (kept_parts ps)
unfolding kept_parts
kept_parts-Keeps [] = keep_none
kept_parts-Keeps (p ∷ ps) = elim (Bool-cases (is_kept p)) [
  | inl kept ↦ rw kept (keep_part (is_kept-IsIdle p kept) (kept_parts-Keeps ps))
  | inr idle ↦ rw idle (skip_idle (IsIdle-is_kept p idle) (kept_parts-Keeps ps))
]

-- The parts of a path: what is between its slashes, without the empty pieces and the single dots.
abbrev pub ArePartsOf : Bytes → List Bytes → Type 0
ArePartsOf path parts = (pieces : List Bytes) × Splits path pieces × Keeps pieces parts

pub path_parts-ArePartsOf : (path : Bytes) → ArePartsOf path (path_parts path)
unfolding path_parts
path_parts-ArePartsOf path =
    (split_path path, split_path-Splits path, kept_parts-Keeps (split_path path))
