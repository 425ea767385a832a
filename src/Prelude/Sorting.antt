-- ===== src/Prelude/Sorting.antt =====
-- `sort_by` and `sort_by_key` of the standard library: a stable sort.
use mathlib.Core.Path.{◌≡◌, refl}
use mathlib.Core.Bool.{Bool, true, false}
use mathlib.Core.Logic.{inl, inr}
use mathlib.Core.List.{List, [], ◌∷◌, Permᴰ}
use mathlib.Core.List.Permᴰ
use btrfs_peek.Prelude.Lists.{All}
use btrfs_peek.Prelude.Tests.{if◌then◌else◌, Bool-cases}

module _ {A : Type 0} (before : A → A → Bool) where
  unfoldable pub insert_by : A → List A → List A
  insert_by a [] = a ∷ []
  insert_by a (b ∷ bs) = if before a b then a ∷ b ∷ bs else b ∷ insert_by a bs

  unfoldable pub sort_by : List A → List A
  sort_by [] = []
  sort_by (a ∷ xs) = insert_by a (sort_by xs)

  abbrev pub IsSortedBy : List A → Type 0
  IsSortedBy [] = Unit {0}
  IsSortedBy (a ∷ xs) = All (λ b. before a b ≡ true) xs × IsSortedBy xs

  insert_by-Perm : (a : A) (bs : List A) → Permᴰ (a ∷ bs) (insert_by a bs)
  unfolding insert_by
  insert_by-Perm a [] = Permᴰ.refl (a ∷ [])
  insert_by-Perm a (b ∷ bs) = elim (Bool-cases (before a b)) [
    | inl h ↦ rw h (Permᴰ.refl (a ∷ b ∷ bs))
    | inr h ↦ rw h (Permᴰ.trans (Permᴰ.swap refl refl) (Permᴰ.cons refl (insert_by-Perm a bs)))
  ]

  pub sort_by-Perm : (xs : List A) → Permᴰ xs (sort_by xs)
  unfolding sort_by
  sort_by-Perm [] = Permᴰ.refl []
  sort_by-Perm (a ∷ xs) =
      Permᴰ.trans (Permᴰ.cons refl (sort_by-Perm xs)) (insert_by-Perm a (sort_by xs))

  insert_by-All : (P : A → Type 0) (a : A) (bs : List A) → P a → All P bs → All P (insert_by a bs)
  unfolding insert_by
  insert_by-All P a [] p ps = (p, tt)
  insert_by-All P a (b ∷ bs) p (q, ps) = elim (Bool-cases (before a b)) [
    | inl h ↦ rw h (p, (q, ps))
    | inr h ↦ rw h (q, insert_by-All P a bs p ps)
  ]

  module _ (total : (a b : A) → before a b ≡ false → before b a ≡ true)
      (transitive : (a b c : A) → before a b ≡ true → before b c ≡ true → before a c ≡ true) where
    All-before :
        (a b : A) (cs : List A)
        → before a b ≡ true
        → All (λ c. before b c ≡ true) cs
        → All (λ c. before a c ≡ true) cs
    All-before a b [] h ps = tt
    All-before a b (c ∷ cs) h (p, ps) = (transitive a b c h p, All-before a b cs h ps)

    insert_by-IsSortedBy : (a : A) (bs : List A) → IsSortedBy bs → IsSortedBy (insert_by a bs)
    unfolding insert_by
    insert_by-IsSortedBy a [] s = (tt, tt)
    insert_by-IsSortedBy a (b ∷ bs) (least, s) = elim (Bool-cases (before a b)) [
      | inl h ↦ rw h ((h, All-before a b bs h least), (least, s))
      | inr h ↦ rw h (
        insert_by-All (λ c. before b c ≡ true) a bs (total a b h) least,
        insert_by-IsSortedBy a bs s,
      )
    ]

    pub sort_by-IsSortedBy : (xs : List A) → IsSortedBy (sort_by xs)
    unfolding sort_by
    sort_by-IsSortedBy [] = tt
    sort_by-IsSortedBy (a ∷ xs) = insert_by-IsSortedBy a (sort_by xs) (sort_by-IsSortedBy xs)
