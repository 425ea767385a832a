-- ===== src/Fs/Walk/Ranges.antt =====
-- On sorted items the pass visits exactly the items in the range, in order.
use btrfs_peek.Prelude.{
  ◌≡◌, refl, Bool, true, false, not, ◌&&◌, [], ◌∷◌, arith, Result, ok, err, All, if◌then◌else◌,
}
use btrfs_peek.Disk.Bytes.{Bytes}
use btrfs_peek.Disk.Keys.{Key, ltb_key}
use btrfs_peek.Disk.Keys.Order.{ltb_key_trans}
use btrfs_peek.Fs.Walk.{and_then}
use btrfs_peek.Fs.Walk.Scan.{Items, scan}

-- Each key is below all the keys behind it.
abbrev pub IsSorted : Items → Type 0
IsSorted [] = Unit {0}
IsSorted (x ∷ xs) = All (λ (y : Key × Bytes). ltb_key x.0 y.0 ≡ true) xs × IsSorted xs

-- `lo <= key <= hi`.
unfoldable pub in_range : Key → Key → Key → Bool
in_range lo hi k = not (ltb_key k lo) && not (ltb_key hi k)

unfoldable pub range : Key → Key → Items → Items
unfolding in_range
range lo hi [] = []
range lo hi (x ∷ xs) = if in_range lo hi x.0 then x ∷ range lo hi xs else range lo hi xs

-- Visits the items in turn until the visitor stops or fails.
unfoldable pub visit_all :
    {S : Type 0} → (Key → Bytes → S → Result Bool × S) → Items → S → Result Bool × S
visit_all visit [] s = (ok true, s)
visit_all visit (x ∷ xs) s = and_then (visit_all visit xs) (visit x.0 x.1 s)

-- Whether the walk stopped at `false` is of no use to a caller that has its state.
abbrev pub finished : {S : Type 0} → Result Bool × S → Result (Unit {0}) × S
finished (ok b, s) = (ok tt, s)
finished (err e, s) = (err e, s)

-- Past the range there is nothing left to visit.
range_past :
    (lo hi k : Key) (xs : Items)
    → ltb_key hi k ≡ true
    → All (λ (y : Key × Bytes). ltb_key k y.0 ≡ true) xs
    → range lo hi xs ≡ []
unfolding range
range_past lo hi k [] p h = refl
range_past lo hi k (x ∷ xs) p h =
    ground (arith, ltb_key_trans hi k x.0 p h.0, range_past lo hi k xs p h.1)

module _ {S : Type 0} (visit : Key → Bytes → S → Result Bool × S) (lo hi : Key) where
  finished-and_then :
      (f g : S → Result Bool × S)
      → ((s : S) → finished (f s) ≡ finished (g s))
      → (r : Result Bool × S) → finished (and_then f r) ≡ finished (and_then g r)
  finished-and_then f g e (ok true, s) = e s
  finished-and_then f g e (ok false, s) = refl
  finished-and_then f g e (err x, s) = refl

  -- Over items sorted by key, the pass with a range has the visitor state and the error that the visitor leaves on exactly the items whose keys lie in the range, in order.
  pub scan-range :
      (xs : Items) (s : S)
      → IsSorted xs
      → finished (scan visit lo hi xs s) ≡ finished (visit_all visit (range lo hi xs) s)
  unfolding scan range visit_all
  scan-range [] s h = refl
  scan-range (x ∷ xs) s (first, rest) = ground (
    arith,
    scan-range xs s rest,
    range_past lo hi x.0 xs,
    finished-and_then (scan visit lo hi xs) (visit_all visit (range lo hi xs))
        (λ t. scan-range xs t rest) (visit x.0 x.1 s),
  )
