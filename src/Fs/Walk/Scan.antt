-- ===== src/Fs/Walk/Scan.antt =====
-- The walk's reference: one pass over the items of a tree, laid out as a list.
use btrfs_peek.Prelude.{
  ◌≡◌, refl, Bool, true, false, List, [], ◌∷◌, ◌++◌, arith, Result, ok, err, All,
}
use btrfs_peek.Disk.Bytes.{Bytes}
use btrfs_peek.Disk.Keys.{Key, ltb_key, leb_key}
use btrfs_peek.Disk.Keys.Order.{ltb_key_le, le_ltb_key, ltb_key_asymm, leb_key→ltb}
use btrfs_peek.Fs.Walk.{and_then, leaf_item}

abbrev pub Items : Type 0
Items = List (Key × Bytes)

abbrev pub Below : Key → Key × Bytes → Type 0
Below k x = ltb_key x.0 k ≡ true

abbrev pub From : Key → Key × Bytes → Type 0
From k x = ltb_key x.0 k ≡ false

-- The first item has no key below `k`, and there is one.
abbrev pub StartsFrom : Key → Items → Type 0
StartsFrom k [] = ⊥
StartsFrom k (x ∷ xs) = From k x

and_then_assoc :
    {S : Type 0} (f g h : S → Result Bool × S)
    → ((s : S) → f s ≡ and_then g (h s))
    → (r : Result Bool × S) → and_then f r ≡ and_then g (and_then h r)
and_then_assoc f g h e (ok true, s) = e s
and_then_assoc f g h e (ok false, s) = refl
and_then_assoc f g h e (err x, s) = refl

module _ {S : Type 0} (visit : Key → Bytes → S → Result Bool × S) (lo hi : Key) where
  unfoldable pub scan : Items → S → Result Bool × S
  unfolding leaf_item
  scan [] s = (ok true, s)
  scan (x ∷ xs) s = leaf_item visit lo hi (scan xs) (ok x) s

  pub scan-append : (xs ys : Items) (s : S) → scan (xs ++ ys) s ≡ and_then (scan ys) (scan xs s)
  unfolding scan
  scan-append [] ys s = refl
  scan-append (x ∷ xs) ys s =
      let rest =
        and_then_assoc (scan (xs ++ ys)) (scan ys) (scan xs) (scan-append xs ys)
          (visit x.0 x.1 s) in
      ground (arith, rest, scan-append xs ys s)

  pub scan-Below : (xs ys : Items) (s : S) → All (Below lo) xs → scan (xs ++ ys) s ≡ scan ys s
  unfolding scan
  scan-Below [] ys s h = refl
  scan-Below (x ∷ xs) ys s h = rw (h.0) (scan-Below xs ys s h.1)

  pub scan_past :
      (k : Key) (xs ys : Items) (s : S)
      → ltb_key hi k ≡ true
      → leb_key lo hi ≡ true
      → StartsFrom k xs
      → scan (xs ++ ys) s ≡ (ok false, s)
  unfolding scan leb_key
  scan_past k [] ys s p l h = absurd h
  scan_past k (x ∷ xs) ys s p l h =
      let past = ltb_key_le hi k x.0 p h in
      let above = ltb_key_asymm lo x.0 (le_ltb_key lo hi x.0 (leb_key→ltb lo hi l) past) in
      rw (above, past)
