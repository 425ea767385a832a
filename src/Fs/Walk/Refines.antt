-- ===== src/Fs/Walk/Refines.antt =====
-- The walk of a tree on disk is the pass over its items.
use btrfs_peek.Prelude.{
  ℕ, zero, suc, ◌+◌, ◌-◌, ◌<◌, ◌≡◌, refl, ap, inl, inr, Bool, true, false, Option, none, some, List,
  [], ◌∷◌, ◌++◌, arith, Result, ok, err, length, All, ltb, ◌==◌, if◌then◌else◌, lt→ltb, eq→==,
  Bool-cases,
}
use mathlib.Core.Path.{fun_ext}
use btrfs_peek.Disk.Bytes.{Bytes}
use btrfs_peek.Disk.Keys.{Key, ltb_key, leb_key}
use btrfs_peek.Disk.Keys.Order.{ltb_key_le, leb_key→ltb}
use btrfs_peek.Fs.Nodes.{Node, ptr}
use btrfs_peek.Fs.Walk.{
  stop, skip, descend, and_then, after_child, leaf_item, visit_leaf, skip_child, child_step,
  visit_child, visit_children, check_level, walk_node, walk,
}
use btrfs_peek.Fs.Walk.Scan.{Items, Below, scan, scan-append, scan-Below, scan_past}
use btrfs_peek.Fs.Walk.Trees.{
  Tree, items_of, items, LeafSlots, ChildSlots, Holds, BelowNext, OrderedChildren, IsOrdered,
}

-- A run agrees with a result up to the cache, which stays good.
abbrev pub Agrees : {C S : Type 0} → (C → Type 0) → Result Bool × C × S → Result Bool × S → Type 0
Agrees {C} IsGood w r = (c : C) × (w ≡ (r.0, c, r.1)) × IsGood c

after_child-Agrees :
    {C S : Type 0} (IsGood : C → Type 0) (more : C → S → Result Bool × C × S)
    (rest : S → Result Bool × S)
    → ((c : C) (s : S) → IsGood c → Agrees IsGood (more c s) (rest s))
    → (w : Result Bool × C × S) (r : Result Bool × S) → Agrees IsGood w r
    → Agrees IsGood (after_child more w) (and_then rest r)
after_child-Agrees IsGood more rest f w (ok true, s) (c, e, g) = rw e (f c s g)
after_child-Agrees IsGood more rest f w (ok false, s) (c, e, g) = (c, rw e, g)
after_child-Agrees IsGood more rest f w (err x, s) (c, e, g) = (c, rw e, g)

Below-le : (k lo : Key) (xs : Items) → leb_key k lo ≡ true → All (Below k) xs → All (Below lo) xs
Below-le k lo [] l h = tt
Below-le k lo (x ∷ xs) l h = (ltb_key_le x.0 k lo h.0 (leb_key→ltb k lo l), Below-le k lo xs l h.1)

-- Whether a child is passed over; where it is, all its items are below `min`.
skip_child_lem :
    {A : Type 0} (P : A → ℕ → Type 0) (lo : Key) (node : Node) (n i : ℕ) (xs : Items)
    (ts : List (Key × ℕ × A))
    → i + suc (length ts) ≡ n
    → ChildSlots P node (i + 1) ts
    → BelowNext xs ts
    → (passed : Bool) × (skip_child lo node n i ≡ ok passed) × (passed ≡ true → All (Below lo) xs)
unfolding skip_child
skip_child_lem P lo node n i xs [] e slots b =
    let last : ltb (i + 1) n ≡ false = ground (arith, e) in (false, rw last, λ h. cc)
skip_child_lem P lo node n i xs ((k, a, t) ∷ ts) e (slot, _, slots) b =
    let more : ltb (i + 1) n ≡ true = lt→ltb _ _ (omega (arith, e)) in
    (leb_key k lo, rw (more, slot), λ h. Below-le k lo xs h b)

child_step_stop :
    (lo hi : Key) (node : Node) (n i : ℕ) (k : Key) (a : ℕ)
    → ptr node i ≡ ok (k, a)
    → ltb_key hi k ≡ true
    → child_step lo hi node n i ≡ ok stop
unfolding child_step
child_step_stop lo hi node n i k a e h = rw (e, h)

child_step_below :
    (lo hi : Key) (node : Node) (n i : ℕ) (k : Key) (a : ℕ) (passed : Bool)
    → ptr node i ≡ ok (k, a)
    → ltb_key hi k ≡ false
    → skip_child lo node n i ≡ ok passed
    → child_step lo hi node n i ≡ ok (if passed then skip else descend a)
child_step_below lo hi node n i k a passed e h f = unfold child_step in rw (e, h, f)

module _ {S : Type 0} (visit : Key → Bytes → S → Result Bool × S) (lo hi : Key) where
  visit_leaf-scan :
      (node : Node) (i : ℕ) (xs : Items) (s : S)
      → LeafSlots node i xs
      → visit_leaf visit lo hi node (length xs) i s ≡ scan visit lo hi xs s
  unfolding visit_leaf scan
  visit_leaf-scan node i [] s h = refl
  visit_leaf-scan node i (x ∷ xs) s (e, h) = rw e (
      ap (λ rest. leaf_item visit lo hi rest (ok x) s)
        (fun_ext λ t. visit_leaf-scan node (i + 1) xs t h))

  module _ {C A : Type 0} (IsGood : C → Type 0) (f : A → Items) (P : A → ℕ → Type 0)
      (Q : A → Type 0) (below : ℕ → C → S → Result Bool × C × S)
      (deeper : (t : A) (a : ℕ)
        → P t a
        → Q t
        → (c : C) (s : S) → IsGood c
        → Agrees IsGood (below a c s) (scan visit lo hi (f t) s))
      (ordered : leb_key lo hi ≡ true) where
    visit_or_skip :
        (more : C → S → Result Bool × C × S) (a : ℕ) (t : A) (ts : List (Key × ℕ × A)) (c : C)
        (s : S)
        → IsGood c
        → P t a
        → Q t
        → (passed : Bool) → (passed ≡ true → All (Below lo) (f t))
        → ((c : C) (s : S)
            → IsGood c
            → Agrees IsGood (more c s) (scan visit lo hi (items_of f ts) s))
        → Agrees IsGood
            (visit_child more below (ok (if passed then skip else descend a)) c s)
            (scan visit lo hi (f t ++ items_of f ts) s)
    unfolding visit_child
    visit_or_skip more a t ts c s g p q true low ih =
        rw (scan-Below visit lo hi (f t) (items_of f ts) s (low refl)) (ih c s g)
    visit_or_skip more a t ts c s g p q false low ih =
        rw (scan-append visit lo hi (f t) (items_of f ts) s) (
          after_child-Agrees IsGood more (scan visit lo hi (items_of f ts)) ih (below a c s)
            (scan visit lo hi (f t) s) (deeper t a p q c s g))

    -- The loop over the children from slot `i` on is the pass over their items.
    visit_children-scan :
        (node : Node) (n i : ℕ) (ts : List (Key × ℕ × A))
        → i + length ts ≡ n
        → ChildSlots P node i ts
        → OrderedChildren f Q ts
        → (c : C) (s : S) → IsGood c
        → Agrees IsGood
            (visit_children lo hi below node n (length ts) i c s)
            (scan visit lo hi (items_of f ts) s)
    unfolding visit_children
    visit_children-scan node n i [] e slots o c s g = unfold scan in (c, refl, g)
    visit_children-scan node n i ((k, a, t) ∷ ts) e (slot, p, slots) (q, starts, next, o) c s g =
        elim (Bool-cases (ltb_key hi k)) [
          | inl past ↦
              rw
                (
                  child_step_stop lo hi node n i k a slot past,
                  scan_past visit lo hi k (f t) (items_of f ts) s past ordered starts,
                )
                (c, refl, g)
          | inr within ↦
              let (passed, r, low) = skip_child_lem P lo node n i (f t) ts e slots next in
              let ih = λ (c : C) (s : S) (g : IsGood c).
                visit_children-scan node n (i + 1) ts (omega (arith, e)) slots o c s g in
              rw (child_step_below lo hi node n i k a passed slot within r) (
                visit_or_skip (visit_children lo hi below node n (length ts) (i + 1)) a t ts c s g p
                  q passed low ih)
        ]

module _ {S C : Type 0} (visit : Key → Bytes → S → Result Bool × S) (lo hi : Key)
    (read_node : ℕ → C → Result Node × C) (IsGood : C → Type 0) where
  walk_node-scan :
      (left h : ℕ) (t : Tree h) (expect : Option ℕ) (a : ℕ)
      → leb_key lo hi ≡ true
      → h < left
      → check_level expect h ≡ ok tt
      → Holds read_node IsGood h t a
      → IsOrdered h t
      → (c : C) (s : S) → IsGood c
      → Agrees IsGood
          (walk_node visit lo hi read_node left expect a c s)
          (scan visit lo hi (items h t) s)
  unfolding walk_node
  walk_node-scan zero h t expect a r l e held o c s g = absurd (omega arith)
  walk_node-scan (suc left) zero t expect a r l e (node, stored, n, lv, slots) o c s g =
      let (c', read, g') = stored c g in
      rw (read, n, lv, e) (c', rw (visit_leaf-scan visit lo hi node 0 t s slots), g')
  walk_node-scan (suc left) (suc h) t expect a r l e (node, stored, n, lv, slots) o c s g =
      let (c', read, g') = stored c g in
      rw (read, n, lv, e)
        (rw interior (
          visit_children-scan visit lo hi IsGood (items h) (Holds read_node IsGood h) (IsOrdered h)
            (walk_node visit lo hi read_node left (some (suc h - 1)))
            (λ u b p q d s' g''.
              walk_node-scan left h u (some (suc h - 1)) b r (omega (arith, l)) one_below p q d s'
                g'')
            r node (length t) 0 t (omega arith) slots o c' s g'))
    where
      interior : (suc h == 0) ≡ false
      interior = ground arith

      one_below : check_level (some (suc h - 1)) h ≡ ok tt
      one_below = unfold check_level in rw (eq→== h (suc h - 1) (omega arith))

  -- For a range that is not empty, the walk of an ordered tree of at most nine levels that stands on disk gives what one pass over the tree's items gives: the same result, the same visitor state, and a cache that is still good.
  pub walk-scan :
      (h : ℕ) (t : Tree h) (root : ℕ) (c : C) (s : S)
      → leb_key lo hi ≡ true
      → h < 9
      → Holds read_node IsGood h t root
      → IsOrdered h t
      → IsGood c
      → Agrees IsGood (walk visit lo hi read_node root c s) (scan visit lo hi (items h t) s)
  unfolding walk check_level
  walk-scan h t root c s r l held o g = walk_node-scan 9 h t none root r l refl held o c s g
