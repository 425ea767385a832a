-- ===== src/Fs/Directories/Parents.antt =====
-- The path of an inode in its tree.
use btrfs_peek.Prelude.{
  ℕ, zero, suc, ◌+◌, ◌≤◌, ◌<◌, ◌≡◌, sym, ap, ◌∙◌, ◌≢◌, inl, inr, Bool, true, Option, none, some,
  List, [], ◌∷◌, ◌++◌, append_assoc, append-nil, arith, Result, ok, >>=-eq-ok, then_next-eq-ok,
  join, length, take, drop, ◌==◌, ==→eq, eq→==, Bool-cases, Result-cases, no_parent,
}
use mathlib.Core.Path.{subst}
use btrfs_peek.Disk.Bytes.{Bytes, bytes, u16_at, from_le_bytes}
use btrfs_peek.Disk.Bytes.Slices.{bytes_takes}
use btrfs_peek.Disk.External.{External}
use btrfs_peek.Disk.Keys.{Key, new_key, u64_max, inode_ref_key, leb_key, ltb_key}
use btrfs_peek.Fs.Mirrors.{Filesystem}
use btrfs_peek.Fs.Blocks.Cached.{IsGood}
use btrfs_peek.Fs.Walk.Scan.{Items}
use btrfs_peek.Fs.Walk.Ranges.{IsSorted, range, visit_all, finished}
use btrfs_peek.Fs.Walk.Trees.{Tree, items, IsOrdered}
use btrfs_peek.Fs.Items.Get.{OnDisk}
use btrfs_peek.Fs.Names.{TreeRoot, Caches, tree_root, walk_items, or_missing}
use btrfs_peek.Fs.Names.Walked.{walk_items-visit_all}
use btrfs_peek.Fs.Directories.{inode_ref, keep_ref, parent_of, climb, path_in_tree}

module _ (x : External) where
  -- The name in the payload of a reference: its length at 8, and its bytes at 10.
  abbrev pub HoldsName : Bytes → Bytes → Type 0
  HoldsName d name =
      (n : ℕ) × (n ≡ from_le_bytes (take 2 (drop 8 d)))
      × (10 + n ≤ length d)
      × (name ≡ x.from_utf8_lossy (take n (drop 10 d)))

  -- The first of some items is a reference to the inode `up` by `name`.
  abbrev pub FirstRefers : Items → ℕ → Bytes → Type 0
  FirstRefers [] up name = ⊥
  FirstRefers ((k, d) ∷ xs) up name = (up ≡ k.offset) × HoldsName d name

  -- The parent of an inode, by the first of its references in a tree.
  abbrev pub IsParent : Items → ℕ → ℕ → Bytes → Type 0
  IsParent its ino up name =
      FirstRefers (range (new_key ino inode_ref_key 0) (new_key ino inode_ref_key u64_max) its) up
        name

  -- A chain of parents from an inode up to the root of its tree: how long it is, and the names on it from the root down.
  pub data Ancestry (its : Items) (root : ℕ) : ℕ → ℕ → List Bytes → Type 0 where
    at_root : {ino : ℕ} → ino ≡ root → Ancestry its root 0 ino []
    below :
        {n ino : ℕ} {names : List Bytes} (up : ℕ) (name : Bytes)
        → ino ≢ root
        → IsParent its ino up name
        → Ancestry its root n up names
        → Ancestry its root (suc n) ino (names ++ (name ∷ []))

  inode_ref-HoldsName :
      (k : Key) (d : Bytes) (fs : Filesystem) (up : ℕ) (name : Bytes)
      → inode_ref x fs k d ≡ ok (up, name)
      → (up ≡ k.offset) × HoldsName d name
  unfolding inode_ref u16_at
  inode_ref-HoldsName k d fs up name h =
      let (len, e, h1) = >>=-eq-ok (u16_at d 8) _ h in
      let (raw, e1, h2) = >>=-eq-ok (bytes d 10 len) _ h1 in
      let (s, e2, h3) = >>=-eq-ok (bytes d 8 2) _ e in
      let (_, two, size) = bytes_takes d 8 2 e2 in
      let (fits, cut, _) = bytes_takes d 10 len e1 in
      let read : from_le_bytes s ≡ len = ground (arith, h3, size) in
      let up_is : up ≡ k.offset = ground (arith, h2) in
      let name_is : x.from_utf8_lossy raw ≡ name = ground (arith, h2) in
      (up_is, (len, sym read ∙ ap from_le_bytes two, fits, sym name_is ∙ ap x.from_utf8_lossy cut))

  module _ (fs : Filesystem) where
    -- The visitor of the walk for a parent.
    abbrev keeps : Key → Bytes → Option (ℕ × Bytes) → Result Bool × Option (ℕ × Bytes)
    keeps k d found = keep_ref x fs found (inode_ref x fs k d)

    visit_all-FirstRefers :
        (xs : Items) (up : ℕ) (name : Bytes)
        → finished (visit_all keeps xs none) ≡ (ok tt, some (up, name))
        → FirstRefers xs up name
    unfolding visit_all keep_ref
    visit_all-FirstRefers [] up name h = cc
    visit_all-FirstRefers ((k, d) ∷ xs) up name h = elim (Result-cases (inode_ref x fs k d)) [
      | inl (r, e) ↦
          let same : r ≡ (up, name) = ground (arith, rw e at h) in
          inode_ref-HoldsName k d fs up name (e ∙ ap ok same)
      | inr (z, e) ↦ cc (rw e at h)
    ]

    found_parent :
        (o : Option (ℕ × Bytes)) (c c' : Caches) (up : ℕ × Bytes)
        → ◌≡◌ {A = Result (ℕ × Bytes) × Caches} (or_missing no_parent o, c) (ok up, c')
        → (o ≡ some up) × (c ≡ c')
    unfolding or_missing
    found_parent none c c' up h = cc
    found_parent (some r) c c' up h = (ap some (ground (arith, h)), ap (λ t. t.1) h)

    module _ (h : ℕ) (t : Tree h) (r : TreeRoot) (few : h < 9) (disk : OnDisk x fs h t r.bytenr)
        (ordered : IsOrdered h t) (sorted : IsSorted (items h t)) where
      parent_of-IsParent :
          (ino : ℕ) (up : ℕ × Bytes) (c c' : Caches)
          → IsGood x fs c.nodes
          → parent_of x fs r ino c ≡ (ok up, c')
          → IsParent (items h t) ino up.0 up.1 × IsGood x fs c'.nodes
      unfolding parent_of
      parent_of-IsParent ino up c c' good e =
          let lo = new_key ino inode_ref_key 0 in
          let hi = new_key ino inode_ref_key u64_max in
          let bounds : leb_key lo hi ≡ true = unfold leb_key ltb_key in ground arith in
          let (found, c1, e1, h1) =
            then_next-eq-ok _ (walk_items x fs keeps r.bytenr lo hi none c) e in
          let (some_up, same) = found_parent found c1 c' up h1 in
          let (all, good') =
            walk_items-visit_all x fs keeps lo hi h t r.bytenr none found c c1 bounds few disk
              ordered sorted good e1 in
          (
            visit_all-FirstRefers (range lo hi (items h t)) up.0 up.1
                (all ∙ ap (λ o. (ok tt, o)) some_up),
            subst (λ (u : Caches). IsGood x fs u.nodes) same good',
          )

      -- What a climb gives on top of the parts it starts with.
      abbrev Climbed : ℕ → ℕ → List Bytes → Bytes → Type 0
      Climbed left ino parts p =
          (n : ℕ) × (names : List Bytes) × (n ≤ left)
          × Ancestry (items h t) r.root_dirid n ino names
          × (p ≡ join b'/' (names ++ parts))

      arrived :
          (left ino : ℕ) (parts : List Bytes) (p : Bytes) (c c' : Caches)
          → (ino == r.root_dirid) ≡ true
          → ◌≡◌ {A = Result Bytes × Caches} (ok (join b'/' parts), c) (ok p, c')
          → Climbed left ino parts p
      arrived left ino parts p c c' here e =
          let spelled : join b'/' parts ≡ p = ground (arith, e) in
          (0, [], omega arith, at_root (==→eq ino r.root_dirid here), sym spelled)

      climb-Climbed :
          (left ino : ℕ) (parts : List Bytes) (p : Bytes) (c c' : Caches)
          → IsGood x fs c.nodes
          → climb x fs r left ino parts c ≡ (ok p, c')
          → Climbed left ino parts p
      unfolding climb
      climb-Climbed zero ino parts p c c' good e = elim (Bool-cases (ino == r.root_dirid)) [
        | inl here ↦ arrived zero ino parts p c c' here (rw here at e)
        | inr away ↦ cc (rw away at e)
      ]
      climb-Climbed (suc left) ino parts p c c' good e = elim (Bool-cases (ino == r.root_dirid)) [
        | inl here ↦ arrived (suc left) ino parts p c c' here (rw here at e)
        | inr away ↦
            let (up, c1, e1, e2) = then_next-eq-ok _ (parent_of x fs r ino c) (rw away at e) in
            let (parent, good') = parent_of-IsParent ino up c c1 good e1 in
            let (n, names, less, chain, spelled) =
              climb-Climbed left up.0 (up.1 ∷ parts) p c1 c' good' e2 in
            (
              suc n,
              names ++ (up.1 ∷ []),
              omega (arith, less),
              below up.0 up.1 (λ top. cc (eq→== ino r.root_dirid top, away)) parent chain,
              spelled ∙ ap (join b'/') (sym (append_assoc names (up.1 ∷ []) parts)),
            )
      ]

    -- A path that is given for an inode, in a tree on the devices that is ordered, sorted and of at most nine levels, with good cached nodes once its root is known. It is the names on the chain of parents from the inode up to the root of the tree, at most 4096 of them, from the root down with slashes between; the parent and the name of each inode on the chain are those in the first of its references in the tree, and the chain ends at the first inode that is the root.
    pub path_in_tree-Ancestry :
        (h : ℕ) (t : Tree h) (r : TreeRoot) (tree ino : ℕ) (p : Bytes) (c c0 c' : Caches)
        → tree_root x fs tree c ≡ (ok r, c0)
        → h < 9
        → OnDisk x fs h t r.bytenr
        → IsOrdered h t
        → IsSorted (items h t)
        → IsGood x fs c0.nodes
        → path_in_tree x fs tree ino c ≡ (ok p, c')
        → (n : ℕ) × (names : List Bytes) × (n ≤ 4096)
          × Ancestry (items h t) r.root_dirid n ino names
          × (p ≡ join b'/' names)
    unfolding path_in_tree
    path_in_tree-Ancestry h t r tree ino p c c0 c' root few disk ordered sorted good e =
        let e1 : climb x fs r 4096 ino [] c0 ≡ (ok p, c') = (rw root at e) in
        let (n, names, less, chain, spelled) =
          climb-Climbed h t r few disk ordered sorted 4096 ino [] p c0 c' good e1 in
        (n, names, less, chain, spelled ∙ ap (join b'/') (append-nil names))
