-- ===== src/Fs/Files/Resolved.antt =====
-- What a path resolves to.
use btrfs_peek.Prelude.{
  ◌≡◌, refl, ap, ◌∙◌, ◌≢◌, ◌⊎◌, inl, inr, true, false, Option, none, some, List, [], ◌∷◌, arith, ok,
  then_next-eq-ok, Bool-cases,
}
use mathlib.Core.Path.{subst}
use btrfs_peek.Disk.Bytes.{Bytes}
use btrfs_peek.Disk.External.{External, eq_bytes, eq_bytes→eq, eq_bytes_refl}
use btrfs_peek.Disk.Inodes.{Inode, is_dir, is_symlink_inode}
use btrfs_peek.Decompress.{Decoders}
use btrfs_peek.Fs.Mirrors.{Filesystem}
use btrfs_peek.Fs.Names.{Loc, Entry, is_placeholder, root_loc, inode_of, lookup}
use btrfs_peek.Fs.Files.Parts.{ArePartsOf, path_parts-ArePartsOf}
use btrfs_peek.Fs.Files.{
  Memory, Read, by_caches, path_parts, pop_stack, refuse_inode, check_directory,
  read_symlink_target, entered, resolve_parts, resolve,
}

abbrev pub dots : Bytes
dots = b'.' ∷ b'.' ∷ []

module _ (x : External) (dec : Decoders) (fs : Filesystem) where
  -- A location whose names can be looked up, and the memory once that is known: the stand-in for a subvolume, or a directory.
  abbrev pub IsSearchable : Memory → Loc → Memory → Type 0
  IsSearchable s dir t =
      ((is_placeholder dir ≡ true) × (s ≡ t))
      ⊎ ((inode : Inode) × (by_caches (inode_of x fs dir) s ≡ (ok inode, t))
          × (is_dir inode ≡ true)
          × (is_symlink_inode inode ≡ false))

  -- From a location, with those above it, along the parts of a path: the memory at the start, and that at the end.
  pub data Follows : Memory → Loc → List Loc → List Bytes → Loc → Memory → Type 0 where
    stop : {s : Memory} {dir : Loc} {above : List Loc} → Follows s dir above [] dir s
    up :
        {s t : Memory} {dir parent end : Loc} {above : List Loc} {part : Bytes} {parts : List Bytes}
        → part ≡ dots
        → Follows s parent above parts end t
        → Follows s dir (parent ∷ above) (part ∷ parts) end t
    at_top :
        {s t : Memory} {dir end : Loc} {part : Bytes} {parts : List Bytes}
        → part ≡ dots
        → Follows s dir [] parts end t
        → Follows s dir [] (part ∷ parts) end t
    down :
        {s s1 s2 t : Memory} {dir end : Loc} {above : List Loc} {part : Bytes} {parts : List Bytes}
        (e : Entry)
        → part ≢ dots
        → IsSearchable s dir s1
        → by_caches (lookup x fs dir part) s1 ≡ (ok (some e), s2)
        → Follows s2 e.loc (dir ∷ above) parts end t
        → Follows s dir above (part ∷ parts) end t

  refuse_inode-eq-ok :
      (dir : Loc) (inode : Inode) (s s' : Memory) (u : Unit {0})
      → refuse_inode x dec fs dir inode s ≡ (ok u, s')
      → (is_dir inode ≡ true) × (is_symlink_inode inode ≡ false) × (s ≡ s')
  unfolding refuse_inode
  refuse_inode-eq-ok dir inode s s' u h = elim (Bool-cases (is_symlink_inode inode)) [
    | inl link ↦
        let (t, s1, e, h1) =
          then_next-eq-ok _ (read_symlink_target x dec fs dir s) (rw link at h) in
        cc
    | inr other ↦ elim (Bool-cases (is_dir inode)) [
      | inl directory ↦
          let h1 : (ok tt, s) ≡ (ok u, s') = (rw (other, directory) at h) in
          (directory, other, ap (λ t. t.1) h1)
      | inr file ↦ cc (rw (other, file) at h)
    ]
  ]

  check_directory-IsSearchable :
      (dir : Loc) (s s' : Memory) (u : Unit {0})
      → check_directory x dec fs dir s ≡ (ok u, s')
      → IsSearchable s dir s'
  unfolding check_directory
  check_directory-IsSearchable dir s s' u h = elim (Bool-cases (is_placeholder dir)) [
    | inl standin ↦
        let h1 : (ok tt, s) ≡ (ok u, s') = (rw standin at h) in inl (standin, ap (λ t. t.1) h1)
    | inr real ↦
        let (inode, s1, e, h1) =
          then_next-eq-ok _ (by_caches (inode_of x fs dir) s) (rw real at h) in
        let (directory, other, same) = refuse_inode-eq-ok dir inode s1 s' u h1 in
        inr (inode, e ∙ ap (λ t. (ok inode, t)) same, directory, other)
  ]

  entered-eq-ok :
      (next : Loc → Read Loc) (found : Option Entry) (s s' : Memory) (end : Loc)
      → entered x dec fs next found s ≡ (ok end, s')
      → (f : Entry) × (found ≡ some f) × (next f.loc s ≡ (ok end, s'))
  unfolding entered
  entered-eq-ok next none s s' end h = cc
  entered-eq-ok next (some f) s s' end h = (f, refl, h)

  is_dots : (part : Bytes) → eq_bytes part dots ≡ false → part ≢ dots
  is_dots part other same = cc (ap (λ t. eq_bytes t dots) same, eq_bytes_refl dots, other)

  stepped_down :
      (part : Bytes) (parts : List Bytes) (dir end : Loc) (above : List Loc) (s s1 s2 t : Memory)
      (found : Option Entry) (f : Entry)
      → part ≢ dots
      → IsSearchable s dir s1
      → by_caches (lookup x fs dir part) s1 ≡ (ok found, s2)
      → found ≡ some f
      → Follows s2 f.loc (dir ∷ above) parts end t
      → Follows s dir above (part ∷ parts) end t
  stepped_down part parts dir end above s s1 s2 t found f other searchable looked there rest =
      down f other searchable (looked ∙ ap (λ o. (ok o, s2)) there) rest

  stepped_back :
      (part : Bytes) (parts : List Bytes) (dir end : Loc) (above : List Loc) (s s' : Memory)
      → part ≡ dots
      → Follows s (pop_stack dir above).0 (pop_stack dir above).1 parts end s'
      → Follows s dir above (part ∷ parts) end s'
  unfolding pop_stack
  stepped_back part parts dir end [] s s' back rest = at_top back rest
  stepped_back part parts dir end (parent ∷ above) s s' back rest = up back rest

  resolve_parts-Follows :
      (parts : List Bytes) (dir end : Loc) (above : List Loc) (s s' : Memory)
      → resolve_parts x dec fs parts dir above s ≡ (ok end, s')
      → Follows s dir above parts end s'
  unfolding resolve_parts
  resolve_parts-Follows [] dir end above s s' h =
      let same : dir ≡ end = ground (arith, h) in
      subst (λ l. Follows s dir above [] l s') same
        (subst (λ t. Follows s dir above [] dir t) (ap (λ t. t.1) h) stop)
  resolve_parts-Follows (part ∷ parts) dir end above s s' h =
      elim (Bool-cases (eq_bytes part dots)) [
        | inl back ↦ stepped_back part parts dir end above s s' (eq_bytes→eq part dots back) (
            resolve_parts-Follows parts (pop_stack dir above).0 end (pop_stack dir above).1 s s'
              (rw back at h))
        | inr on ↦
            let (u, s1, e, h1) = then_next-eq-ok _ (check_directory x dec fs dir s) (rw on at h) in
            let (found, s2, e2, h2) = then_next-eq-ok _ (by_caches (lookup x fs dir part) s1) h1 in
            let (f, there, h3) =
              entered-eq-ok (λ loc. resolve_parts x dec fs parts loc (dir ∷ above)) found s2 s' end
                h2 in
            stepped_down part parts dir end above s s1 s2 s' found f (is_dots part on)
              (check_directory-IsSearchable dir s s1 u e) e2 there
              (resolve_parts-Follows parts f.loc end (dir ∷ above) s2 s' h3)
      ]

  -- A path that resolves was followed part by part, the parts being what is between its slashes of either kind without the empty pieces and the single dots, from the root of the top-level subvolume, the memory of each step being what the one before left: `..` leads back to the location above, and at the root to itself; every other part is looked up in a directory or in the stand-in for a subvolume, never through a symbolic link, and leads to the entry that was found.
  pub resolve-Follows :
      (path : Bytes) (loc : Loc) (s s' : Memory)
      → resolve x dec fs path s ≡ (ok loc, s')
      → (parts : List Bytes) × ArePartsOf path parts
        × ((root : Loc) × (s1 : Memory) × (by_caches (root_loc x fs) s ≡ (ok root, s1))
            × Follows s1 root [] parts loc s')
  unfolding resolve
  resolve-Follows path loc s s' h =
      let (root, s1, e, h1) = then_next-eq-ok _ (by_caches (root_loc x fs) s) h in
      (
        path_parts path,
        path_parts-ArePartsOf path,
        (root, s1, e, resolve_parts-Follows (path_parts path) root loc [] s1 s' h1),
      )
