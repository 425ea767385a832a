-- ===== src/Fs/Names/Lookup.antt =====
-- What a lookup of a name finds.
use btrfs_peek.Prelude.{
  ◌≡◌, refl, inl, inr, false, Option, none, some, List, [], ◌∷◌, arith, Result, ok, then_next-eq-ok,
  ◌==◌, Bool-cases,
}
use btrfs_peek.Disk.Bytes.{Bytes}
use btrfs_peek.Disk.External.{External, eq_bytes, eq_bytes→eq}
use btrfs_peek.Disk.Keys.{new_key, dir_item_key, root_item_key, root_ref_key}
use btrfs_peek.Disk.DirEntries.{DirEntry, parse_dir_entries, name_hash}
use btrfs_peek.Fs.Mirrors.{Filesystem}
use btrfs_peek.Fs.Names.{
  Loc, Entry, Caches, done, pure_step, and_do, is_placeholder, find_entry, subvol_entry,
  plain_entry, tree_root, get_item, linked_entry, entry_of, found_entry, in_item, named, lookup,
}

find_entry-name :
    (name : Bytes) (es : List DirEntry) (e : DirEntry) → find_entry name es ≡ some e → e.name ≡ name
unfolding find_entry
find_entry-name name [] e h = cc
find_entry-name name (d ∷ es) e h = elim (Bool-cases (eq_bytes d.name name)) [
  | inl same ↦
      let f : d ≡ e = ground (arith, (rw same at h)) in rw f at (eq_bytes→eq d.name name same)
  | inr other ↦ find_entry-name name es e (rw other at h)
]

-- What an entry of a directory may be: a name in the same tree, or a subvolume.
pub record IsEntryOf (dir : Loc) (name : Bytes) (e : Entry) : Type 0 where
  pub same_name : e.name ≡ name
  pub same_tree : e.subvol ≡ false → e.loc.tree ≡ dir.tree

result_of :
    {A : Type 0} {a b : A} {c c' : Caches}
    → ◌≡◌ {A = Result A × Caches} (ok a, c) (ok b, c')
    → a ≡ b
result_of h = ground (arith, h)

subvol-IsEntryOf :
    (dir : Loc) (name : Bytes) (e : DirEntry) (loc : Loc)
    → e.name ≡ name
    → IsEntryOf dir name (subvol_entry e loc)
subvol-IsEntryOf dir name e loc h = record { same_name = h; same_tree = λ f. cc f }

module _ (x : External) (fs : Filesystem) (dir : Loc) (name : Bytes) where
  linked_entry-IsEntryOf :
      (e : DirEntry) (found : Option Bytes) (c c' : Caches) (r : Entry)
      → e.name ≡ name
      → linked_entry x fs e found c ≡ (ok r, c')
      → IsEntryOf dir name r
  unfolding linked_entry
  linked_entry-IsEntryOf e none c c' r same h =
      let f : subvol_entry e _ ≡ r = result_of h in rw (← f) (subvol-IsEntryOf dir name e _ same)
  linked_entry-IsEntryOf e (some item) c c' r same h =
      let child = e.location.objectid in
      let (t, c1, g, h1) =
        then_next-eq-ok (λ t. done (subvol_entry e (record { tree = child; ino = t.root_dirid })))
          (tree_root x fs child c) h in
      let f : subvol_entry e (record { tree = child; ino = t.root_dirid }) ≡ r = result_of h1 in
      rw (← f) (subvol-IsEntryOf dir name e _ same)

  entry_of-IsEntryOf :
      (e : DirEntry) (c c' : Caches) (r : Entry)
      → e.name ≡ name
      → entry_of x fs dir e c ≡ (ok r, c')
      → IsEntryOf dir name r
  unfolding entry_of
  entry_of-IsEntryOf e c c' r same h = elim (Bool-cases (e.location.ty == root_item_key)) [
    | inl subvol ↦
        let key = new_key dir.tree root_ref_key e.location.objectid in
        let (found, c1, f, h1) =
          then_next-eq-ok (linked_entry x fs e) (get_item x fs fs.sb.root key c) (rw subvol at h) in
        linked_entry-IsEntryOf e found c1 c' r same h1
    | inr plain ↦
        let f : plain_entry dir e ≡ r = result_of (rw plain at h) in
        rw (← f) (record { same_name = same; same_tree = λ g. refl })
  ]

  found_entry-IsEntryOf :
      (o : Option DirEntry) (c c' : Caches) (r : Entry)
      → ((e : DirEntry) → o ≡ some e → e.name ≡ name)
      → found_entry x fs dir o c ≡ (ok (some r), c')
      → IsEntryOf dir name r
  unfolding found_entry
  found_entry-IsEntryOf none c c' r same h = cc h
  found_entry-IsEntryOf (some e) c c' r same h =
      let (e', c1, f, h1) = then_next-eq-ok (λ t. done (some t)) (entry_of x fs dir e c) h in
      let g : some e' ≡ some r = result_of h1 in
      let g' : e' ≡ r = ground (arith, g) in rw g' at (entry_of-IsEntryOf e c c1 e' (same e refl) f)

  in_item-IsEntryOf :
      (o : Option Bytes) (c c' : Caches) (r : Entry)
      → in_item x fs dir name o c ≡ (ok (some r), c')
      → IsEntryOf dir name r
  unfolding in_item
  in_item-IsEntryOf none c c' r h = cc h
  in_item-IsEntryOf (some item) c c' r h =
      let (es, c1, f, h1) =
        then_next-eq-ok (λ es. found_entry x fs dir (find_entry name es))
          (pure_step (parse_dir_entries item) c) h in
      found_entry-IsEntryOf (find_entry name es) c1 c' r (λ e g. find_entry-name name es e g) h1

  -- A lookup in a directory that finds an entry finds one with exactly the name asked for, although an item holds all the names with one hash, and unless the entry is a subvolume it lies in the tree of the directory.
  pub lookup-IsEntryOf :
      (c c' : Caches) (r : Entry)
      → lookup x fs dir name c ≡ (ok (some r), c')
      → IsEntryOf dir name r
  unfolding lookup named
  lookup-IsEntryOf c c' r h = elim (Bool-cases (is_placeholder dir)) [
    | inl placeholder ↦ cc (rw placeholder at h)
    | inr real ↦
        let (t, c1, f, h1) =
          then_next-eq-ok
            (λ t.
              and_do (get_item x fs t.bytenr (new_key dir.ino dir_item_key (name_hash x name)))
                (in_item x fs dir name))
            (tree_root x fs dir.tree c) (rw real at h) in
        let (found, c2, g, h2) =
          then_next-eq-ok (in_item x fs dir name)
            (get_item x fs t.bytenr (new_key dir.ino dir_item_key (name_hash x name)) c1) h1 in
        in_item-IsEntryOf found c2 c' r h2
  ]
