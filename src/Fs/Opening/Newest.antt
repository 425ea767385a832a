-- ===== src/Fs/Opening/Newest.antt =====
-- Which superblock a filesystem is opened with.
use btrfs_peek.Prelude.{
  ◌≤◌, bit_and, ◌≡◌, refl, sym, ap, ◌∙◌, ◌⊎◌, inl, inr, true, Option, none, some, List, [], ◌∷◌,
  arith, Result, ok, err, ◌>>=◌, >>=-eq-ok, guard, guard-eq-ok, length, All, ltb, ◌==◌, ==→eq,
  Bool-cases, other_filesystem, refused_features,
}
use mathlib.Core.Path.{subst}
use btrfs_peek.Disk.Chunks.{Chunk}
use btrfs_peek.Disk.Bytes.{Bytes}
use btrfs_peek.Disk.External.{External, eq_bytes→eq}
use btrfs_peek.Disk.Superblocks.{
  Superblock, parse_superblock, super_offset, super_size, incompat_refused,
}
use btrfs_peek.Dev.{Device, read}
use btrfs_peek.Fs.Mirrors.{Filesystem}
use btrfs_peek.Fs.Blocks.{Cache}
use btrfs_peek.Fs.Opening.{
  Gathered, same_fsid, newer_of, gather_one, gather, or_unopened, some_device, system_chunks,
  bootstrap, with_chunks, read_chunk_tree, open_fs,
}

module _ (x : External) where
  -- A device that was opened, with the superblock that its bytes give.
  abbrev pub Holds : Result Device → Superblock → Type 0
  Holds opened sb =
      (d : Device) × (raw : Bytes) × (opened ≡ ok d)
      × (read d super_offset super_size ≡ ok raw)
      × (parse_superblock x raw ≡ ok sb)

  -- A device of the filesystem that `best` describes: none of its devices is newer.
  abbrev pub IsMember : Superblock → Result Device → Type 0
  IsMember best opened =
      (sb : Superblock) × Holds opened sb
      × (sb.fsid ≡ best.fsid)
      × (sb.generation ≤ best.generation)

  gather_one_lem :
      (opened : Result Device) (g g' : Gathered)
      → gather_one x opened g ≡ ok g'
      → (sb : Superblock) × Holds opened sb
        × (same_fsid g.1 sb ≡ true)
        × (g'.1 ≡ some (newer_of g.1 sb))
  unfolding gather_one
  gather_one_lem opened (devs, best) g' h =
      let (d, e0, h0) = >>=-eq-ok opened _ h in
      let (raw, e1, h1) = >>=-eq-ok (read d super_offset super_size) _ h0 in
      let (sb, e2, h2) = >>=-eq-ok (parse_superblock x raw) _ h1 in
      let (u, e3, h3) = >>=-eq-ok (guard (same_fsid best sb) other_filesystem) _ h2 in
      (
        sb,
        (d, raw, e0, e1, e2),
        guard-eq-ok (same_fsid best sb) other_filesystem e3,
        ground (arith, h3),
      )

  abbrev pub IsSuccessor : Superblock → Superblock → Type 0
  IsSuccessor best b = (b.fsid ≡ best.fsid) × (b.generation ≤ best.generation)

  newer_of-IsSuccessor :
      (b sb : Superblock)
      → same_fsid (some b) sb ≡ true
      → IsSuccessor (newer_of (some b) sb) b × IsSuccessor (newer_of (some b) sb) sb
  newer_of-IsSuccessor b sb h =
      let same = eq_bytes→eq b.fsid sb.fsid h in
      elim (Bool-cases (ltb b.generation sb.generation)) [
        | inl newer ↦ rw newer ((same, ground (arith, newer)), (refl, omega arith))
        | inr older ↦ rw older ((refl, omega arith), (sym same, ground (arith, older)))
      ]

  abbrev pub HeldBy : Superblock → List (Result Device) → Type 0
  HeldBy sb [] = ⊥
  HeldBy sb (d ∷ ds) = Holds d sb ⊎ HeldBy sb ds

  -- From a best superblock on: the devices' best one.
  pub record Best (b : Superblock) (ds : List (Result Device)) (o : Option Superblock)
      : Type 0 where
    pub best : Superblock
    pub is_best : o ≡ some best
    pub grows : IsSuccessor best b
    pub members : All (IsMember best) ds
    pub held : (best ≡ b) ⊎ HeldBy best ds

  newer_of-cases : (b sb : Superblock) → (newer_of (some b) sb ≡ b) ⊎ (newer_of (some b) sb ≡ sb)
  newer_of-cases b sb = elim (Bool-cases (ltb b.generation sb.generation)) [
    | inl newer ↦ inr (rw newer refl)
    | inr older ↦ inl (rw older refl)
  ]

  held_first :
      (d : Result Device) (ds : List (Result Device)) (b sb best : Superblock)
      → Holds d sb
      → (best ≡ newer_of (some b) sb) ⊎ HeldBy best ds
      → (best ≡ b) ⊎ HeldBy best (d ∷ ds)
  held_first d ds b sb best holds (inr later) = inr (inr later)
  held_first d ds b sb best holds (inl e) = elim (newer_of-cases b sb) [
    | inl old ↦ inl (e ∙ old)
    | inr new ↦ inr (inl (rw (e ∙ new) holds))
  ]

  gather-Best :
      (ds : List (Result Device)) (g g' : Gathered) (b : Superblock)
      → g.1 ≡ some b
      → gather x ds g ≡ ok g'
      → Best b ds g'.1
  unfolding gather
  gather-Best [] g g' b e h =
      let same : g.1 ≡ g'.1 = ground (arith, h) in
      record {
        best = b;
        is_best = sym same ∙ e;
        grows = (refl, omega arith);
        members = tt;
        held = inl refl;
      }
  gather-Best (d ∷ ds) g g' b e h =
      let (g1, e1, h1) = >>=-eq-ok (gather_one x d g) _ h in
      let (sb, holds, same, newer) = gather_one_lem d g g1 e1 in
      let rest =
        gather-Best ds g1 g' (newer_of (some b) sb) (newer ∙ ap (λ o. some (newer_of o sb)) e) h1 in
      let (up, (like, older)) = newer_of-IsSuccessor b sb (rw e at same) in
      record {
        best = rest.best;
        is_best = rest.is_best;
        grows = (up.0 ∙ rest.grows.0, omega (arith, up.1, rest.grows.1));
        members =
            ((sb, holds, like ∙ rest.grows.0, omega (arith, older, rest.grows.1)), rest.members);
        held = held_first d ds b sb rest.best holds rest.held;
      }

  -- What the devices of an open filesystem are to its superblock.
  pub record IsNewest (sb : Superblock) (ds : List (Result Device)) : Type 0 where
    pub members : All (IsMember sb) ds
    pub held : HeldBy sb ds
    pub supported : bit_and sb.incompat_flags incompat_refused ≡ 0

  first_held :
      (d : Result Device) (ds : List (Result Device)) (sb best : Superblock)
      → Holds d sb
      → (best ≡ sb) ⊎ HeldBy best ds
      → HeldBy best (d ∷ ds)
  first_held d ds sb best holds (inl e) = inl (rw e holds)
  first_held d ds sb best holds (inr later) = inr later

  abbrev pub Leads : Superblock → List (Result Device) → Type 0
  Leads sb ds = All (IsMember sb) ds × HeldBy sb ds

  Best-Leads :
      (d : Result Device) (ds : List (Result Device)) (sb used : Superblock) (o : Option Superblock)
      → Holds d sb
      → Best sb ds o
      → or_unopened o ≡ ok used
      → Leads used (d ∷ ds)
  unfolding or_unopened
  Best-Leads d ds sb used o holds b h =
      let found : used ≡ b.best = ground (arith, (rw b.is_best at h)) in
      let leads : Leads b.best (d ∷ ds) =
        (((sb, holds, b.grows.0, b.grows.1), b.members), first_held d ds sb b.best holds b.held) in
      subst (λ u. Leads u (d ∷ ds)) (sym found) leads

  -- Where a filesystem is read up to its chunk tree, it has no feature that is refused; every device given to it was opened, and its superblock was read and parses, belongs to the same filesystem, and is no newer than the one that is used; and that one was read from a device given to it.
  pub bootstrap-IsNewest :
      (ds : List (Result Device)) (fs : Filesystem) → bootstrap x ds ≡ ok fs → IsNewest fs.sb ds
  unfolding bootstrap some_device gather or_unopened
  bootstrap-IsNewest [] fs h = cc
  bootstrap-IsNewest (d ∷ ds) fs h =
      let (g, e0, h0) = >>=-eq-ok (gather_one x d ([], none) >>= gather x ds) _ h in
      let (g1, e1, h1) = >>=-eq-ok (gather_one x d ([], none)) _ e0 in
      let (sb, holds, same, newer) = gather_one_lem d ([], none) g1 e1 in
      let best = gather-Best ds g1 g sb newer h1 in
      let (used, e2, h2) = >>=-eq-ok (or_unopened g.1) _ h0 in
      let (u, e3, h3) =
        >>=-eq-ok (guard (bit_and used.incompat_flags incompat_refused == 0) refused_features) _
          h2 in
      let (chunks, e4, h4) =
        >>=-eq-ok (system_chunks used.sys_chunk_array (length used.sys_chunk_array) 0 []) _ h3 in
      let opened : used ≡ fs.sb = ground (arith, h4) in
      let leads : Leads fs.sb (d ∷ ds) =
        subst (λ u. Leads u (d ∷ ds)) opened (Best-Leads d ds sb used g.1 holds best e2) in
      record {
        members = leads.0;
        held = leads.1;
        supported =
            (rw opened at (
              ==→eq (bit_and used.incompat_flags incompat_refused) 0 (
                guard-eq-ok (bit_and used.incompat_flags incompat_refused == 0) refused_features
                  e3)));
      }

  with_chunks_lem :
      (fs fs' : Filesystem) (w : Result (List Chunk) × Cache) (nodes : Cache)
      → with_chunks fs w ≡ (ok fs', nodes)
      → fs'.sb ≡ fs.sb
  unfolding with_chunks
  with_chunks_lem fs fs' (ok found, c) nodes h = ground (arith, h)
  with_chunks_lem fs fs' (err e, c) nodes h = cc

  read_chunk_tree_lem :
      (r : Result Filesystem) (fs : Filesystem) (nodes : Cache)
      → read_chunk_tree x r ≡ (ok fs, nodes)
      → (before : Filesystem) × (r ≡ ok before) × (fs.sb ≡ before.sb)
  unfolding read_chunk_tree
  read_chunk_tree_lem (ok before) fs nodes h = (before, refl, with_chunks_lem before fs _ nodes h)
  read_chunk_tree_lem (err e) fs nodes h = cc

  -- The same of a filesystem that opens, chunk tree included.
  pub open_fs-IsNewest :
      (ds : List (Result Device)) (fs : Filesystem) (nodes : Cache)
      → open_fs x ds ≡ (ok fs, nodes)
      → IsNewest fs.sb ds
  unfolding open_fs
  open_fs-IsNewest ds fs nodes h =
      let (before, e, same) = read_chunk_tree_lem (bootstrap x ds) fs nodes h in
      subst (λ sb. IsNewest sb ds) (sym same) (bootstrap-IsNewest ds before e)
