-- ===== src/Fs/Names/Walked.antt =====
-- The walks of `Fs` over a tree that is on the devices.
use btrfs_peek.Prelude.{ℕ, ◌<◌, ◌≡◌, sym, ap, ◌∙◌, Bool, true, arith, Result, ok, err}
use mathlib.Core.Path.{subst}
use btrfs_peek.Disk.Bytes.{Bytes}
use btrfs_peek.Disk.External.{External}
use btrfs_peek.Disk.Keys.{Key, leb_key}
use btrfs_peek.Fs.Mirrors.{Filesystem}
use btrfs_peek.Fs.Blocks.{Cache, read_node}
use btrfs_peek.Fs.Blocks.Cached.{IsGood}
use btrfs_peek.Fs.Walk.{walk}
use btrfs_peek.Fs.Walk.Scan.{scan}
use btrfs_peek.Fs.Walk.Ranges.{IsSorted, range, visit_all, finished, scan-range}
use btrfs_peek.Fs.Walk.Trees.{Tree, items, IsOrdered}
use btrfs_peek.Fs.Walk.Refines.{Agrees, walk-scan}
use btrfs_peek.Fs.Items.{out_of}
use btrfs_peek.Fs.Items.Get.{OnDisk, OnDisk-Holds}
use btrfs_peek.Fs.Names.{Caches, walk_items, with_nodes}

module _ (x : External) (fs : Filesystem) where
  out_of-finished :
      {S : Type 0} (w : Result Bool × Cache × S) (r : Result Bool × S) (s : Caches) (out : S)
      (t : Caches)
      → Agrees (IsGood x fs) w r
      → with_nodes s (out_of w) ≡ (ok out, t)
      → (finished r ≡ (ok tt, out)) × IsGood x fs t.nodes
  unfolding with_nodes
  out_of-finished w (ok b, end) s out t (c, e, g) h =
      let h1 : ◌≡◌ {A = Result _ × Caches} (ok end, record s { nodes = c }) (ok out, t) =
        (rw e at h) in
      let same : end ≡ out = ground (arith, h1) in
      (ap (λ u. (ok tt, u)) same, subst (λ (u : Caches). IsGood x fs u.nodes) (ap (λ p. p.1) h1) g)
  out_of-finished w (err z, end) s out t (c, e, g) h = cc (rw e at h)

  -- A walk that goes through leaves what its visitor makes of the items in the range.
  pub walk_items-visit_all :
      {S : Type 0} (visit : Key → Bytes → S → Result Bool × S) (lo hi : Key) (h : ℕ) (t : Tree h)
      (root : ℕ) (s out : S) (c c' : Caches)
      → leb_key lo hi ≡ true
      → h < 9
      → OnDisk x fs h t root
      → IsOrdered h t
      → IsSorted (items h t)
      → IsGood x fs c.nodes
      → walk_items x fs visit root lo hi s c ≡ (ok out, c')
      → (finished (visit_all visit (range lo hi (items h t)) s) ≡ (ok tt, out))
        × IsGood x fs c'.nodes
  unfolding walk_items
  walk_items-visit_all visit lo hi h t root s out c c' bounds few disk ordered sorted good e =
      let (all, good') =
        out_of-finished (walk visit lo hi (read_node x fs) root c.nodes s)
          (scan visit lo hi (items h t) s) c out c'
          (walk-scan visit lo hi (read_node x fs) (IsGood x fs) h t root c.nodes s bounds few
            (OnDisk-Holds x fs h t root disk) ordered good)
          e in
      (sym (scan-range visit lo hi (items h t) s sorted) ∙ all, good')
