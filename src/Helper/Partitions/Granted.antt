-- ===== src/Helper/Partitions/Granted.antt =====
-- Which files the service opens.
use btrfs_peek.Prelude.{
  ℕ, ◌+◌, ◌≤◌, ◌≡◌, refl, sym, ap, ◌∙◌, ◌↔◌, inl, inr, Bool, true, some, [], arith, Result, ok, err,
  match_result, ascii, length, take, drop, length-take, length-drop, ltb, if◌then◌else◌, Bool-cases,
  Result-cases,
}
use mathlib.Core.Path.{subst}
use btrfs_peek.Disk.Bytes.{Bytes}
use btrfs_peek.Disk.External.{External}
use btrfs_peek.Disk.Superblocks.{Superblock, parse_superblock, super_offset, super_size}
use btrfs_peek.Dev.{Device}
use btrfs_peek.Dev.Content.{IsDisk, read_loop-take}
use btrfs_peek.Helper.Versions.{Text}
use btrfs_peek.Helper.Paths.{partition_path_ok}
use btrfs_peek.Helper.Paths.Shapes.{IsPartition, partition_path_ok-IsPartition}
use btrfs_peek.Helper.Updates.{Update}
use btrfs_peek.Helper.Wire.{Conn}
use btrfs_peek.Helper.Server.Serving.{serve_client-Serves}
use btrfs_peek.Helper.Server.Steps.{ReadsFit, IsGranted}
use btrfs_peek.Helper.Server.{Host, serve_client, max_path, path_refused, Outcome, succeeded}
use btrfs_peek.Helper.Partitions.{
  Opening, opening_of, no_such_file, opening_failed, Files, refuse, checked_superblock,
  superblock_of, with_file, open_partition,
}

module _ (x : External) (files : Files) where
  superblock_of-take :
      (d : Device) (disk : Bytes)
      → IsDisk d disk
      → superblock_of x files d ≡ ok (take super_size (drop super_offset disk))
  unfolding superblock_of
  superblock_of-take d disk holds =
      read_loop-take d disk holds super_offset super_size (d.retries + super_size) 0 [] refl
        (omega arith) (omega arith)

  -- The superblock of a disk is whole and parses.
  abbrev pub HasSuperblock : Bytes → Type 0
  HasSuperblock disk =
      (super_offset + super_size ≤ length disk)
      × ((sb : Superblock) × (parse_superblock x (take super_size (drop super_offset disk))
            ≡ ok sb))

  parsed :
      (path : Text) (d d' : Device) (b : Bytes) (r : Result Superblock)
      → parse_superblock x b ≡ r
      → match_result
          (λ e. refuse x files path_refused path (ascii ": not a btrfs partition"))
          (λ s. succeeded d')
          r
        ≡ succeeded d
      → (d' ≡ d) × ((sb : Superblock) × (parse_superblock x b ≡ ok sb))
  parsed path d d' b (ok sb) e h = (cc, (sb, e))
  parsed path d d' b (err z) e h = cc

  checked_superblock-succeeded :
      (path : Text) (d d' : Device) (b : Bytes)
      → checked_superblock x files path d' b ≡ succeeded d
      → (d' ≡ d) × (super_size ≤ length b) × ((sb : Superblock) × (parse_superblock x b ≡ ok sb))
  unfolding checked_superblock
  checked_superblock-succeeded path d d' b h = elim (Bool-cases (ltb (length b) super_size)) [
    | inl short ↦ cc (rw short at h)
    | inr whole ↦
        let (same, (sb, e)) = parsed path d d' b (parse_superblock x b) refl (rw whole at h) in
        (same, ground (arith, whole), (sb, e))
  ]

  -- What was opened and read where a file is granted.
  abbrev pub Grants : Opening → Device → Bytes → Type 0
  Grants o d b =
      (o ≡ opening_of d)
      × (superblock_of x files d ≡ ok b)
      × (super_size ≤ length b)
      × ((sb : Superblock) × (parse_superblock x b ≡ ok sb))

  with_file-Grants :
      (path : Text) (o : Opening) (d : Device)
      → with_file x files path o ≡ succeeded d
      → (b : Bytes) × Grants o d b
  unfolding with_file
  with_file-Grants path (opening_of d') d h = elim (Result-cases (superblock_of x files d')) [
    | inl (b, e) ↦
        let (same, whole, parses) = checked_superblock-succeeded path d d' b (rw e at h) in
        (b, (ap opening_of same, ap (superblock_of x files) (sym same) ∙ e, whole, parses))
    | inr (z, e) ↦ cc (rw e at h)
  ]
  with_file-Grants path no_such_file d h = cc
  with_file-Grants path (opening_failed why) d h = cc

  with_file-succeeded :
      (path : Text) (o : Opening) (d : Device) (disk : Bytes)
      → IsDisk d disk
      → with_file x files path o ≡ succeeded d
      → (o ≡ opening_of d) × HasSuperblock disk
  with_file-succeeded path o d disk holds h =
      let (b, (opens, found, whole, (sb, e))) = with_file-Grants path o d h in
      let same : b ≡ take super_size (drop super_offset disk) =
        ground (arith, sym found ∙ superblock_of-take d disk holds) in
      let size : length b ≡ length (take super_size (drop super_offset disk)) = ap length same in
      (
        opens,
        (
          omega (
            arith,
            size,
            whole,
            length-take super_size (drop super_offset disk),
            length-drop super_offset disk,
          ),
          (sb, (rw same at e)),
        ),
      )

  succeeded-with_file :
      (path : Text) (d : Device) (disk : Bytes)
      → IsDisk d disk
      → HasSuperblock disk
      → with_file x files path (opening_of d) ≡ succeeded d
  unfolding with_file checked_superblock
  succeeded-with_file path d disk holds (whole, (sb, e)) =
      let size : length (take super_size (drop super_offset disk)) ≡ super_size = omega (
        arith,
        length-take super_size (drop super_offset disk),
        length-drop super_offset disk,
        whole,
      ) in
      rw (superblock_of-take d disk holds, size, e) refl

  -- Of a file that holds `disk`: it is granted exactly where the path names a partition that opens as it, and the superblock at 64 KiB is whole and parses.
  pub open_partition-HasSuperblock :
      (path : Text) (d : Device) (disk : Bytes)
      → IsDisk d disk
      → (open_partition x files path ≡ succeeded d) ↔ (
          ((n : Text) × (m : Text) × IsPartition path n m)
          × (files.open_file path ≡ opening_of d)
          × HasSuperblock disk)
  unfolding open_partition
  open_partition-HasSuperblock path d disk holds = (granted, grants)
    where
      granted :
          (if partition_path_ok path
              then with_file x files path (files.open_file path)
              else refuse x files path_refused path (
                  ascii
                    ": the helper opens only partitions named \\\\.\\HarddiskNPartitionM (M >= 1)"))
            ≡ succeeded d
          → ((n : Text) × (m : Text) × IsPartition path n m)
            × (files.open_file path ≡ opening_of d)
            × HasSuperblock disk
      granted h = elim (Bool-cases (partition_path_ok path)) [
        | inl named ↦
            let (opens, holds) =
              with_file-succeeded path (files.open_file path) d disk holds (rw named at h) in
            ((partition_path_ok-IsPartition path).0 named, opens, holds)
        | inr other ↦ cc (rw other at h)
      ]

      grants :
          ((n : Text) × (m : Text) × IsPartition path n m)
            × (files.open_file path ≡ opening_of d)
            × HasSuperblock disk
          → (if partition_path_ok path
              then with_file x files path (files.open_file path)
              else refuse x files path_refused path (
                  ascii
                    ": the helper opens only partitions named \\\\.\\HarddiskNPartitionM (M >= 1)"))
            ≡ succeeded d
      grants (named, opens, whole) =
          rw ((partition_path_ok-IsPartition path).1 named, opens)
            (succeeded-with_file path d disk holds whole)

  open_partition-Grants :
      (path : Text) (d : Device)
      → open_partition x files path ≡ succeeded d
      → ((n : Text) × (m : Text) × IsPartition path n m)
        × ((b : Bytes) × Grants (files.open_file path) d b)
  unfolding open_partition
  open_partition-Grants path d h = elim (Bool-cases (partition_path_ok path)) [
    | inl named ↦ (
      (partition_path_ok-IsPartition path).0 named,
      with_file-Grants path (files.open_file path) d (rw named at h),
    )
    | inr other ↦ cc (rw other at h)
  ]

  -- The service's host: it opens partitions.
  abbrev pub host_of :
      (Device → ℕ → ℕ → Outcome Text Bytes)
      → (ℕ → Outcome Text Update)
      → (Bytes → Bool)
      → Text
      → Host
  host_of reads update is_utf8 version = record {
    File = Device;
    open_path = open_partition x files;
    read_file = reads;
    run_update = update;
    is_utf8 = is_utf8;
    version = version;
  }

  -- Whatever the client sends, and where reads give no more bytes than there is room for: a device that is open at the end of its session is one that a path of a partition opened, a path that is UTF-8 and not longer than the limit, and the superblock that was read from it is whole and parses.
  pub serve_client-IsPartitionDevice :
      (reads : Device → ℕ → ℕ → Outcome Text Bytes) (update : ℕ → Outcome Text Update)
      (is_utf8 : Bytes → Bool) (version : Text)
      → ReadsFit (host_of reads update is_utf8 version)
      → (c : Conn) (d : Device)
      → (serve_client (host_of reads update is_utf8 version) c).1.file ≡ some d
      → (path : Text) × (length path ≤ max_path)
        × (is_utf8 path ≡ true)
        × ((n : Text) × (m : Text) × IsPartition path n m)
        × ((b : Bytes) × Grants (files.open_file path) d b)
  serve_client-IsPartitionDevice reads update is_utf8 version fits c d there =
      let (path, short, text, opens) =
        subst (IsGranted (host_of reads update is_utf8 version)) there
          (serve_client-Serves (host_of reads update is_utf8 version) fits c).granted in
      let granted = open_partition-Grants path d opens in (path, short, text, granted.0, granted.1)
