-- ===== src/Fs/Directories/Sorted.antt =====
-- A directory is listed in the order of its names.
use btrfs_peek.Prelude.{◌≡◌, Bool, List, [], ◌∷◌, ◌++◌, Result, ok}
use btrfs_peek.Disk.Bytes.{Bytes}
use btrfs_peek.Disk.External.{External}
use btrfs_peek.Disk.Keys.{Key}
use btrfs_peek.Disk.DirEntries.{DirEntry, parse_dir_entries}
use btrfs_peek.Fs.Walk.Scan.{Items}
use btrfs_peek.Fs.Directories.{extend_raw}

-- The entries that items decode to, one item after the other.
abbrev pub Decodes : Items → List DirEntry → Type 0
Decodes [] raw = raw ≡ []
Decodes ((k, d) ∷ xs) raw =
    (es : List DirEntry) × (rest : List DirEntry) × (parse_dir_entries d ≡ ok es)
    × Decodes xs rest
    × (raw ≡ es ++ rest)

-- The visitor of `readdir`.
abbrev collects : Key → Bytes → List DirEntry → Result Bool × List DirEntry
collects k d raw = extend_raw raw (parse_dir_entries d)
