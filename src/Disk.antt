-- ===== src/Disk.antt =====
-- disk.rs: the on-disk structures and their parsers, one child for each structure.
pub mod Bytes
pub mod Keys
pub mod External
pub mod Superblocks
pub mod Chunks
pub mod Inodes
pub mod DirEntries
pub mod Extents
pub mod Robust
