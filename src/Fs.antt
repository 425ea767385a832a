-- ===== src/Fs.antt =====
-- fs.rs: the filesystem.
pub mod Nodes
pub mod Walk
pub mod Mirrors
pub mod Blocks
pub mod Items
pub mod Emit
pub mod Contents
pub mod Names
pub mod Directories
pub mod Files
pub mod Subvols
pub mod Opening
