-- ===== src/Helper.antt =====
-- helper.rs and helper/update.rs: the Windows helper service, its protocol and its updates.
pub mod Versions
pub mod Updates
pub mod Paths
pub mod Wire
pub mod Server
pub mod Partitions
pub mod Installs
pub mod Client
