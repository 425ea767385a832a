-- ===== src/Tests.antt =====
-- Runs of the definitions on small inputs: the theorems applied at them.
mod Parsers
mod Decoding
mod Devices
mod Walks
mod Files
mod Names
mod Updates
mod Sessions
mod Directories
mod Opening
mod Installs
mod Copies
