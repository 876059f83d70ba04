-- ===== src/Storage.antt =====
-- src/storage: the state directory of a node, as far as authentication reads and writes it.
pub mod Disk
pub mod Shadow
pub mod Trust
mod Tests
pub mod Peers
