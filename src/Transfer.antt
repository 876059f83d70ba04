-- ===== src/Transfer.antt =====
-- src/transport/transfer: the frames of the file transfer protocol and the paths they carry.
pub mod Types
pub mod Codec
pub mod FilePath
mod Tests
