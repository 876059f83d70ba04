-- ===== src/Server.antt =====
-- src/server/transfer: what the server does on a transfer stream.
pub mod Paths
pub mod Host
pub mod Context
pub mod Upload
pub mod Download
pub mod Keeps
pub mod Machine
pub mod Examples
pub mod Tests
pub mod Control
pub mod Dispatch
pub mod Tracker
