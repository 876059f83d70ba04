-- ===== src/Auth.antt =====
-- src/auth: the authentication backends of the server.
pub mod Types
pub mod Password
pub mod Key
pub mod Unified
mod Tests
