-- ===== src/Metadata.antt =====
-- src/transport/metadata: what peers tell one another about themselves.
pub mod Types
pub mod Fields
pub mod Codec
pub mod RoundTrip
mod Tests
