-- ===== src/Protocol.antt =====
-- src/protocol.rs: the codec, a child for each part.
pub mod Types
pub mod Failure
pub mod Read
pub mod Region
pub mod Handshake
pub mod Frame
pub mod Header
pub mod Decode
pub mod Encode
mod Tests
pub mod RoundTrip
