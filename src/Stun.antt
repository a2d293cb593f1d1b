-- ===== src/Stun.antt =====
-- backend/pkg/stun: the STUN message codec, the address attributes and the discovery client.
pub mod Message
pub mod Names
pub mod Encode
pub mod Decode
pub mod Wire
pub mod Address
pub mod Client
pub mod RoundTrip
pub mod Tests
