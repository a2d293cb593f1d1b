-- ===== src/Signaling.antt =====
-- backend/internal/signaling: peers, rooms, registry and the message handler of the server.
pub mod Dict
pub mod Protocol
pub mod Names
pub mod Peer
pub mod Room
pub mod Manager
pub mod Registry
pub mod Handler
pub mod Server
pub mod Spec
pub mod Socket
pub mod Startup
pub mod Http
pub mod Mock
pub mod Tests
