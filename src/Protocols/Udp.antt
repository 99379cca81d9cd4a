-- ===== src/Protocols/Udp.antt =====
-- protocols/udp/: local peers over one socket.
pub mod Diagnostics
pub mod Settings
pub mod Pacing
pub mod Peer
pub mod Listener
pub mod Stream
mod Examples
