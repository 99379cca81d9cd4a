-- ===== src/Protocols.antt =====
-- protocols: packet framing over byte streams, and UDP.
pub mod Framing
pub mod Transport
pub mod Tcp
pub mod Udp
