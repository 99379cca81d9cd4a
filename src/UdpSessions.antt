-- ===== src/UdpSessions.antt =====
-- examples/udp_application_sessions.rs and its session.rs: sessions of an application over UDP.
pub mod Session
pub mod Requests
pub mod Peers
mod Examples
