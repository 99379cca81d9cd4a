-- ===== src/Client.antt =====
-- client.rs: what the client's systems do in a frame.
pub mod Registry
pub mod Attempts
pub mod Tasks
pub mod Datagrams
mod Examples
