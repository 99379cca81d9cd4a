-- ===== src/Server.antt =====
-- server.rs: the acceptance of connections, and what the server's systems do in a frame.
pub mod Registry
pub mod Accept
pub mod Address
pub mod Tasks
mod Examples
