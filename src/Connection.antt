-- ===== src/Connection.antt =====
-- connection/: the ECS handle of a connection, its limits and settings, and its writing task.
pub mod Handle
pub mod Settings
pub mod Writer
pub mod Reader
pub mod Setup
pub mod Closing
mod Examples
