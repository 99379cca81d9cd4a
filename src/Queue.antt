-- ===== src/Queue.antt =====
-- connection/queue/: the bounded queues between the ECS and the transport tasks.
pub mod Lossy
pub mod Outgoing
