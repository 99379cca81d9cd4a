-- ===== src/Serializers.antt =====
-- serializers/: the length prefixes of stream transports and the example codec with a state.
pub mod Adapter
pub mod Length
pub mod Crypt
mod Examples
