-- ===== src/Runtime.antt =====
-- The runtime manager: internal/runtime.
pub mod State
pub mod Manager
pub mod Calls
pub mod Stores
pub mod Sessions
pub mod Heartbeat
