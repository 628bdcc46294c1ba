-- ===== src/Ipc.antt =====
-- The local IPC interface: internal/ipc.
pub mod Contract
pub mod Reply
pub mod Wire
pub mod Writer
pub mod Requests
pub mod Server
pub mod Clients
pub mod Service
pub mod Client
