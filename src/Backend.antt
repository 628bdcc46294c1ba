-- ===== src/Backend.antt =====
-- The console API of the backend: internal/backend.
pub mod Contract
pub mod Client
pub mod Laws
pub mod Failures
