-- ===== src/Session.antt =====
-- The persisted session: internal/sessionstate.
pub mod Store
pub mod Laws
pub mod Files
