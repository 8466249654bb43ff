-- ===== src/Matrix.antt =====
-- The Matrix side of the bridge (src/matrix).
pub mod Inbox
pub mod Portal
