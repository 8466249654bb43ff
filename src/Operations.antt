-- ===== src/Operations.antt =====
-- Operational monitoring (src/operations).
pub mod Reconnect
