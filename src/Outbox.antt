-- ===== src/Outbox.antt =====
-- The encrypted request journal (src/outbox).
pub mod Result
pub mod Tables
pub mod Slots
pub mod Request
pub mod Mutations
pub mod Reactions
pub mod Store
pub mod Classification
pub mod Worker
pub mod Dispatcher
pub mod Recovery
pub mod Guard
mod Tests
