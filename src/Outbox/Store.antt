-- ===== src/Outbox/Store.antt =====
-- OutboxStore (src/outbox/store.ts): the journal of text requests, by group of operations.
pub mod Query
pub mod Prepare
pub mod Dispatch
pub mod Parts
pub mod Invariant
pub mod Updates
pub mod Selection
pub mod Claim
pub mod Insertion
pub mod Allocation
pub mod Recording
pub mod Echo
pub mod History
pub mod Once
pub mod Recovery
pub mod Reorder
