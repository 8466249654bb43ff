-- ===== src/Outbox/Mutations.antt =====
-- MutationJournal (src/outbox/mutation-journal.ts): edits and deletions as immutable plans.
pub mod Plan
pub mod Journal
pub mod Dispatch
pub mod Recovery
pub mod Echoes
mod Tests
