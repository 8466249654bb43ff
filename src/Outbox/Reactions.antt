-- ===== src/Outbox/Reactions.antt =====
-- ReactionJournal (src/outbox/reaction-journal.ts): reactions and their withdrawals as plans with
-- one part for each message.
pub mod Journal
pub mod Dispatch
pub mod References
pub mod Retirement
pub mod Invariant
pub mod Claims
pub mod Plans
pub mod History
pub mod Steps
pub mod Calls
pub mod Order
pub mod Attempts
pub mod Distinct
pub mod Recovery
pub mod Retired
pub mod Final
pub mod Fresh
pub mod Reorder
mod Tests
