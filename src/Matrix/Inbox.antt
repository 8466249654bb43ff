-- ===== src/Matrix/Inbox.antt =====
-- TransactionInbox (src/matrix/transaction-inbox.ts): accepted transactions and their events.
pub mod Tables
pub mod Accept
pub mod Order
pub mod Retry
pub mod Once
pub mod Predecessors
mod Tests
