-- ===== src/Matrix/Portal.antt =====
-- PortalStore (src/matrix/portal-store.ts): which room a chat has, which Matrix events a message
-- has, and what is left to deliver.
pub mod Tables
pub mod Rooms
pub mod Messages
pub mod Deliveries
pub mod Uploads
pub mod History
pub mod Frames
pub mod Roots
pub mod Permanent
pub mod Retries
pub mod Bijection
pub mod Inverse
pub mod Receipts
pub mod Erasure
mod Tests
