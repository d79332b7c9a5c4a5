-- ===== src/Examples.antt =====
-- The theorems at concrete inputs.
pub mod Queues
pub mod Times
pub mod Uuids
pub mod Indices
pub mod Stores
pub mod Texts
pub mod Tables
pub mod Digests
pub mod Documents
pub mod Journals
pub mod Transactions
