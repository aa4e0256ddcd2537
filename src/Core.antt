-- ===== src/Core.antt =====
-- The objects of core/: accounts, producers, ballots, transactions and blocks.
pub mod Account
pub mod Producer
pub mod Snapshot
pub mod Transaction
pub mod Block
pub mod Queue
