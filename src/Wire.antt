-- ===== src/Wire.antt =====
-- The objects of core/ and chain/ as they are stored and sent: what `streamRLP` writes and what the
-- constructors from bytes read.
pub mod Rlp
pub mod Pairs
pub mod Accounts
pub mod Transactions
pub mod Blocks
pub mod States
pub mod Statuses
pub mod Model
mod Examples
