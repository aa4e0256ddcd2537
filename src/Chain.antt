-- ===== src/Chain.antt =====
-- The chain of blocks that are not solidified yet (chain/).
pub mod BlockState
pub mod Rollback
pub mod Admission
pub mod Caches
pub mod Solidify
pub mod Sync
pub mod Fork
pub mod Execute
pub mod Messages
pub mod Serve
pub mod Dispatch
pub mod Terms
pub mod Active
pub mod Node
pub mod Queue
