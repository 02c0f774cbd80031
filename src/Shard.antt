-- ===== src/Shard.antt =====
-- internal/shard: the state shard's locks, its chain and its handling of orchestrator blocks.
pub mod Tracking
pub mod SlotLocks
pub mod FundLocks
pub mod Evm
pub mod Chain
pub mod Blocks
pub mod Node
mod Pending
mod Receipts
pub mod Submit
