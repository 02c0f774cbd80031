-- ===== src/Orchestrator.antt =====
-- internal/orchestrator: the shard that orders cross-shard transactions and decides them by vote.
pub mod AccessList
pub mod Chain
pub mod Simulation
pub mod Simulator
pub mod Proofs
