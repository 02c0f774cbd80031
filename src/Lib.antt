-- ===== src/Lib.antt =====
-- A model of the two-phase commit between state shards and the orchestrator, and what makes it correct.
--
-- The program is a sharded blockchain. An orchestrator collects cross-shard transactions and orders
-- them into blocks; state shards receive these blocks, validate and lock what each transaction reads
-- and spends, and vote; the orchestrator counts the votes and puts its decisions into a later block,
-- on which the shards apply or drop the writes and release the locks.
--
-- The parts, by file:
--
-- - Protocol (with Protocol/): internal/protocol/types.go and block.go. Transactions, blocks and the
--   priority of a transaction type; Copies has the `DeepCopy` methods, Shards has `TargetShards` and
--   `InvolvedShards`, RwSets what the two constructions of an RwSet share.
-- - Orchestrator/Chain: internal/orchestrator/chain.go. `OrchestratorChain` with `add_transaction`,
--   `record_vote`, `check_timeouts` and `produce_block`. Proofs: Consistent (invariant of the maps),
--   Votes, Agreement, Timeouts, Blocks, Waiting and Runs (any sequence of calls).
-- - Orchestrator/AccessList: `accessList` of internal/orchestrator/statedb.go. Proofs: Index and Warm.
-- - Orchestrator/Simulation: `SimulationStateDB` of internal/orchestrator/statedb.go, with its accounts;
--   Storage has slots, access list, snapshots and the EVM's calls as a data type, RwSets has
--   `BuildRwSet`. Proofs: Kept, Calm, Slots, Tracked, Runs, Reverts, Preparing, Honest.
-- - Orchestrator/Simulator: internal/orchestrator/simulator.go, from `Submit` to the callbacks. Proofs:
--   Outcomes and Submitting.
-- - BlockBuffer: internal/shard/block_buffer.go. `process_block` and the other methods. Proofs: Order
--   and Delivery.
-- - Orchestrator/Proofs: `VerifyStorageProof`, `proofDB` and `parseProof` of
--   internal/orchestrator/statefetcher.go. Proofs: Shown, Sound.
-- - Shard/SlotLocks: the field `slotLocks` of `Chain` in internal/shard/chain.go, with `lock_slot`,
--   `unlock_slot`, `unlock_all` and `lock_rw_set` (the loops of `validateAndLockReadSetLocked`).
--   Proofs: Holder (each operation by who holds a slot), UnlockAll, ReadSets, Granted, Valid.
-- - Shard/FundLocks: the fields `locked` and `lockedByAddr`, with both ways to clear a lock. Proofs:
--   Totals, Index, Reserved.
-- - Shard/Evm: `ExecuteTx` and what it calls in internal/shard/evm.go.
-- - Shard/Chain: the other fields of `Chain` and the clean-ups after a transaction. Proofs: Clearing,
--   Cleanups, Valid, Frame, and one-step lemmas in Voting and Queue.
-- - Shard/Pending: the rest of the interface of `Chain`: `GetPendingCredits`, `MarkCommitProcessed` and
--   `ApplyWriteSet`, with lemmas that tie them to the operations above.
-- - Shard/Receipts: internal/shard/receipt.go.
-- - Shard/Blocks: `ProduceBlock` of internal/shard/chain.go, from the sort by priority to the block.
--   Proofs: Sorting, Locking, Funding, Isolation, Releasing, Frame, Producing.
-- - Shard/Tracking: internal/shard/tracking_statedb.go. Proofs: Recorded, Accesses, Covered.
-- - Shard/Submit: `handleTxSubmit` and `forwardToOrchestrator` of internal/shard/server.go, and
--   `SimulateCall` of internal/shard/evm.go. Proofs: Routing and Local.
-- - Shard/Node: `processOrchestratorBlock`, `handleOrchestratorShardBlock` and
--   `recoverFromOrchestrator` of internal/shard/server.go. Proofs: Results, Replay.
-- - Handover: no code of its own, but the way of an RwSet from `BuildRwSet` to the validation of a shard.
-- - Prelude (with Prelude/): tests, keys, lists over the native numbers, maps and integers.
--
-- How the code is read. A map is an association list, whose order stands for the order of iteration
-- that Go leaves open. An address, a hash or a block hash is the number that its bytes spell. uint64
-- arithmetic is taken modulo 2 ^ 64, big integers are unbounded. Each method holds its mutex from start
-- to end, so a sequence of calls is a sequence of steps. A panic is `none` or its own constructor. A
-- nil pointer is `none`; values have no aliases.
--
-- Parameters. The time, block hashes (sha256 of JSON), fresh ids and what the orchestrator answers to a
-- request are arguments. go-ethereum's state and EVM and uint256's conversion are the record `StateDb`
-- of Shard/Evm, about which nothing is assumed. For the orchestrator's simulations, the fetcher (whose
-- answers may differ from request to request) and go-ethereum's hashes are the record `Host` of
-- Orchestrator/Simulation, and its EVM is the record `Machine` of Orchestrator/Simulator, of which
-- `Interface` assumes that it touches the state through the `vm.StateDB` methods only and panics only if
-- one of these does. On a shard they are the records `Inner` of Shard/Tracking and `Library` of
-- Shard/Submit; `ThroughWrapper` is the same assumption about them, and `Undoes` that a revert restores
-- the state at its snapshot. `uint256.MustFromBig` panics on a number beyond 256 bits, also where a shard
-- answers such a balance to a simulation; `Fits` says that none does.
--
-- Bounds. The loop that drains the buffer runs on fuel, one more than the entries, since each round
-- deletes one; Delivery shows that this is enough. The recovery loop runs over the heights that are
-- behind, for a latest height below 2 ^ 64 - 1. All other loops are structural.
--
-- Not modelled: HTTP, JSON-RPC and JSON, configuration and storage, which are I/O; the requests and
-- caches of the fetcher; contract deployment and the other handlers of the shard.
pub mod Prelude
pub mod Protocol
pub mod BlockBuffer
pub mod Orchestrator
pub mod Shard
pub mod Handover
