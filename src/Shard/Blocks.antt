-- ===== src/Shard/Blocks.antt =====
-- internal/shard/chain.go, block production: the queued transactions in order of priority, and the
-- votes on cross-shard transactions.
pub mod Sorting
pub mod Locking
pub mod Producing
mod Tests
pub mod Funding
pub mod Frame
pub mod Releasing
pub mod Isolation
use test_v.Prelude.{
  ℕ, ◌+◌, Bool, true, false, not, ◌&&◌, List, [], ◌∷◌, ◌++◌, Option, none, some, nat_key,
  string_key, ◌==◌, if◌then◌else◌, leb, ltb, u64,
}
use test_v.Prelude.Lists.{get_elem?}
use test_v.Prelude.Int.{ℤ, pos, ltb_ℤ}
use test_v.Prelude.Maps.{insert}
use test_v.Protocol.{
  Address, Hash, BlockHash, TxId, RwVariable, Transaction, TxType, StateShardBlock, priority,
  to_big_int,
}
use test_v.Shard.SlotLocks.{LockError, locking, refused, lock_rw_set}
use test_v.Shard.FundLocks.{lock_funds, get_locked_amount}
use test_v.Shard.Evm.{StateDb, Exec, done, failed, panicked, can_debit, execute_tx}
use test_v.Shard.Chain.{
  Chain, clear_fund_lock, cleanup_after_execution, cleanup_after_failure,
  check_local_tx_lock_conflict,
}

-- `sortTransactionsByPriority`: a stable sort (Go's sort.SliceStable), here by insertion.
pub place : Transaction → List Transaction → List Transaction
place tx [] = tx ∷ []
place tx (other ∷ rest) =
    let later = place tx rest in
    if leb (priority tx.tx_type) (priority other.tx_type) then tx ∷ other ∷ rest else other ∷ later

pub sort_by_priority : List Transaction → List Transaction
sort_by_priority [] = []
sort_by_priority (tx ∷ rest) = place tx (sort_by_priority rest)

pub is_lock : TxType → Bool
is_lock TxType.lock = true
is_lock other = false

module _ (db : StateDb) where
  -- `validateAndLockReadSetLocked`: the chain after it, and the error if there is one.
  pub validate_and_lock_read_set :
      Chain → db.State → TxId → List RwVariable → Chain × Option LockError
  validate_and_lock_read_set c s tx_id rw_set =
      elim (lock_rw_set (db.get_state s) db.bytes_to_hash tx_id rw_set c.slot_locks []) [
        | refused locks e ↦ (record c { slot_locks = locks }, some e)
        | locking locks held ↦ (
          record c { slot_locks = locks; pending_rw_sets = insert tx_id rw_set c.pending_rw_sets },
          none,
        )
      ]

  -- Step 2 of a Lock transaction, once its funds are locked: the chain, and whether the block
  -- includes the transaction.
  pub lock_read_set : Chain → db.State → Transaction → Chain × Bool
  lock_read_set c s tx =
      let (c₁, problem) = validate_and_lock_read_set c s tx.cross_shard_tx_id tx.rw_set in
      elim problem [
        | some e ↦ (cleanup_after_failure (clear_fund_lock c₁ tx.cross_shard_tx_id) tx, false)
        | none ↦ (cleanup_after_execution c₁ tx, true)
      ]

  pub execute_lock : Chain → db.State → Transaction → Chain × Bool
  execute_lock c s tx =
      let amount = to_big_int tx.value in
      if ltb_ℤ (pos 0) amount
      then (if not (can_debit db s tx.from amount (get_locked_amount c.funds tx.from))
          then (cleanup_after_failure c tx, false)
          else lock_read_set
              (record c { funds = lock_funds c.funds tx.cross_shard_tx_id tx.from amount }) s tx)
      else lock_read_set c s tx

  -- Any other transaction runs on a snapshot; `none` is a panic.
  pub execute_other : Chain → db.State → Transaction → Option (Chain × db.State × Bool)
  execute_other c s tx =
      let (s₁, id) = db.snapshot s in
      elim (execute_tx db s₁ tx) [
        | panicked ↦ none
        | failed s₂ ↦ some (cleanup_after_failure c tx, db.revert s₂ id, false)
        | done s₂ ↦ some (cleanup_after_execution c tx, s₂, true)
      ]

  -- The body of the loop in `ProduceBlock`.
  pub process_tx : Chain → db.State → Transaction → Option (Chain × db.State × Bool)
  process_tx c s tx =
      if check_local_tx_lock_conflict c tx
      then some (c, s, false)
      else if is_lock tx.tx_type
      then (let (c₁, included) = execute_lock c s tx in some (c₁, s, included))
      else execute_other c s tx

  -- The loop, with the successful transactions last.
  pub process_txs :
      Chain → db.State → List Transaction → Option (Chain × db.State × List Transaction)
  process_txs c s [] = some (c, s, [])
  process_txs c s (tx ∷ rest) = elim (process_tx c s tx) [
    | none ↦ none
    | some (c₁, s₁, included) ↦ elim (process_txs c₁ s₁ rest) [
      | none ↦ none
      | some (c₂, s₂, txs) ↦ some (c₂, s₂, (if included then tx ∷ txs else txs))
    ]
  ]

  pub data Produced : Type 0 where
    produced : Chain → db.State → StateShardBlock → Produced
    commit_failed : Chain → db.State → Produced
    panic : Produced

  -- The block's hash is sha256 of its JSON, and the time comes from outside.
  module _ (block_hash : StateShardBlock → BlockHash) where
    pub next_block : ℕ → Chain → Hash → List Transaction → StateShardBlock → StateShardBlock
    next_block now c root txs last = record {
      shard_id = c.shard_id;
      height = u64 (c.height + 1);
      prev_hash = block_hash last;
      timestamp = now;
      state_root = root;
      tx_ordering = txs;
      prepare_txs = c.prepare_txs;
      tpc_prepare = c.prepares;
    }

    pub append_block : Chain → StateShardBlock → Chain
    append_block c block = record c {
      blocks = c.blocks ++ block ∷ [];
      height = u64 (c.height + 1);
      current_txs = [];
      prepare_txs = [];
      prepares = [];
    }

    -- `ProduceBlock`. A commit that fails leaves the queue as it was.
    pub produce_block : ℕ → Chain → db.State → Produced
    produce_block now c s = elim (process_txs c s (sort_by_priority c.current_txs)) [
      | none ↦ panic
      | some (c₁, s₁, txs) ↦ elim (db.commit s₁ (u64 (c₁.height + 1))) [
        | none ↦ commit_failed c₁ s₁
        | some (s₂, root) ↦ elim (get_elem? c₁.blocks c₁.height) [
          | none ↦ panic
          | some last ↦
              (let block = next_block now c₁ root txs last in
                produced (append_block c₁ block) s₂ block)
        ]
      ]
    ]
