-- ===== src/Shard/Node.antt =====
-- internal/shard/server.go: how a shard handles the orchestrator's blocks, as they arrive and when
-- it recovers after a crash.
pub mod Results
pub mod Replay
mod Tests
use test_v.Prelude.{
  ℕ, zero, suc, ◌+◌, ◌-◌, ◌%◌, Bool, true, false, not, ◌&&◌, ◌||◌, List, [], ◌∷◌, Option, none,
  some, String, nat_key, string_key, ◌==◌, if◌then◌else◌, leb, ltb, is_some,
}
use test_v.Prelude.Int.{ℤ, pos, ltb_ℤ, int_key}
use test_v.Prelude.Lists.{length}
use test_v.Prelude.Maps.{Map, lookup, contains}
use test_v.Protocol.{
  Address, TxId, RwVariable, Transaction, TxType, CrossShardTx, OrchestratorShardBlock, to_big_int,
  last_byte,
}
use test_v.Protocol.Copies.{copy_rw_set}
use test_v.Protocol.Shards.{shard_of}
use test_v.BlockBuffer.{BlockBuffer, process_block, released}
use test_v.Shard.FundLocks.{get_locked_funds}
use test_v.Shard.Chain.{
  Chain, PendingCredit, add_tx, store_pending_credit, store_pending_call, get_pending_call,
  get_pending_rw_set, check_and_mark_commit_processed, set_last_orchestrator_height,
}

-- The chain, whose shard id is the server's too, and how many ids have been drawn from the supply
-- of fresh ones.
pub record Node : Type 0 where
  pub chain : Chain
  pub drawn : ℕ

-- A typed transaction about `tx_id`, with Go's zero values in the other fields.
pub blank_tx : TxType → TxId → TxId → Transaction
blank_tx tx_type id tx_id = record {
  id = id;
  tx_hash = 0;
  from = 0;
  to = 0;
  value = none;
  gas = 0;
  payload = [];
  is_cross_shard = true;
  tx_type = tx_type;
  cross_shard_tx_id = tx_id;
  rw_set = [];
  error = "";
}

-- The entries of an RwSet for one shard, copied.
unfoldable pub local_rw_set : ℤ → List RwVariable → List RwVariable
local_rw_set shard_id [] = []
local_rw_set shard_id (rw_var ∷ rest) =
    let later = local_rw_set shard_id rest in
    if shard_of rw_var == shard_id then rw_var ∷ later else later

abbrev pub num_shards : ℕ
num_shards = 8

pub credit_tx : TxId → PendingCredit → TxId → Transaction
credit_tx tx_id credit id = record (blank_tx TxType.cross_credit id tx_id) {
  to = credit.address;
  value = some credit.amount;
}

-- `hasData` of an abort.
pub has_data : Chain → TxId → Bool
has_data c tx_id =
    contains tx_id c.funds.locked
    || (contains tx_id c.pending_credits
        || (contains tx_id c.pending_calls || contains tx_id c.pending_rw_sets))

-- `uuid.New().String()` is a parameter: the n-th id that it gives.
module _ (new_uuid : ℕ → String) where
  -- Queue a transaction under a fresh id.
  pub queue_tx : Node → (TxId → Transaction) → Node
  queue_tx n tx = record { chain = add_tx n.chain (tx (new_uuid n.drawn)); drawn = n.drawn + 1 }

  -- The steps of a commit: the debit of locked funds,
  pub queue_debit : Node → TxId → Node
  queue_debit n tx_id = elim (get_locked_funds n.chain.funds tx_id) [
    | none ↦ n
    | some lock ↦ queue_tx n (λ id. record (blank_tx TxType.cross_debit id tx_id) {
      from = lock.address;
      value = some lock.amount;
    })
  ]

  -- the pending credits,
  pub queue_credits : Node → TxId → List PendingCredit → Node
  queue_credits n tx_id [] = n
  queue_credits n tx_id (credit ∷ rest) =
      queue_credits (queue_tx n (credit_tx tx_id credit)) tx_id rest

  pub queue_all_credits : Node → TxId → Node
  queue_all_credits n tx_id = elim (lookup tx_id n.chain.pending_credits) [
    | none ↦ n
    | some credits ↦ queue_credits n tx_id credits
  ]

  -- the writes of a pending call,
  pub queue_write_set : Node → TxId → Node
  queue_write_set n tx_id = elim (get_pending_call n.chain tx_id) [
    | none ↦ n
    | some call ↦
        (let local_set = copy_rw_set (local_rw_set n.chain.shard_id call.rw_set) in
          if ltb 0 (length local_set)
          then queue_tx n
              (λ id. record (blank_tx TxType.cross_writeset id tx_id) { rw_set = local_set })
          else n)
  ]

  -- and the writes validated by the Lock transaction.
  pub queue_finalize : Node → TxId → Node
  queue_finalize n tx_id = elim (get_pending_rw_set n.chain tx_id) [
    | none ↦ n
    | some rw_set ↦
        if ltb 0 (length rw_set)
        then queue_tx n (λ id. record (blank_tx TxType.finalize id tx_id) { rw_set = rw_set })
        else n
  ]

  pub queue_commit : Node → TxId → Node
  queue_commit n tx_id =
      let n₁ = queue_debit n tx_id in
      let n₂ = queue_all_credits n₁ tx_id in
      let n₃ = queue_write_set n₂ tx_id in queue_finalize n₃ tx_id

  pub queue_abort : Node → TxId → Node
  queue_abort n tx_id =
      if has_data n.chain tx_id then queue_tx n (λ id. blank_tx TxType.cross_abort id tx_id) else n

  -- Phase 1 of `processOrchestratorBlock`, for one result and for all of a block.
  pub process_result : Node → TxId → Bool → Node
  process_result n tx_id committed =
      let (c, fresh) = check_and_mark_commit_processed n.chain tx_id in
      if not fresh
      then n
      else (let n₁ = record n { chain = c } in
          let n₂ = if committed then queue_commit n₁ tx_id else queue_abort n₁ tx_id in
          queue_tx n₂ (λ id. blank_tx TxType.unlock id tx_id))

  pub process_results : Node → Map TxId Bool → Node
  process_results n [] = n
  process_results n ((tx_id, committed) ∷ rest) =
      process_results (process_result n tx_id committed) rest

  -- Phase 2: whether this shard holds a transaction's destination and the value is positive, and
  -- then the credit that waits for the commit.
  pub expect_credit : Node → CrossShardTx → Node
  expect_credit n tx =
      let to_shard = pos (last_byte tx.to % num_shards) in
      if ltb_ℤ (pos 0) (to_big_int tx.value) && to_shard == n.chain.shard_id
      then record n { chain = store_pending_credit n.chain tx.id tx.to (to_big_int tx.value) }
      else n

  pub process_order : Node → CrossShardTx → Node
  process_order n tx =
      let local_set = copy_rw_set (local_rw_set n.chain.shard_id tx.rw_set) in
      if tx.from_shard == n.chain.shard_id
      then queue_tx (expect_credit n tx) (λ id. record (blank_tx TxType.lock id tx.id) {
        from = tx.from;
        to = tx.to;
        value = tx.value;
        rw_set = local_set;
      })
      else if ltb 0 (length local_set)
      then (let n₁ = expect_credit n tx in
          let n₂ =
            if ltb 0 (length tx.payload)
            then record n₁ { chain = store_pending_call n₁.chain tx }
            else n₁ in
          queue_tx n₂ (λ id. record (blank_tx TxType.lock id tx.id) {
            from = tx.from;
            to = tx.to;
            rw_set = local_set;
          }))
      else n

  pub process_orders : Node → List CrossShardTx → Node
  process_orders n [] = n
  process_orders n (tx ∷ rest) = process_orders (process_order n tx) rest

  -- `processOrchestratorBlock`
  pub process_orchestrator_block : Node → OrchestratorShardBlock → Node
  process_orchestrator_block n block =
      if leb block.height n.chain.last_orchestrator_height
      then n
      else (let n₁ = process_orders (process_results n block.tpc_result) block.ct_to_order in
          record n₁ { chain = set_last_orchestrator_height n₁.chain block.height })

  pub process_blocks : Node → List OrchestratorShardBlock → Node
  process_blocks n [] = n
  process_blocks n (block ∷ rest) = process_blocks (process_orchestrator_block n block) rest

  -- `handleOrchestratorShardBlock`: what the buffer releases is processed, in order.
  pub handle_block : BlockBuffer → Node → OrchestratorShardBlock → BlockBuffer × Node
  handle_block b n block =
      let (b', ready) = process_block b block in (b', process_blocks n (released ready))

  -- `recoverFromOrchestrator`, once the orchestrator has told its latest height. What it answers for
  -- a height is a parameter, where `none` is a block that is missing or cannot be fetched. The loop
  -- runs over `count` heights from `height`; the latest height is below the largest uint64.
  module _ (fetch : ℕ → Option OrchestratorShardBlock) where
    pub recover_loop : ℕ → ℕ → Node → Node
    recover_loop zero height n = n
    recover_loop (suc count) height n =
        recover_loop count (height + 1)
          (elim (fetch height) [ none ↦ n | some block ↦ process_orchestrator_block n block ])

    pub recover : ℕ → Node → Node
    recover latest n =
        let last_height = n.chain.last_orchestrator_height in
        if leb latest last_height
        then n
        else recover_loop (latest - last_height) (last_height + 1) n
