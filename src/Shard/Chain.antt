-- ===== src/Shard/Chain.antt =====
-- internal/shard/chain.go: the chain of a shard and the data it keeps for pending two-phase commits.
-- `none` stands for a panic where a result is an Option of a chain.
pub mod Clearing
pub mod Cleanups
pub mod Valid
pub mod Voting
pub mod Queue
pub mod Frame
use test_v.Prelude.{
  ℕ, Bool, true, false, not, ◌||◌, List, [], ◌∷◌, ◌++◌, Option, none, some, String, nat_key,
  string_key, ◌==◌, if◌then◌else◌,
}
use test_v.Prelude.Lists.{length}
use test_v.Prelude.Int.{ℤ, pos}
use test_v.Prelude.Maps.{Map, lookup, insert, erase, contains, get_or}
use test_v.Protocol.{
  Address, Hash, BlockHash, TxId, RwVariable, Transaction, TxType, CrossShardTx, StateShardBlock,
}
use test_v.Protocol.Copies.{copy_tx, copy_cross, copy_rw_set}
use test_v.Shard.SlotLocks.{SlotLocks, slots_at, is_address_locked, unlock_all}
use test_v.Shard.FundLocks.{FundLocks, lock_funds, clear_lock_locked}

pub record PendingCredit : Type 0 where
  pub address : Address
  pub amount : ℤ

pub record Chain : Type 0 where
  pub shard_id : ℤ
  pub blocks : List StateShardBlock
  pub height : ℕ
  pub current_txs : List Transaction
  pub prepare_txs : List Transaction
  pub prepares : Map TxId Bool
  pub funds : FundLocks
  pub pending_credits : Map TxId (List PendingCredit)
  pub pending_calls : Map TxId CrossShardTx
  pub slot_locks : SlotLocks
  pub pending_rw_sets : Map TxId (List RwVariable)
  pub last_orchestrator_height : ℕ
  pub processed_commits : Map TxId Bool

-- `NewChain`, at the time `now`
unfoldable pub new_chain : ℤ → ℕ → Chain
new_chain shard_id now = record {
  shard_id = shard_id;
  blocks =
      record {
        shard_id = shard_id;
        height = 0;
        prev_hash = 0;
        timestamp = now;
        state_root = 0;
        tx_ordering = [];
        prepare_txs = [];
        tpc_prepare = [];
      }
      ∷ [];
  height = 0;
  current_txs = [];
  prepare_txs = [];
  prepares = [];
  funds = record { locked = []; locked_by_addr = [] };
  pending_credits = [];
  pending_calls = [];
  slot_locks = [];
  pending_rw_sets = [];
  last_orchestrator_height = 0;
  processed_commits = [];
}

pub add_tx : Chain → Transaction → Chain
add_tx c tx = record c { current_txs = c.current_txs ++ copy_tx tx ∷ [] }

-- `RecordPrepareTx` only logs a type that it does not expect.
pub record_prepare_tx : Chain → Transaction → Chain
record_prepare_tx c tx = record c { prepare_txs = c.prepare_txs ++ copy_tx tx ∷ [] }

pub add_prepare_result : Chain → TxId → Bool → Chain
add_prepare_result c tx_id can_commit = record c { prepares = insert tx_id can_commit c.prepares }

unfoldable pub store_pending_credit : Chain → TxId → Address → ℤ → Chain
store_pending_credit c tx_id addr amount = record c {
  pending_credits =
      insert tx_id
        (get_or [] tx_id c.pending_credits ++ record { address = addr; amount = amount } ∷ [])
        c.pending_credits;
}

unfoldable pub clear_pending_credit : Chain → TxId → Chain
clear_pending_credit c tx_id = record c { pending_credits = erase tx_id c.pending_credits }

-- `clearPendingCreditForAddressLocked`
pub other_credits : Address → List PendingCredit → List PendingCredit
other_credits addr [] = []
other_credits addr (credit ∷ rest) =
    let later = other_credits addr rest in
    if not (credit.address == addr) then credit ∷ later else later

pub clear_pending_credit_for_address : Chain → TxId → Address → Chain
clear_pending_credit_for_address c tx_id addr = elim (lookup tx_id c.pending_credits) [
  | none ↦ c
  | some credits ↦
      (let remaining = other_credits addr credits in
        if length remaining == 0
        then record c { pending_credits = erase tx_id c.pending_credits }
        else record c { pending_credits = insert tx_id remaining c.pending_credits })
]

pub store_pending_call : Chain → CrossShardTx → Chain
store_pending_call c tx = record c { pending_calls = insert tx.id (copy_cross tx) c.pending_calls }

pub get_pending_call : Chain → TxId → Option CrossShardTx
get_pending_call c tx_id = elim (lookup tx_id c.pending_calls) [
  | none ↦ none
  | some tx ↦ some (copy_cross tx)
]

unfoldable pub clear_pending_call : Chain → TxId → Chain
clear_pending_call c tx_id = record c { pending_calls = erase tx_id c.pending_calls }

pub get_pending_rw_set : Chain → TxId → Option (List RwVariable)
get_pending_rw_set c tx_id = elim (lookup tx_id c.pending_rw_sets) [
  | none ↦ none
  | some rw_set ↦ some (copy_rw_set rw_set)
]

unfoldable pub clear_pending_rw_set : Chain → TxId → Chain
clear_pending_rw_set c tx_id = record c { pending_rw_sets = erase tx_id c.pending_rw_sets }

abbrev pub clear_fund_lock : Chain → TxId → Chain
clear_fund_lock c tx_id = record c { funds = clear_lock_locked c.funds tx_id }

abbrev pub unlock_slots : Chain → TxId → Chain
unlock_slots c tx_id = record c { slot_locks = unlock_all c.slot_locks tx_id }

-- `clearAllMetadataLocked`
unfoldable pub clear_all_metadata : Chain → TxId → Chain
clear_all_metadata c tx_id =
    let c₁ = clear_fund_lock c tx_id in
    let c₂ = clear_pending_credit c₁ tx_id in
    let c₃ = clear_pending_call c₂ tx_id in clear_pending_rw_set (unlock_slots c₃ tx_id) tx_id

-- `cleanupAfterExecutionLocked`: by the transaction's type,
unfoldable pub cleanup_as : TxType → Chain → Transaction → Chain
cleanup_as TxType.cross_debit c tx = clear_fund_lock c tx.cross_shard_tx_id
cleanup_as TxType.cross_credit c tx = clear_pending_credit_for_address c tx.cross_shard_tx_id tx.to
cleanup_as TxType.cross_writeset c tx = clear_pending_call c tx.cross_shard_tx_id
cleanup_as TxType.cross_abort c tx = clear_all_metadata c tx.cross_shard_tx_id
cleanup_as TxType.lock c tx = record c { prepares = insert tx.cross_shard_tx_id true c.prepares }
cleanup_as TxType.finalize c tx =
    clear_pending_rw_set (unlock_slots c tx.cross_shard_tx_id) tx.cross_shard_tx_id
cleanup_as TxType.unlock c tx =
    clear_all_metadata
      (clear_pending_rw_set (unlock_slots c tx.cross_shard_tx_id) tx.cross_shard_tx_id)
      tx.cross_shard_tx_id
cleanup_as other c tx = c

unfoldable pub cleanup_after_execution : Chain → Transaction → Chain
cleanup_after_execution c tx = if tx.cross_shard_tx_id == "" then c else cleanup_as tx.tx_type c tx

-- and `cleanupAfterFailureLocked`.
unfoldable pub fail_as : TxType → Chain → Transaction → Chain
fail_as TxType.lock c tx =
    let c₁ = clear_all_metadata c tx.cross_shard_tx_id in
    record c₁ { prepares = insert tx.cross_shard_tx_id false c₁.prepares }
fail_as other c tx = c

unfoldable pub cleanup_after_failure : Chain → Transaction → Chain
cleanup_after_failure c tx = fail_as tx.tx_type c tx

-- `checkLocalTxLockConflict`: whether a local transaction is blocked. (`TxTypeLocal` is "".)
unfoldable pub conflicts_as : TxType → Chain → Transaction → Bool
conflicts_as TxType.local c tx =
    is_address_locked c.slot_locks tx.from || is_address_locked c.slot_locks tx.to
conflicts_as other c tx = false

unfoldable pub check_local_tx_lock_conflict : Chain → Transaction → Bool
check_local_tx_lock_conflict c tx = conflicts_as tx.tx_type c tx

-- Crash recovery
abbrev pub is_commit_processed : Chain → TxId → Bool
is_commit_processed c tx_id = get_or false tx_id c.processed_commits

-- `CheckAndMarkCommitProcessed`: the new chain, and whether the mark is new.
unfoldable pub check_and_mark_commit_processed : Chain → TxId → Chain × Bool
check_and_mark_commit_processed c tx_id =
    if is_commit_processed c tx_id
    then (c, false)
    else (record c { processed_commits = insert tx_id true c.processed_commits }, true)

abbrev pub set_last_orchestrator_height : Chain → ℕ → Chain
set_last_orchestrator_height c height = record c { last_orchestrator_height = height }
