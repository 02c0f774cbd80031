-- ===== src/Shard/Blocks/Tests.antt =====
-- Block production on a small account state: account 256 has a balance of 12, and slot 3 of the
-- contract 257 reads 0.
use test_v.Prelude.{
  ℕ, ◌+◌, ◌-◌, ◌*◌, ◌≡◌, refl, ◌≢◌, true, List, [], ◌∷◌, ◌++◌, Option, none, some, arith, nat_key,
  string_key,
}
use test_v.Prelude.Int.{ℤ, pos, negsuc, ◌+ℤ◌, ◌-ℤ◌, ◌≤ℤ◌}
use test_v.Prelude.Lists.{get_elem?}
use test_v.Prelude.Maps.{Map, lookup, insert, get_or}
use test_v.Protocol.{
  Address, Hash, BlockHash, Transaction, TxType, StateShardBlock, priority, to_big_int,
}
use test_v.Shard.SlotLocks.{lock_slot, ready, lock_items, lock_rw_set, is_address_locked}
use test_v.Shard.SlotLocks.Holder.{holder}
use test_v.Shard.SlotLocks.UnlockAll.{IsLocks}
use test_v.Shard.FundLocks.Index.{IsIndexed}
use test_v.Shard.FundLocks.{get_locked_amount, sum_entries, lock_funds}
use test_v.Shard.Evm.{StateDb, can_debit, execute_tx, execute_as, execute_local_tx, transfer}
use test_v.Shard.Chain.{
  Chain, new_chain, cleanup_as, cleanup_after_execution, conflicts_as, check_local_tx_lock_conflict,
}
use test_v.Shard.Chain.Clearing.{IsCleared, Agree}
use test_v.Shard.Blocks.{
  place, sort_by_priority, validate_and_lock_read_set, lock_read_set, is_lock, execute_lock,
  execute_other, next_block, append_block, process_tx, process_txs, produce_block,
}
use test_v.Shard.Blocks.Sorting.{IsSorted, of_priority, sort_by_priority_lem}
use test_v.Shard.Blocks.Locking.{Voted, execute_lock-Voted}
use test_v.Shard.Blocks.Funding.{execute_lock_funded}
use test_v.Shard.Blocks.Releasing.{process_unlock, local_tx_unlocked}
use test_v.Shard.Blocks.Isolation.{process_txs-Keeps}
use test_v.Shard.Blocks.Producing.{IsOrdered, HasRun, produce_block_extends}

abbrev Accounts : Type 0
Accounts = Map Address ℕ × Map ℕ Hash

-- Slots are keyed by one number here, and a reverted state is the one that stands last.
abbrev word_of : List ℕ → Hash
word_of [] = 0
word_of (b ∷ bs) = b

abbrev small_amount : ℤ → Option ℕ
small_amount (pos n) = some n
small_amount (negsuc n) = none

abbrev small_db : StateDb
small_db = record {
  State = Accounts;
  get_state = λ s a slot. get_or 0 (a * 1000 + slot) s.1;
  set_state = λ s a slot v. (s.0, insert (a * 1000 + slot) v s.1);
  get_balance = λ s a. get_or 0 a s.0;
  add_balance = λ s a v. (insert a (get_or 0 a s.0 + v) s.0, s.1);
  sub_balance = λ s a v. (insert a (get_or 0 a s.0 - v) s.0, s.1);
  call = λ s from to input gas v. (s, true);
  snapshot = λ s. (s, 0);
  revert = λ s id. s;
  commit = λ s height. some (s, height);
  must_from_big = small_amount;
  bytes_to_hash = word_of;
}

abbrev accounts : Accounts
accounts = ((256, 12) ∷ [], [])

abbrev empty : Chain
empty = new_chain (pos 0) 7

abbrev lock_tx : Transaction
lock_tx = record {
  id = "u1";
  tx_hash = 0;
  from = 256;
  to = 257;
  value = some (pos 5);
  gas = 0;
  payload = [];
  is_cross_shard = true;
  tx_type = TxType.lock;
  cross_shard_tx_id = "t1";
  rw_set =
      record {
        address = 257;
        reference_block = record { shard_num = pos 0; block_hash = 0; block_height = 0 };
        read_set = record { slot = 3; value = 0 ∷ []; proof = [] } ∷ [];
        write_set = [];
      }
      ∷ [];
  error = "";
}

abbrev unlock_tx : Transaction
unlock_tx = record lock_tx { id = "u2"; tx_type = TxType.unlock; value = none; rw_set = [] }

abbrev local_tx : Transaction
local_tx = record lock_tx {
  id = "u3";
  tx_type = TxType.local;
  cross_shard_tx_id = "";
  value = some (pos 1);
  rw_set = [];
}

named : lock_tx.cross_shard_tx_id ≢ ""
named e = ground (arith, e, string_key.same_iff "t1" "")

empty-IsIndexed : IsIndexed empty.funds
unfolding lookup new_chain
empty-IsIndexed t a = refl

execute_lock-Voted_example :
    Voted small_db accounts lock_tx (execute_lock small_db empty accounts lock_tx)
unfolding new_chain lookup
execute_lock-Voted_example =
    execute_lock-Voted small_db empty accounts lock_tx refl named tt empty-IsIndexed refl

execute_lock_funded_example :
    let d = (execute_lock small_db empty accounts lock_tx).0 in
    (lookup "t1" d.funds.locked ≡ some (record { address = 256; amount = pos 5 }))
    × (get_locked_amount d.funds 256 ≡ get_locked_amount empty.funds 256 +ℤ pos 5)
    × (get_locked_amount d.funds 256 ≤ℤ pos 12)
unfolding lookup insert to_big_int execute_lock can_debit get_locked_amount sum_entries lock_funds
    lock_read_set validate_and_lock_read_set lock_rw_set lock_items lock_slot ready
    cleanup_after_execution cleanup_as new_chain ◌-ℤ◌ ◌+ℤ◌
execute_lock_funded_example =
    execute_lock_funded small_db empty accounts lock_tx refl named refl refl

process_unlock_example :
    (d : Chain) × (process_tx small_db empty accounts unlock_tx ≡ some (d, accounts, true))
    × IsCleared "t1" d
unfolding new_chain
process_unlock_example =
    process_unlock small_db empty accounts unlock_tx refl named tt empty-IsIndexed

-- The accounts after the local transfer of 1.
abbrev paid : Accounts
paid = ((256, 11) ∷ (257, 1) ∷ [], [])

local_tx_unlocked_example :
    (holder empty.slot_locks 256 3 ≡ none) × (holder empty.slot_locks 257 3 ≡ none)
unfolding lookup insert to_big_int process_tx check_local_tx_lock_conflict conflicts_as
    is_address_locked is_lock execute_other execute_tx execute_as execute_local_tx transfer
    cleanup_after_execution new_chain
local_tx_unlocked_example =
    local_tx_unlocked small_db empty accounts local_tx empty paid refl refl 3

-- What the Lock transaction leaves.
abbrev locked : Chain
locked = (execute_lock small_db empty accounts lock_tx).0

other_id : lock_tx.cross_shard_tx_id ≢ "t9"
other_id e = ground (arith, e, string_key.same_iff "t1" "t9")

process_txs-Keeps_example : Agree "t9" empty locked × IsLocks locked.slot_locks
unfolding lookup insert to_big_int execute_lock can_debit get_locked_amount sum_entries lock_funds
    lock_read_set validate_and_lock_read_set lock_rw_set lock_items lock_slot ready
    cleanup_after_execution cleanup_as new_chain process_tx process_txs check_local_tx_lock_conflict
    conflicts_as is_lock ◌-ℤ◌ ◌+ℤ◌
process_txs-Keeps_example =
    process_txs-Keeps small_db empty accounts (lock_tx ∷ []) "t9" locked accounts (lock_tx ∷ [])
      (other_id, tt) tt refl

-- The local transaction was queued first, but it is not run before the Lock, and then it is blocked.
abbrev queued : Chain
queued = record empty { current_txs = local_tx ∷ lock_tx ∷ [] }

sort_by_priority_example :
    IsSorted (sort_by_priority (local_tx ∷ lock_tx ∷ unlock_tx ∷ []))
    × ((p : ℕ)
        → of_priority p (sort_by_priority (local_tx ∷ lock_tx ∷ unlock_tx ∷ []))
          ≡ of_priority p (local_tx ∷ lock_tx ∷ unlock_tx ∷ []))
sort_by_priority_example = sort_by_priority_lem (local_tx ∷ lock_tx ∷ unlock_tx ∷ [])

abbrev hash_of : StateShardBlock → BlockHash
hash_of b = b.height + b.timestamp

abbrev ran : Chain
ran = (execute_lock small_db queued accounts lock_tx).0

abbrev genesis : StateShardBlock
genesis = record {
  shard_id = pos 0;
  height = 0;
  prev_hash = 0;
  timestamp = 7;
  state_root = 0;
  tx_ordering = [];
  prepare_txs = [];
  tpc_prepare = [];
}

abbrev made : StateShardBlock
made = next_block small_db hash_of 9 ran 1 (lock_tx ∷ []) genesis

abbrev after : Chain
after = append_block small_db hash_of ran made

produce_block_extends_example :
    (last : StateShardBlock) × (get_elem? queued.blocks 0 ≡ some last)
    × (made.height ≡ 1)
    × (made.prev_hash ≡ hash_of last)
    × (made.prepare_txs ≡ [])
    × (made.timestamp ≡ 9)
    × IsOrdered small_db queued.current_txs made
    × HasRun small_db queued accounts accounts made
    × (after.blocks ≡ queued.blocks ++ made ∷ [])
    × (after.height ≡ 1)
    × (after.current_txs ≡ [])
    × (after.prepare_txs ≡ [])
    × (after.prepares ≡ [])
unfolding lookup insert to_big_int execute_lock can_debit get_locked_amount sum_entries lock_funds
    lock_read_set validate_and_lock_read_set lock_rw_set lock_items lock_slot ready
    cleanup_after_execution cleanup_as new_chain process_tx process_txs check_local_tx_lock_conflict
    conflicts_as is_address_locked is_lock sort_by_priority place priority produce_block next_block
    append_block ◌-ℤ◌ ◌+ℤ◌
produce_block_extends_example =
    produce_block_extends small_db hash_of 9 queued accounts after accounts made (omega arith) refl
