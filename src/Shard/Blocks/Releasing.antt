-- ===== src/Shard/Blocks/Releasing.antt =====
-- The end of a cross-shard transaction, and what locks keep local transactions from.
use test_v.Prelude.{
  ◌≡◌, refl, ◌≢◌, inl, inr, true, false, ◌||◌, none, some, arith, nat_key, string_key, Bool-cases,
}
use test_v.Protocol.{Hash, Transaction, TxType}
use test_v.Shard.SlotLocks.{is_address_locked}
use test_v.Shard.SlotLocks.Holder.{holder, free_address}
use test_v.Shard.SlotLocks.UnlockAll.{IsLocks}
use test_v.Shard.FundLocks.Index.{IsIndexed}
use test_v.Shard.Evm.{StateDb}
use test_v.Shard.Evm.Effects.{unlock_runs}
use test_v.Shard.Chain.{
  Chain, clear_all_metadata, clear_pending_rw_set, unlock_slots, check_local_tx_lock_conflict,
}
use test_v.Shard.Chain.Clearing.{IsCleared, clear_all_metadata-IsCleared}
use test_v.Shard.Chain.Cleanups.{finalize-IsLocks}
use test_v.Shard.Chain.Voting.{passed_unlock, unlock_unblocked, local_conflict}
use test_v.Shard.Blocks.{is_lock, execute_other, process_tx}

unlock_no_lock : (k : TxType) → k ≡ TxType.unlock → is_lock k ≡ false
unfolding is_lock
unlock_no_lock k e = rw e refl

module _ (db : StateDb) where
  -- An Unlock transaction with a cross-shard id always runs, is included in the block, and leaves
  -- nothing of its cross-shard transaction: no locked funds and no amount reserved for it at any
  -- address, no credits, call, RwSet or slots. Before, the slot locks are well formed and the index by
  -- address lists exactly the locked funds.
  pub process_unlock :
      (c : Chain) (s : db.State) (tx : Transaction)
      → tx.tx_type ≡ TxType.unlock
      → tx.cross_shard_tx_id ≢ ""
      → IsLocks c.slot_locks
      → IsIndexed c.funds
      → (d : Chain) × (process_tx db c s tx ≡ some (d, (db.snapshot s).0, true))
        × IsCleared tx.cross_shard_tx_id d
  unfolding process_tx execute_other clear_pending_rw_set
  process_unlock c s tx k n h i =
      let t = tx.cross_shard_tx_id in
      let c₁ : Chain = clear_pending_rw_set (unlock_slots c t) t in
      (
        clear_all_metadata c₁ t,
        rw
            (
              process_tx,
              unlock_unblocked c tx k,
              unlock_no_lock tx.tx_type k,
              execute_other,
              unlock_runs db (db.snapshot s).0 tx k,
              passed_unlock c tx k n,
            )
            refl,
        clear_all_metadata-IsCleared c₁ t (finalize-IsLocks c t h) i,
      )

  -- A local transaction that a step of block production includes in the block met no locked slot at
  -- its sender or its receiver.
  pub local_tx_unlocked :
      (c : Chain) (s : db.State) (tx : Transaction) (d : Chain) (s' : db.State)
      → tx.tx_type ≡ TxType.local
      → process_tx db c s tx ≡ some (d, s', true)
      → (slot : Hash)
      → (holder c.slot_locks tx.from slot ≡ none) × (holder c.slot_locks tx.to slot ≡ none)
  unfolding process_tx
  local_tx_unlocked c s tx d s' k h slot = elim (Bool-cases (check_local_tx_lock_conflict c tx)) [
    | inl blocked ↦ cc (rw (process_tx, blocked) at h)
    | inr free ↦
        let open_ : (is_address_locked c.slot_locks tx.from || is_address_locked c.slot_locks tx.to)
            ≡ false =
          rw (local_conflict c tx k) at free in
        (
          free_address c.slot_locks tx.from slot (ground (arith, open_)),
          free_address c.slot_locks tx.to slot (ground (arith, open_)),
        )
  ]
