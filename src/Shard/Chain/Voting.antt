-- ===== src/Shard/Chain/Voting.antt =====
-- The clean-ups of the transactions that vote and release, in one step each.
use test_v.Prelude.{◌≡◌, refl, ◌≢◌, true, false, ◌||◌, arith, nat_key, string_key, ◌==◌}
use test_v.Prelude.Maps.{insert}
use test_v.Shard.SlotLocks.{is_address_locked}
use test_v.Protocol.{Transaction, TxType}
use test_v.Shard.Chain.{
  Chain, clear_pending_rw_set, unlock_slots, clear_all_metadata, cleanup_as,
  cleanup_after_execution, fail_as, cleanup_after_failure, check_local_tx_lock_conflict,
  conflicts_as,
}

pub failed_lock :
    (c : Chain) (tx : Transaction)
    → tx.tx_type ≡ TxType.lock
    → cleanup_after_failure c tx ≡ record (clear_all_metadata c tx.cross_shard_tx_id) {
      prepares =
          insert tx.cross_shard_tx_id false (clear_all_metadata c tx.cross_shard_tx_id).prepares;
    }
unfolding cleanup_after_failure fail_as
failed_lock c tx k = rw (k, fail_as) refl

pub passed_lock :
    (c : Chain) (tx : Transaction)
    → tx.tx_type ≡ TxType.lock
    → tx.cross_shard_tx_id ≢ ""
    → cleanup_after_execution c tx
      ≡ record c { prepares = insert tx.cross_shard_tx_id true c.prepares }
unfolding cleanup_after_execution cleanup_as
passed_lock c tx k n =
    let named : (tx.cross_shard_tx_id == "") ≡ false =
      ground (arith, string_key.same_iff tx.cross_shard_tx_id "") in
    rw (named, k, cleanup_as) refl

pub passed_unlock :
    (c : Chain) (tx : Transaction)
    → tx.tx_type ≡ TxType.unlock
    → tx.cross_shard_tx_id ≢ ""
    → cleanup_after_execution c tx
      ≡ clear_all_metadata
          (clear_pending_rw_set (unlock_slots c tx.cross_shard_tx_id) tx.cross_shard_tx_id)
          tx.cross_shard_tx_id
unfolding cleanup_after_execution cleanup_as
passed_unlock c tx k n =
    let named : (tx.cross_shard_tx_id == "") ≡ false =
      ground (arith, string_key.same_iff tx.cross_shard_tx_id "") in
    rw (named, k, cleanup_as) refl

pub unlock_unblocked :
    (c : Chain) (tx : Transaction)
    → tx.tx_type ≡ TxType.unlock
    → check_local_tx_lock_conflict c tx ≡ false
unfolding check_local_tx_lock_conflict conflicts_as
unlock_unblocked c tx k = rw (k, conflicts_as) refl

pub local_conflict :
    (c : Chain) (tx : Transaction)
    → tx.tx_type ≡ TxType.local
    → check_local_tx_lock_conflict c tx
      ≡ (is_address_locked c.slot_locks tx.from || is_address_locked c.slot_locks tx.to)
unfolding check_local_tx_lock_conflict conflicts_as
local_conflict c tx k = rw (k, conflicts_as) refl
