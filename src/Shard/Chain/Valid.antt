-- ===== src/Shard/Chain/Valid.antt =====
-- The clean-ups keep each address, and each slot of an address, listed once.
use test_v.Prelude.{◌≡◌, refl, inl, inr, Option-cases, Bool-cases, nat_key, string_key, ◌==◌}
use test_v.Prelude.Lists.{length}
use test_v.Prelude.Maps.{lookup}
use test_v.Protocol.{Address, TxId, Transaction, TxType}
use test_v.Shard.SlotLocks.UnlockAll.{IsLocks}
use test_v.Shard.SlotLocks.Valid.{unlock_all-IsLocks}
use test_v.Shard.Chain.{
  Chain, clear_pending_credit, clear_pending_credit_for_address, clear_pending_call,
  clear_pending_rw_set, unlock_slots, clear_all_metadata, cleanup_as, cleanup_after_execution,
  fail_as, cleanup_after_failure, other_credits,
}

clear_all_metadata-IsLocks :
    (c : Chain) (t : TxId) → IsLocks c.slot_locks → IsLocks (clear_all_metadata c t).slot_locks
unfolding clear_all_metadata clear_pending_rw_set clear_pending_credit clear_pending_call
clear_all_metadata-IsLocks c t h = unlock_all-IsLocks c.slot_locks t h

credit_for_address-slot_locks :
    (c : Chain) (t : TxId) (addr : Address)
    → (clear_pending_credit_for_address c t addr).slot_locks ≡ c.slot_locks
unfolding clear_pending_credit_for_address
credit_for_address-slot_locks c t addr = elim (Option-cases (lookup t c.pending_credits)) [
  | inl e ↦ rw (e, clear_pending_credit_for_address) refl
  | inr (credits, e) ↦ elim (Bool-cases (length (other_credits addr credits) == 0)) [
    | inl z ↦ rw (e, z, clear_pending_credit_for_address) refl
    | inr z ↦ rw (e, z, clear_pending_credit_for_address) refl
  ]
]

cleanup_as-IsLocks :
    (k : TxType) (c : Chain) (tx : Transaction)
    → IsLocks c.slot_locks
    → IsLocks (cleanup_as k c tx).slot_locks
unfolding cleanup_as clear_pending_rw_set clear_pending_call
cleanup_as-IsLocks TxType.cross_credit c tx h =
    rw (credit_for_address-slot_locks c tx.cross_shard_tx_id tx.to) h
cleanup_as-IsLocks TxType.cross_abort c tx h = clear_all_metadata-IsLocks c tx.cross_shard_tx_id h
cleanup_as-IsLocks TxType.finalize c tx h = unlock_all-IsLocks c.slot_locks tx.cross_shard_tx_id h
cleanup_as-IsLocks TxType.unlock c tx h =
    let t = tx.cross_shard_tx_id in
    clear_all_metadata-IsLocks (clear_pending_rw_set (unlock_slots c t) t) t
      (unlock_all-IsLocks c.slot_locks t h)
cleanup_as-IsLocks TxType.lock c tx h = h
cleanup_as-IsLocks TxType.cross_debit c tx h = h
cleanup_as-IsLocks TxType.cross_writeset c tx h = h
cleanup_as-IsLocks TxType.local c tx h = h
cleanup_as-IsLocks TxType.prepare_debit c tx h = h
cleanup_as-IsLocks TxType.prepare_credit c tx h = h
cleanup_as-IsLocks TxType.prepare_writeset c tx h = h
cleanup_as-IsLocks TxType.sim_error c tx h = h
cleanup_as-IsLocks (TxType.unknown x) c tx h = h

pub cleanup_after_execution-IsLocks :
    (c : Chain) (tx : Transaction)
    → IsLocks c.slot_locks
    → IsLocks (cleanup_after_execution c tx).slot_locks
unfolding cleanup_after_execution
cleanup_after_execution-IsLocks c tx h = elim (Bool-cases (tx.cross_shard_tx_id == "")) [
  | inl e ↦ rw e h
  | inr e ↦ rw e (cleanup_as-IsLocks tx.tx_type c tx h)
]

fail_as-IsLocks :
    (k : TxType) (c : Chain) (tx : Transaction)
    → IsLocks c.slot_locks
    → IsLocks (fail_as k c tx).slot_locks
unfolding fail_as
fail_as-IsLocks TxType.lock c tx h = clear_all_metadata-IsLocks c tx.cross_shard_tx_id h
fail_as-IsLocks TxType.unlock c tx h = h
fail_as-IsLocks TxType.local c tx h = h
fail_as-IsLocks TxType.cross_debit c tx h = h
fail_as-IsLocks TxType.cross_credit c tx h = h
fail_as-IsLocks TxType.cross_writeset c tx h = h
fail_as-IsLocks TxType.cross_abort c tx h = h
fail_as-IsLocks TxType.finalize c tx h = h
fail_as-IsLocks TxType.prepare_debit c tx h = h
fail_as-IsLocks TxType.prepare_credit c tx h = h
fail_as-IsLocks TxType.prepare_writeset c tx h = h
fail_as-IsLocks TxType.sim_error c tx h = h
fail_as-IsLocks (TxType.unknown x) c tx h = h

pub cleanup_after_failure-IsLocks :
    (c : Chain) (tx : Transaction)
    → IsLocks c.slot_locks
    → IsLocks (cleanup_after_failure c tx).slot_locks
unfolding cleanup_after_failure
cleanup_after_failure-IsLocks c tx h = fail_as-IsLocks tx.tx_type c tx h
