-- ===== src/Shard/Chain/Frame.antt =====
-- What no clean-up touches.
use test_v.Prelude.{◌≡◌, refl, inl, inr, Option-cases, Bool-cases, nat_key, string_key, ◌==◌}
use test_v.Prelude.Lists.{length}
use test_v.Prelude.Maps.{lookup}
use test_v.Protocol.{Address, TxId, Transaction, TxType}
use test_v.Shard.Chain.{
  Chain, clear_pending_credit, clear_pending_credit_for_address, clear_pending_call,
  clear_pending_rw_set, clear_all_metadata, cleanup_as, cleanup_after_execution, fail_as,
  cleanup_after_failure, other_credits,
}

-- The blocks, the height and the recorded prepare operations are the same.
abbrev pub Frame : Chain → Chain → Type 0
Frame c d = (d.blocks ≡ c.blocks) × (d.height ≡ c.height) × (d.prepare_txs ≡ c.prepare_txs)

credit_for_address-Frame :
    (c : Chain) (t : TxId) (addr : Address) → Frame c (clear_pending_credit_for_address c t addr)
unfolding clear_pending_credit_for_address
credit_for_address-Frame c t addr = elim (Option-cases (lookup t c.pending_credits)) [
  | inl e ↦ rw (e, clear_pending_credit_for_address) (refl, refl, refl)
  | inr (credits, e) ↦ elim (Bool-cases (length (other_credits addr credits) == 0)) [
    | inl z ↦ rw (e, z, clear_pending_credit_for_address) (refl, refl, refl)
    | inr z ↦ rw (e, z, clear_pending_credit_for_address) (refl, refl, refl)
  ]
]

cleanup_as-Frame : (k : TxType) (c : Chain) (tx : Transaction) → Frame c (cleanup_as k c tx)
unfolding cleanup_as clear_all_metadata clear_pending_rw_set clear_pending_call clear_pending_credit
cleanup_as-Frame TxType.local c tx = (refl, refl, refl)
cleanup_as-Frame TxType.cross_debit c tx = (refl, refl, refl)
cleanup_as-Frame TxType.cross_credit c tx = credit_for_address-Frame c tx.cross_shard_tx_id tx.to
cleanup_as-Frame TxType.cross_writeset c tx = (refl, refl, refl)
cleanup_as-Frame TxType.cross_abort c tx = (refl, refl, refl)
cleanup_as-Frame TxType.prepare_debit c tx = (refl, refl, refl)
cleanup_as-Frame TxType.prepare_credit c tx = (refl, refl, refl)
cleanup_as-Frame TxType.prepare_writeset c tx = (refl, refl, refl)
cleanup_as-Frame TxType.lock c tx = (refl, refl, refl)
cleanup_as-Frame TxType.unlock c tx = (refl, refl, refl)
cleanup_as-Frame TxType.sim_error c tx = (refl, refl, refl)
cleanup_as-Frame TxType.finalize c tx = (refl, refl, refl)
cleanup_as-Frame (TxType.unknown x) c tx = (refl, refl, refl)

pub cleanup_after_execution-Frame :
    (c : Chain) (tx : Transaction) → Frame c (cleanup_after_execution c tx)
unfolding cleanup_after_execution
cleanup_after_execution-Frame c tx = elim (Bool-cases (tx.cross_shard_tx_id == "")) [
  | inl e ↦ rw e (refl, refl, refl)
  | inr e ↦ rw e (cleanup_as-Frame tx.tx_type c tx)
]

fail_as-Frame : (k : TxType) (c : Chain) (tx : Transaction) → Frame c (fail_as k c tx)
unfolding fail_as clear_all_metadata clear_pending_rw_set clear_pending_call clear_pending_credit
fail_as-Frame TxType.local c tx = (refl, refl, refl)
fail_as-Frame TxType.cross_debit c tx = (refl, refl, refl)
fail_as-Frame TxType.cross_credit c tx = (refl, refl, refl)
fail_as-Frame TxType.cross_writeset c tx = (refl, refl, refl)
fail_as-Frame TxType.cross_abort c tx = (refl, refl, refl)
fail_as-Frame TxType.prepare_debit c tx = (refl, refl, refl)
fail_as-Frame TxType.prepare_credit c tx = (refl, refl, refl)
fail_as-Frame TxType.prepare_writeset c tx = (refl, refl, refl)
fail_as-Frame TxType.lock c tx = (refl, refl, refl)
fail_as-Frame TxType.unlock c tx = (refl, refl, refl)
fail_as-Frame TxType.sim_error c tx = (refl, refl, refl)
fail_as-Frame TxType.finalize c tx = (refl, refl, refl)
fail_as-Frame (TxType.unknown x) c tx = (refl, refl, refl)

pub cleanup_after_failure-Frame :
    (c : Chain) (tx : Transaction) → Frame c (cleanup_after_failure c tx)
unfolding cleanup_after_failure
cleanup_after_failure-Frame c tx = fail_as-Frame tx.tx_type c tx
