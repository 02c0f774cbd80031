-- ===== src/Shard/Blocks/Frame.antt =====
-- Running transactions leaves the blocks, the height and the prepare operations alone.
use test_v.Prelude.{
  refl, ◌∙◌, inl, inr, Bool, List, [], ◌∷◌, Option, none, some, Bool-cases, Option-cases,
  string_key,
}
use test_v.Prelude.Int.{pos, ltb_ℤ}
use test_v.Prelude.Maps.{insert}
use test_v.Protocol.{Transaction, to_big_int}
use test_v.Shard.SlotLocks.{lock_rw_set}
use test_v.Shard.FundLocks.{lock_funds, get_locked_amount}
use test_v.Shard.Evm.{StateDb, can_debit, execute_tx}
use test_v.Shard.Chain.{Chain, clear_fund_lock, check_local_tx_lock_conflict}
use test_v.Shard.Chain.Frame.{Frame, cleanup_after_execution-Frame, cleanup_after_failure-Frame}
use test_v.Shard.Blocks.{
  lock_read_set, execute_lock, is_lock, execute_other, process_tx, process_txs,
}
use test_v.Shard.Blocks.Locking.{Locking-cases, validate_locking, validate_refused}
use test_v.Shard.Blocks.Isolation.{Exec-cases}

module _ (db : StateDb) where
  lock_read_set-Frame :
      (c : Chain) (s : db.State) (tx : Transaction) → Frame c (lock_read_set db c s tx).0
  unfolding lock_read_set
  lock_read_set-Frame c s tx =
      let t = tx.cross_shard_tx_id in
      elim (Locking-cases
        (lock_rw_set (db.get_state s) db.bytes_to_hash t tx.rw_set c.slot_locks [])) [
          | inl (l, held, e) ↦
              let c₁ : Chain = record c {
                slot_locks = l;
                pending_rw_sets = insert t tx.rw_set c.pending_rw_sets;
              } in
              let v = validate_locking db c s t tx.rw_set l held e in
              rw (lock_read_set, v, v) (cleanup_after_execution-Frame c₁ tx)
          | inr (l, err, e) ↦
              let c₁ : Chain = clear_fund_lock (record c { slot_locks = l }) t in
              let v = validate_refused db c s t tx.rw_set l err e in
              rw (lock_read_set, v, v) (cleanup_after_failure-Frame c₁ tx)
        ]

  execute_lock-Frame :
      (c : Chain) (s : db.State) (tx : Transaction) → Frame c (execute_lock db c s tx).0
  unfolding execute_lock
  execute_lock-Frame c s tx =
      let amount = to_big_int tx.value in
      let c₁ : Chain = record c {
        funds = lock_funds c.funds tx.cross_shard_tx_id tx.from amount;
      } in
      elim (Bool-cases (ltb_ℤ (pos 0) amount)) [
        | inr z ↦ rw (z, execute_lock) (lock_read_set-Frame c s tx)
        | inl z ↦
            elim (Bool-cases (can_debit db s tx.from amount (get_locked_amount c.funds tx.from))) [
              | inr poor ↦ rw (z, poor, execute_lock) (cleanup_after_failure-Frame c tx)
              | inl rich ↦ rw (z, rich, execute_lock) (lock_read_set-Frame c₁ s tx)
            ]
      ]

  abbrev Stepped : Chain → Option (Chain × db.State × Bool) → Type 0
  Stepped c none = Unit
  Stepped c (some (d, s, included)) = Frame c d

  execute_other-Frame :
      (c : Chain) (s : db.State) (tx : Transaction) → Stepped c (execute_other db c s tx)
  unfolding execute_other
  execute_other-Frame c s tx = elim (Exec-cases (execute_tx db (db.snapshot s).0 tx)) [
    | inl e ↦ rw (e, execute_other) tt
    | inr (inl (s₂, e)) ↦ rw (e, execute_other) (cleanup_after_failure-Frame c tx)
    | inr (inr (s₂, e)) ↦ rw (e, execute_other) (cleanup_after_execution-Frame c tx)
  ]

  process_tx-Frame :
      (c : Chain) (s : db.State) (tx : Transaction) → Stepped c (process_tx db c s tx)
  unfolding process_tx
  process_tx-Frame c s tx = elim (Bool-cases (check_local_tx_lock_conflict c tx)) [
    | inl blocked ↦ rw (blocked, process_tx) (refl, refl, refl)
    | inr free ↦ elim (Bool-cases (is_lock tx.tx_type)) [
      | inl k ↦ rw (free, k, process_tx) (execute_lock-Frame c s tx)
      | inr k ↦ rw (free, k, process_tx) (execute_other-Frame c s tx)
    ]
  ]

  abbrev pub Ran : Chain → Option (Chain × db.State × List Transaction) → Type 0
  Ran c none = Unit
  Ran c (some (d, s, txs)) = Frame c d

  pub process_txs-Frame :
      (c : Chain) (s : db.State) (txs : List Transaction) → Ran c (process_txs db c s txs)
  unfolding process_txs
  process_txs-Frame c s [] = (refl, refl, refl)
  process_txs-Frame c s (tx ∷ txs) =
      let first = process_tx-Frame c s tx in
      elim (Option-cases (process_tx db c s tx)) [
        | inl e ↦ rw (e, process_txs) tt
        | inr ((c₁, s₁, included), e) ↦
            let kept : Frame c c₁ = rw e at first in
            let rest = process_txs-Frame c₁ s₁ txs in
            elim (Option-cases (process_txs db c₁ s₁ txs)) [
              | inl e₁ ↦ rw (e, e₁, process_txs) tt
              | inr ((c₂, s₂, later), e₁) ↦
                  let more : Frame c₁ c₂ = rw e₁ at rest in
                  rw (e, e₁, process_txs) (more.0 ∙ kept.0, more.1 ∙ kept.1, more.2 ∙ kept.2)
            ]
      ]
