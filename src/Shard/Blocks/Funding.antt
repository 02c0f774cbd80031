-- ===== src/Shard/Blocks/Funding.antt =====
-- What a vote for a value transfer guarantees about its funds.
use test_v.Prelude.{
  ◌≡◌, refl, ◌≢◌, inl, inr, true, [], some, arith, nat_key, string_key, Bool-cases,
}
use test_v.Prelude.Int.{pos, ltb_ℤ, ◌+ℤ◌, ◌≤ℤ◌}
use test_v.Prelude.Maps.{lookup, insert}
use test_v.Protocol.{Transaction, TxType, to_big_int}
use test_v.Shard.SlotLocks.{lock_rw_set}
use test_v.Shard.FundLocks.{lock_funds, get_locked_amount}
use test_v.Shard.FundLocks.Index.{lookup-lock_funds, get_locked_amount-lock_funds}
use test_v.Shard.Evm.{StateDb, can_debit}
use test_v.Shard.Evm.Effects.{can_debit_lem}
use test_v.Shard.Chain.{Chain}
use test_v.Shard.Chain.Voting.{passed_lock}
use test_v.Shard.Blocks.{lock_read_set, execute_lock}
use test_v.Shard.Blocks.Locking.{Locking-cases, validate_locking, validate_refused}

module _ (db : StateDb) where
  lock_read_set-funds :
      (c : Chain) (s : db.State) (tx : Transaction)
      → tx.tx_type ≡ TxType.lock
      → tx.cross_shard_tx_id ≢ ""
      → (lock_read_set db c s tx).1 ≡ true
      → (lock_read_set db c s tx).0.funds ≡ c.funds
  unfolding lock_read_set
  lock_read_set-funds c s tx k n h =
      let t = tx.cross_shard_tx_id in
      elim (Locking-cases
        (lock_rw_set (db.get_state s) db.bytes_to_hash t tx.rw_set c.slot_locks [])) [
          | inl (l, held, e) ↦
              let c₁ : Chain = record c {
                slot_locks = l;
                pending_rw_sets = insert t tx.rw_set c.pending_rw_sets;
              } in
              let v = validate_locking db c s t tx.rw_set l held e in
              rw (lock_read_set, v, v, passed_lock c₁ tx k n) refl
          | inr (l, err, e) ↦
              let v = validate_refused db c s t tx.rw_set l err e in cc (rw (lock_read_set, v) at h)
        ]

  -- A Lock transaction with a cross-shard id and a positive value that votes YES has its funds
  -- locked: its lock is recorded, and the amount locked at the sender has grown by the value and is
  -- within the sender's balance.
  pub execute_lock_funded :
      (c : Chain) (s : db.State) (tx : Transaction)
      → tx.tx_type ≡ TxType.lock
      → tx.cross_shard_tx_id ≢ ""
      → ltb_ℤ (pos 0) (to_big_int tx.value) ≡ true
      → (execute_lock db c s tx).1 ≡ true
      → let d = (execute_lock db c s tx).0 in
        (lookup tx.cross_shard_tx_id d.funds.locked
          ≡ some (record { address = tx.from; amount = to_big_int tx.value }))
        × (get_locked_amount d.funds tx.from
            ≡ get_locked_amount c.funds tx.from +ℤ to_big_int tx.value)
        × (get_locked_amount d.funds tx.from ≤ℤ pos (db.get_balance s tx.from))
  unfolding execute_lock
  execute_lock_funded c s tx k n positive h =
      let t = tx.cross_shard_tx_id in
      let amount = to_big_int tx.value in
      let locked = get_locked_amount c.funds tx.from in
      let funds = lock_funds c.funds t tx.from amount in
      let c₁ : Chain = record c { funds = funds } in
      elim (Bool-cases (can_debit db s tx.from amount locked)) [
        | inr poor ↦ cc (rw (execute_lock, positive, poor) at h)
        | inl rich ↦
            let h' : (lock_read_set db c₁ s tx).1 ≡ true = rw (execute_lock, positive, rich) at h in
            let same = lock_read_set-funds c₁ s tx k n h' in
            let run : execute_lock db c s tx ≡ lock_read_set db c₁ s tx =
              rw (execute_lock, positive, rich) refl in
            let grown : get_locked_amount funds tx.from ≡ locked +ℤ amount = ground (
              arith,
              get_locked_amount-lock_funds c.funds t tx.from amount tx.from,
              nat_key.same_iff tx.from tx.from,
            ) in
            rw (run, same)
              (
                ground
                    (arith, lookup-lock_funds c.funds t t tx.from amount, string_key.same_iff t t),
                grown,
                rw grown (can_debit_lem db s tx.from amount locked rich),
              )
      ]
