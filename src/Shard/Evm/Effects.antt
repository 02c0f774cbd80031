-- ===== src/Shard/Evm/Effects.antt =====
-- Single steps of transaction execution.
use test_v.Prelude.{◌≡◌, refl, arith}
use test_v.Prelude.Int.{ℤ, pos, ◌≤ℤ◌, -ℤ_parts, ◌+ℤ◌, +ℤ_parts}
use test_v.Prelude.{true}
use test_v.Protocol.{Address, Transaction, TxType}
use test_v.Shard.Evm.{StateDb, done, execute_as, execute_tx, can_debit}

module _ (db : StateDb) where
  pub unlock_runs :
      (s : db.State) (tx : Transaction) → tx.tx_type ≡ TxType.unlock → execute_tx db s tx ≡ done s
  unfolding execute_tx execute_as
  unlock_runs s tx k = rw (k, execute_as) refl

  -- What `CanDebit` checks: the balance covers the amount on top of what is locked.
  pub can_debit_lem :
      (s : db.State) (a : Address) (amount locked_amount : ℤ)
      → can_debit db s a amount locked_amount ≡ true
      → locked_amount +ℤ amount ≤ℤ pos (db.get_balance s a)
  unfolding can_debit
  can_debit_lem s a amount locked_amount h =
      ground
        (arith, -ℤ_parts (pos (db.get_balance s a)) locked_amount, +ℤ_parts locked_amount amount)
