-- ===== src/Shard/Evm.antt =====
-- internal/shard/evm.go: how a chain's transactions change the account state. The state itself is
-- go-ethereum's StateDB and EVM, and the amounts are holiman/uint256's, which are parameters here.
pub mod Effects
use test_v.Prelude.{
  ℕ, Bool, true, false, not, List, [], ◌∷◌, Option, none, some, nat_key, ◌==◌, if◌then◌else◌, leb,
  ltb,
}
use test_v.Prelude.Lists.{length}
use test_v.Prelude.Int.{ℤ, pos, ◌-ℤ◌, leb_ℤ}
use test_v.Protocol.{Address, Hash, RwVariable, WriteSetItem, Transaction, TxType, to_big_int}

-- What the code calls of those libraries.
pub record StateDb : Type 1 where
  pub State : Type 0
  pub get_state : State → Address → Hash → Hash
  pub set_state : State → Address → Hash → Hash → State
  pub get_balance : State → Address → ℕ
  pub add_balance : State → Address → ℕ → State
  pub sub_balance : State → Address → ℕ → State
  -- `evm.Call` by its caller, contract, input, gas and value: the state after it, and whether it
  -- succeeded.
  pub call : State → Address → Address → List ℕ → ℕ → ℕ → State × Bool
  pub snapshot : State → State × ℕ
  pub revert : State → ℕ → State
  -- `Commit` and the reload at the new root; `none` is an error.
  pub commit : State → ℕ → Option (State × Hash)
  -- `uint256.MustFromBig`; `none` is a panic.
  pub must_from_big : ℤ → Option ℕ
  -- `common.BytesToHash`
  pub bytes_to_hash : List ℕ → Hash

-- A transaction's outcome; an error may leave a changed state behind.
pub data Exec (S : Type 0) : Type 0 where
  done : S → Exec S
  failed : S → Exec S
  panicked : Exec S

module _ (db : StateDb) where
  -- `applyWriteSet`, which never fails
  pub apply_writes : db.State → Address → List WriteSetItem → db.State
  apply_writes s addr [] = s
  apply_writes s addr (write ∷ rest) =
      apply_writes (db.set_state s addr write.slot (db.bytes_to_hash write.new_value)) addr rest

  pub apply_write_set : db.State → List RwVariable → db.State
  apply_write_set s [] = s
  apply_write_set s (rw_var ∷ rest) =
      apply_write_set (apply_writes s rw_var.address rw_var.write_set) rest

  -- `CanDebit`
  unfoldable pub can_debit : db.State → Address → ℤ → ℤ → Bool
  can_debit s addr amount locked_amount =
      leb_ℤ amount (pos (db.get_balance s addr) -ℤ locked_amount)

  pub debit : db.State → Address → ℤ → Exec db.State
  debit s addr amount = elim (db.must_from_big amount) [
    | none ↦ panicked
    | some v ↦ if ltb (db.get_balance s addr) v then failed s else done (db.sub_balance s addr v)
  ]

  pub credit : db.State → Address → ℤ → Exec db.State
  credit s addr amount = elim (db.must_from_big amount) [
    | none ↦ panicked
    | some v ↦ done (db.add_balance s addr v)
  ]

  -- The `Transfer` of `newEVM`
  unfoldable pub transfer : db.State → Address → Address → ℕ → db.State
  transfer s from to v = db.add_balance (db.sub_balance s from v) to v

  -- `executeLocalTx`; both branches convert the value before anything else can happen.
  unfoldable pub execute_local_tx : db.State → Transaction → Exec db.State
  execute_local_tx s tx =
      let gas = if tx.gas == 0 then 3000000 else tx.gas in
      elim (db.must_from_big (to_big_int tx.value)) [
        | none ↦ panicked
        | some v ↦
            if ltb 0 (length tx.payload)
            then (let (s', ok) = db.call s tx.from tx.to tx.payload gas v in
                if ok then done s' else failed s')
            else if not (leb v (db.get_balance s tx.from))
            then failed s
            else done (transfer s tx.from tx.to v)
      ]

  -- `ExecuteTx`
  unfoldable pub execute_as : TxType → db.State → Transaction → Exec db.State
  execute_as TxType.local s tx = execute_local_tx s tx
  execute_as TxType.cross_debit s tx = debit s tx.from (to_big_int tx.value)
  execute_as TxType.cross_credit s tx = credit s tx.to (to_big_int tx.value)
  execute_as TxType.cross_writeset s tx = done (apply_write_set s tx.rw_set)
  execute_as TxType.cross_abort s tx = done s
  execute_as TxType.lock s tx = done s
  execute_as TxType.unlock s tx = done s
  execute_as TxType.finalize s tx = done (apply_write_set s tx.rw_set)
  execute_as TxType.sim_error s tx = done s
  execute_as other s tx = failed s

  unfoldable pub execute_tx : db.State → Transaction → Exec db.State
  execute_tx s tx = execute_as tx.tx_type s tx
