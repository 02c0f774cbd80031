-- ===== src/Shard/Blocks/Isolation.antt =====
-- Block production handles each transaction apart from the others.
use test_v.Prelude.{
  ◌≡◌, refl, ◌≢◌, ◌⊎◌, inl, inr, Bool, List, [], ◌∷◌, Option, none, some, arith, nat_key,
  string_key, Bool-cases, Option-cases,
}
use test_v.Prelude.Int.{ℤ, pos, ltb_ℤ}
use test_v.Prelude.Lists.{All}
use test_v.Prelude.Maps.{insert, lookup-insert}
use test_v.Protocol.{Address, Hash, TxId, Transaction, to_big_int}
use test_v.Shard.SlotLocks.{SlotLocks, lock_rw_set}
use test_v.Shard.SlotLocks.Holder.{holder, held_by}
use test_v.Shard.SlotLocks.UnlockAll.{IsLocks}
use test_v.Shard.SlotLocks.Valid.{lock_rw_set-IsLocks, locks_of}
use test_v.Shard.SlotLocks.ReadSets.{Taken, Restored, Validated, lock_rw_set-Validated}
use test_v.Shard.FundLocks.{lock_funds, get_locked_amount}
use test_v.Shard.FundLocks.Index.{lookup-lock_funds}
use test_v.Shard.FundLocks.Reserved.{amounts_of-lock_funds}
use test_v.Shard.Evm.{StateDb, Exec, done, failed, panicked, can_debit, execute_tx}
use test_v.Shard.Chain.{
  Chain, clear_fund_lock, cleanup_after_execution, cleanup_after_failure,
  check_local_tx_lock_conflict,
}
use test_v.Shard.Chain.Clearing.{Agree, Agree-refl, Agree-trans}
use test_v.Shard.Chain.Cleanups.{
  cleanup_after_execution-Agree, cleanup_after_failure-Agree, clear_fund_lock-Agree,
}
use test_v.Shard.Chain.Valid.{cleanup_after_execution-IsLocks, cleanup_after_failure-IsLocks}
use test_v.Shard.Blocks.{
  lock_read_set, execute_lock, is_lock, execute_other, process_tx, process_txs,
}
use test_v.Shard.Blocks.Locking.{Locking-cases, validate_locking, validate_refused}

-- What a step keeps: all that belongs to another transaction, and the form of the slot locks.
abbrev pub Keeps : TxId → Chain → Chain → Type 0
Keeps u c d = Agree u c d × IsLocks d.slot_locks

Keeps-trans : (u : TxId) (c d e : Chain) → Keeps u c d → Keeps u d e → Keeps u c e
Keeps-trans u c d e p q = (Agree-trans u c d e p.0 q.0, q.1)

Taken-other :
    (t u : TxId) (l l' : SlotLocks) (a : Address) (s : Hash)
    → t ≢ u
    → Taken t l l'
    → held_by (holder l' a s) u ≡ held_by (holder l a s) u
Taken-other t u l l' a s n h = ground (arith, h a s, string_key.same_iff t u)

Restored-other :
    (t u : TxId) (l l' : SlotLocks) (a : Address) (s : Hash)
    → t ≢ u
    → Restored t l l'
    → held_by (holder l' a s) u ≡ held_by (holder l a s) u
Restored-other t u l l' a s n h = ground (arith, h a s, string_key.same_iff t u)

done-Keeps :
    (c : Chain) (tx : Transaction) (u : TxId)
    → tx.cross_shard_tx_id ≢ u
    → IsLocks c.slot_locks
    → Keeps u c (cleanup_after_execution c tx)
done-Keeps c tx u n h =
    (cleanup_after_execution-Agree c tx u h n, cleanup_after_execution-IsLocks c tx h)

failed-Keeps :
    (c : Chain) (tx : Transaction) (u : TxId)
    → tx.cross_shard_tx_id ≢ u
    → IsLocks c.slot_locks
    → Keeps u c (cleanup_after_failure c tx)
failed-Keeps c tx u n h =
    (cleanup_after_failure-Agree c tx u h n, cleanup_after_failure-IsLocks c tx h)

pub Exec-cases :
    {S : Type 0} (r : Exec S)
    → (r ≡ panicked) ⊎ ((s : S) × (r ≡ failed s)) ⊎ ((s : S) × (r ≡ done s))
Exec-cases panicked = inl refl
Exec-cases (failed s) = inr (inl (s, refl))
Exec-cases (done s) = inr (inr (s, refl))

module _ (db : StateDb) where
  lock_read_set-Keeps :
      (c : Chain) (s : db.State) (tx : Transaction) (u : TxId)
      → tx.cross_shard_tx_id ≢ u
      → IsLocks c.slot_locks
      → Keeps u c (lock_read_set db c s tx).0
  unfolding lock_read_set
  lock_read_set-Keeps c s tx u n h =
      let t = tx.cross_shard_tx_id in
      let r = lock_rw_set (db.get_state s) db.bytes_to_hash t tx.rw_set c.slot_locks [] in
      let valid : Validated (db.get_state s) db.bytes_to_hash t tx.rw_set c.slot_locks r =
        lock_rw_set-Validated (db.get_state s) db.bytes_to_hash t tx.rw_set c.slot_locks in
      let kept : IsLocks (locks_of r) =
        lock_rw_set-IsLocks (db.get_state s) db.bytes_to_hash t tx.rw_set c.slot_locks [] h in
      elim (Locking-cases r) [
        | inl (l, held, e) ↦
            let c₁ : Chain = record c {
              slot_locks = l;
              pending_rw_sets = insert t tx.rw_set c.pending_rw_sets;
            } in
            let v = validate_locking db c s t tx.rw_set l held e in
            let first : Agree u c c₁ = record {
              funds = refl;
              reserved = λ a. refl;
              credits = refl;
              calls = refl;
              rw_sets =
                  ground
                    (arith, lookup-insert t u tx.rw_set c.pending_rw_sets, string_key.same_iff t u);
              votes = refl;
              slots = λ a s. Taken-other t u c.slot_locks l a s n (rw e at valid).1;
            } in
            rw (lock_read_set, v, v)
              (Keeps-trans u c c₁ (cleanup_after_execution c₁ tx) (first, rw e at kept)
                (done-Keeps c₁ tx u n (rw e at kept)))
        | inr (l, err, e) ↦
            let c₁ : Chain = record c { slot_locks = l } in
            let c₂ : Chain = clear_fund_lock c₁ t in
            let v = validate_refused db c s t tx.rw_set l err e in
            let first : Agree u c c₁ = record {
              funds = refl;
              reserved = λ a. refl;
              credits = refl;
              calls = refl;
              rw_sets = refl;
              votes = refl;
              slots = λ a s. Restored-other t u c.slot_locks l a s n (rw e at valid);
            } in
            rw (lock_read_set, v, v)
              (Keeps-trans u c c₂ (cleanup_after_failure c₂ tx)
                (Agree-trans u c c₁ c₂ first (clear_fund_lock-Agree c₁ t u n), rw e at kept)
                (failed-Keeps c₂ tx u n (rw e at kept)))
      ]

  lock_funds-Agree :
      (c : Chain) (t u : TxId) (a : Address) (v : ℤ)
      → t ≢ u
      → Agree u c (record c { funds = lock_funds c.funds t a v })
  lock_funds-Agree c t u a v n = record {
    funds = ground (arith, lookup-lock_funds c.funds t u a v, string_key.same_iff t u);
    reserved = λ b. amounts_of-lock_funds c.funds t u a v b n;
    credits = refl;
    calls = refl;
    rw_sets = refl;
    votes = refl;
    slots = λ a s. refl;
  }

  execute_lock-Keeps :
      (c : Chain) (s : db.State) (tx : Transaction) (u : TxId)
      → tx.cross_shard_tx_id ≢ u
      → IsLocks c.slot_locks
      → Keeps u c (execute_lock db c s tx).0
  unfolding execute_lock
  execute_lock-Keeps c s tx u n h =
      let amount = to_big_int tx.value in
      let t = tx.cross_shard_tx_id in
      let c₁ : Chain = record c { funds = lock_funds c.funds t tx.from amount } in
      elim (Bool-cases (ltb_ℤ (pos 0) amount)) [
        | inr z ↦ rw (z, execute_lock) (lock_read_set-Keeps c s tx u n h)
        | inl z ↦
            elim (Bool-cases (can_debit db s tx.from amount (get_locked_amount c.funds tx.from))) [
              | inr poor ↦ rw (z, poor, execute_lock) (failed-Keeps c tx u n h)
              | inl rich ↦
                  rw (z, rich, execute_lock)
                    (Keeps-trans u c c₁ (lock_read_set db c₁ s tx).0
                      (lock_funds-Agree c t u tx.from amount n, h)
                      (lock_read_set-Keeps c₁ s tx u n h))
            ]
      ]

  -- What a step of block production leaves, unless it panics.
  abbrev Stepped : TxId → Chain → Option (Chain × db.State × Bool) → Type 0
  Stepped u c none = Unit
  Stepped u c (some (d, s, included)) = Keeps u c d

  execute_other-Stepped :
      (c : Chain) (s : db.State) (tx : Transaction) (u : TxId)
      → tx.cross_shard_tx_id ≢ u
      → IsLocks c.slot_locks
      → Stepped u c (execute_other db c s tx)
  unfolding execute_other
  execute_other-Stepped c s tx u n h = elim (Exec-cases (execute_tx db (db.snapshot s).0 tx)) [
    | inl e ↦ rw (e, execute_other) tt
    | inr (inl (s₂, e)) ↦ rw (e, execute_other) (failed-Keeps c tx u n h)
    | inr (inr (s₂, e)) ↦ rw (e, execute_other) (done-Keeps c tx u n h)
  ]

  process_tx-Stepped :
      (c : Chain) (s : db.State) (tx : Transaction) (u : TxId)
      → tx.cross_shard_tx_id ≢ u
      → IsLocks c.slot_locks
      → Stepped u c (process_tx db c s tx)
  unfolding process_tx
  process_tx-Stepped c s tx u n h = elim (Bool-cases (check_local_tx_lock_conflict c tx)) [
    | inl blocked ↦ rw (blocked, process_tx) (Agree-refl u c, h)
    | inr free ↦ elim (Bool-cases (is_lock tx.tx_type)) [
      | inl k ↦ rw (free, k, process_tx) (execute_lock-Keeps c s tx u n h)
      | inr k ↦ rw (free, k, process_tx) (execute_other-Stepped c s tx u n h)
    ]
  ]

  abbrev Ran : TxId → Chain → Option (Chain × db.State × List Transaction) → Type 0
  Ran u c none = Unit
  Ran u c (some (d, s, txs)) = Keeps u c d

  process_txs-Ran :
      (c : Chain) (s : db.State) (txs : List Transaction) (u : TxId)
      → All (λ tx. tx.cross_shard_tx_id ≢ u) txs
      → IsLocks c.slot_locks
      → Ran u c (process_txs db c s txs)
  unfolding process_txs
  process_txs-Ran c s [] u n h = (Agree-refl u c, h)
  process_txs-Ran c s (tx ∷ txs) u n h =
      let first = process_tx-Stepped c s tx u n.0 h in
      elim (Option-cases (process_tx db c s tx)) [
        | inl e ↦ rw (e, process_txs) tt
        | inr ((c₁, s₁, included), e) ↦
            let kept : Keeps u c c₁ = rw e at first in
            let rest = process_txs-Ran c₁ s₁ txs u n.1 kept.1 in
            elim (Option-cases (process_txs db c₁ s₁ txs)) [
              | inl e₁ ↦ rw (e, e₁, process_txs) tt
              | inr ((c₂, s₂, later), e₁) ↦
                  rw (e, e₁, process_txs) (Keeps-trans u c c₁ c₂ kept (rw e₁ at rest))
            ]
      ]

  -- However the transactions of a block go, if they run to the end without a panic, they keep
  -- everything that belongs to a cross-shard transaction which none of them is about: its locked
  -- funds, what the index by address has reserved for it at each address, its pending credits, call and RwSet, its vote, and exactly the slots that it holds. Slot
  -- locks that are well formed before are so after.
  pub process_txs-Keeps :
      (c : Chain) (s : db.State) (txs : List Transaction) (u : TxId) (d : Chain) (s' : db.State)
      (included : List Transaction)
      → All (λ tx. tx.cross_shard_tx_id ≢ u) txs
      → IsLocks c.slot_locks
      → process_txs db c s txs ≡ some (d, s', included)
      → Agree u c d × IsLocks d.slot_locks
  process_txs-Keeps c s txs u d s' included n h e = rw e at (process_txs-Ran c s txs u n h)
