-- ===== src/Shard/Chain/Cleanups.antt =====
-- What the clean-up after each type of transaction keeps of other cross-shard transactions.
use test_v.Prelude.{
  refl, ◌≢◌, inl, inr, Bool, true, false, arith, nat_key, string_key, ◌==◌, Bool-cases,
  Option-cases,
}
use test_v.Prelude.Lists.{length}
use test_v.Prelude.Maps.{lookup, insert, lookup-insert, lookup-erase}
use test_v.Protocol.{Address, TxId, Transaction, TxType}
use test_v.Shard.SlotLocks.UnlockAll.{IsLocks}
use test_v.Shard.SlotLocks.Valid.{unlock_all-IsLocks}
use test_v.Shard.FundLocks.Index.{lookup-clear_lock_locked}
use test_v.Shard.FundLocks.Reserved.{amounts_of-clear_lock_locked}
use test_v.Shard.Chain.{
  Chain, clear_pending_credit_for_address, clear_pending_call, clear_pending_rw_set,
  clear_fund_lock, unlock_slots, clear_all_metadata, cleanup_as, cleanup_after_execution, fail_as,
  cleanup_after_failure, other_credits,
}
use test_v.Shard.Chain.Clearing.{
  Agree, Agree-refl, Agree-trans, unlock_slots-slots, clear_all_metadata-Agree,
}

credit_for_address-Agree :
    (c : Chain) (t u : TxId) (addr : Address)
    → t ≢ u
    → Agree u c (clear_pending_credit_for_address c t addr)
unfolding clear_pending_credit_for_address
credit_for_address-Agree c t u addr n = elim (Option-cases (lookup t c.pending_credits)) [
  | inl e ↦ rw (e, clear_pending_credit_for_address) (Agree-refl u c)
  | inr (credits, e) ↦
      let left = other_credits addr credits in
      elim (Bool-cases (length left == 0)) [
        | inl z ↦
            rw (e, z, clear_pending_credit_for_address)
              (record {
                funds = refl;
                reserved = λ a. refl;
                credits =
                    ground (arith, lookup-erase t u c.pending_credits, string_key.same_iff t u);
                calls = refl;
                rw_sets = refl;
                votes = refl;
                slots = λ a s. refl;
              })
        | inr z ↦
            rw (e, z, clear_pending_credit_for_address)
              (record {
                funds = refl;
                reserved = λ a. refl;
                credits =
                    ground
                      (arith, lookup-insert t u left c.pending_credits, string_key.same_iff t u);
                calls = refl;
                rw_sets = refl;
                votes = refl;
                slots = λ a s. refl;
              })
      ]
]

pub clear_fund_lock-Agree : (c : Chain) (t u : TxId) → t ≢ u → Agree u c (clear_fund_lock c t)
clear_fund_lock-Agree c t u n = record {
  funds = ground (arith, lookup-clear_lock_locked c.funds t u, string_key.same_iff t u);
  reserved = λ a. amounts_of-clear_lock_locked c.funds t u a n;
  credits = refl;
  calls = refl;
  rw_sets = refl;
  votes = refl;
  slots = λ a s. refl;
}

clear_pending_call-Agree : (c : Chain) (t u : TxId) → t ≢ u → Agree u c (clear_pending_call c t)
unfolding clear_pending_call
clear_pending_call-Agree c t u n = record {
  funds = refl;
  reserved = λ a. refl;
  credits = refl;
  calls = ground (arith, lookup-erase t u c.pending_calls, string_key.same_iff t u);
  rw_sets = refl;
  votes = refl;
  slots = λ a s. refl;
}

pub vote-Agree :
    (c : Chain) (t u : TxId) (b : Bool)
    → t ≢ u
    → Agree u c (record c { prepares = insert t b c.prepares })
vote-Agree c t u b n = record {
  funds = refl;
  reserved = λ a. refl;
  credits = refl;
  calls = refl;
  rw_sets = refl;
  votes = ground (arith, lookup-insert t u b c.prepares, string_key.same_iff t u);
  slots = λ a s. refl;
}

finalize-Agree :
    (c : Chain) (t u : TxId)
    → IsLocks c.slot_locks
    → t ≢ u
    → Agree u c (clear_pending_rw_set (unlock_slots c t) t)
unfolding clear_pending_rw_set
finalize-Agree c t u h n = record {
  funds = refl;
  reserved = λ a. refl;
  credits = refl;
  calls = refl;
  rw_sets = ground (arith, lookup-erase t u c.pending_rw_sets, string_key.same_iff t u);
  votes = refl;
  slots = λ a s. unlock_slots-slots c t u a s h n;
}

pub finalize-IsLocks :
    (c : Chain) (t : TxId)
    → IsLocks c.slot_locks
    → IsLocks (clear_pending_rw_set (unlock_slots c t) t).slot_locks
unfolding clear_pending_rw_set
finalize-IsLocks c t h = unlock_all-IsLocks c.slot_locks t h

cleanup_as-Agree :
    (k : TxType) (c : Chain) (tx : Transaction) (u : TxId)
    → IsLocks c.slot_locks
    → tx.cross_shard_tx_id ≢ u
    → Agree u c (cleanup_as k c tx)
unfolding cleanup_as
cleanup_as-Agree TxType.cross_debit c tx u h n = clear_fund_lock-Agree c tx.cross_shard_tx_id u n
cleanup_as-Agree TxType.cross_credit c tx u h n =
    credit_for_address-Agree c tx.cross_shard_tx_id u tx.to n
cleanup_as-Agree TxType.cross_writeset c tx u h n =
    clear_pending_call-Agree c tx.cross_shard_tx_id u n
cleanup_as-Agree TxType.cross_abort c tx u h n =
    clear_all_metadata-Agree c tx.cross_shard_tx_id u h n
cleanup_as-Agree TxType.lock c tx u h n = vote-Agree c tx.cross_shard_tx_id u true n
cleanup_as-Agree TxType.finalize c tx u h n = finalize-Agree c tx.cross_shard_tx_id u h n
cleanup_as-Agree TxType.unlock c tx u h n =
    let t = tx.cross_shard_tx_id in
    let c₁ = clear_pending_rw_set (unlock_slots c t) t in
    Agree-trans u c c₁ (clear_all_metadata c₁ t) (finalize-Agree c t u h n)
      (clear_all_metadata-Agree c₁ t u (finalize-IsLocks c t h) n)
cleanup_as-Agree TxType.local c tx u h n = Agree-refl u c
cleanup_as-Agree TxType.prepare_debit c tx u h n = Agree-refl u c
cleanup_as-Agree TxType.prepare_credit c tx u h n = Agree-refl u c
cleanup_as-Agree TxType.prepare_writeset c tx u h n = Agree-refl u c
cleanup_as-Agree TxType.sim_error c tx u h n = Agree-refl u c
cleanup_as-Agree (TxType.unknown x) c tx u h n = Agree-refl u c

pub cleanup_after_execution-Agree :
    (c : Chain) (tx : Transaction) (u : TxId)
    → IsLocks c.slot_locks
    → tx.cross_shard_tx_id ≢ u
    → Agree u c (cleanup_after_execution c tx)
unfolding cleanup_after_execution
cleanup_after_execution-Agree c tx u h n = elim (Bool-cases (tx.cross_shard_tx_id == "")) [
  | inl e ↦ rw e (Agree-refl u c)
  | inr e ↦ rw e (cleanup_as-Agree tx.tx_type c tx u h n)
]

pub cleanup_after_failure-Agree :
    (c : Chain) (tx : Transaction) (u : TxId)
    → IsLocks c.slot_locks
    → tx.cross_shard_tx_id ≢ u
    → Agree u c (cleanup_after_failure c tx)
unfolding cleanup_after_failure fail_as
cleanup_after_failure-Agree c tx u h n = by_type tx.tx_type
  where
    by_type : (k : TxType) → Agree u c (fail_as k c tx)
    by_type TxType.lock =
        let c₁ = clear_all_metadata c tx.cross_shard_tx_id in
        Agree-trans u c c₁ (record c₁ { prepares = insert tx.cross_shard_tx_id false c₁.prepares })
          (clear_all_metadata-Agree c tx.cross_shard_tx_id u h n)
          (vote-Agree c₁ tx.cross_shard_tx_id u false n)
    by_type TxType.unlock = Agree-refl u c
    by_type TxType.local = Agree-refl u c
    by_type TxType.cross_debit = Agree-refl u c
    by_type TxType.cross_credit = Agree-refl u c
    by_type TxType.cross_writeset = Agree-refl u c
    by_type TxType.cross_abort = Agree-refl u c
    by_type TxType.finalize = Agree-refl u c
    by_type TxType.prepare_debit = Agree-refl u c
    by_type TxType.prepare_credit = Agree-refl u c
    by_type TxType.prepare_writeset = Agree-refl u c
    by_type TxType.sim_error = Agree-refl u c
    by_type (TxType.unknown x) = Agree-refl u c
