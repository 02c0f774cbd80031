-- ===== src/Shard/Pending.antt =====
-- internal/shard/chain.go: the rest of a chain's interface, by which other code reads what a pending
-- transaction left, applies its write set and marks it as decided.
use test_v.Prelude.{
  ◌≡◌, refl, inl, inr, true, false, ◌||◌, List, [], ◌∷◌, ◌++◌, Option, none, some, arith,
  string_key, ◌==◌,
}
use test_v.Prelude.Int.{ℤ}
use test_v.Prelude.Maps.{lookup, insert, lookup-insert_self, get_or-insert}
use test_v.Protocol.{Address, TxId, Transaction, TxType}
use test_v.Shard.SlotLocks.{lock_rw_set}
use test_v.Shard.Evm.{StateDb, done, apply_write_set, execute_tx, execute_as}
use test_v.Shard.Chain.{
  Chain, PendingCredit, store_pending_credit, is_commit_processed, check_and_mark_commit_processed,
}
use test_v.Shard.Blocks.{validate_and_lock_read_set}
use test_v.Shard.Blocks.Locking.{Locking-cases, validate_locking, validate_refused}

-- `GetPendingCredits`: the stored slice is never nil.
get_pending_credits : Chain → TxId → Option (List PendingCredit)
get_pending_credits c tx_id = lookup tx_id c.pending_credits

mark_commit_processed : Chain → TxId → Chain
mark_commit_processed c tx_id = record c {
  processed_commits = insert tx_id true c.processed_commits;
}

-- A stored credit stands behind those that were stored before it.
get_pending_credits-store_pending_credit :
    (c : Chain) (t : TxId) (addr : Address) (amount : ℤ) (earlier : List PendingCredit)
    → get_pending_credits c t ≡ some earlier
    → get_pending_credits (store_pending_credit c t addr amount) t
      ≡ some (earlier ++ record { address = addr; amount = amount } ∷ [])
unfolding get_pending_credits store_pending_credit
get_pending_credits-store_pending_credit c t addr amount earlier h =
    let added = (earlier ++ record { address = addr; amount = amount } ∷ []) in
    ground (arith, lookup-insert_self t added c.pending_credits)

-- A mark is for its own transaction only.
is_commit_processed-mark_commit_processed :
    (c : Chain) (t u : TxId)
    → is_commit_processed (mark_commit_processed c t) u ≡ ((t == u) || is_commit_processed c u)
unfolding mark_commit_processed
is_commit_processed-mark_commit_processed c t u =
    ground (arith, get_or-insert false t u true c.processed_commits)

-- `CheckAndMarkCommitProcessed` ends with the marks that `MarkCommitProcessed` makes.
marks_agree :
    (c : Chain) (t u : TxId)
    → is_commit_processed (check_and_mark_commit_processed c t).0 u
      ≡ is_commit_processed (mark_commit_processed c t) u
unfolding check_and_mark_commit_processed mark_commit_processed
marks_agree c t u =
    ground (arith, get_or-insert false t u true c.processed_commits, string_key.same_iff t u)

module _ (db : StateDb) where
  -- `ApplyWriteSet`: the account state after it; `none` is its error.
  apply_pending_write_set : Chain → db.State → TxId → Option db.State
  apply_pending_write_set c s tx_id = elim (lookup tx_id c.pending_rw_sets) [
    | none ↦ none
    | some rw_set ↦ some (apply_write_set db s rw_set)
  ]

  -- Once a Lock transaction's read set is validated and locked, applying what the chain stored is
  -- running the Finalize transaction that carries the same variables.
  apply_validated :
      (c : Chain) (s now : db.State) (t : TxId) (finalize : Transaction)
      → (validate_and_lock_read_set db c s t finalize.rw_set).1 ≡ none
      → finalize.tx_type ≡ TxType.finalize
      → (after : db.State) × (apply_pending_write_set
            (validate_and_lock_read_set db c s t finalize.rw_set).0
            now
            t
          ≡ some after)
        × (execute_tx db now finalize ≡ done after)
  unfolding apply_pending_write_set execute_tx execute_as
  apply_validated c s now t finalize v k =
      elim (Locking-cases
        (lock_rw_set (db.get_state s) db.bytes_to_hash t finalize.rw_set c.slot_locks [])) [
          | inl (l, held, e) ↦ (
            apply_write_set db now finalize.rw_set,
            rw
                (
                  validate_locking db c s t finalize.rw_set l held e,
                  apply_pending_write_set,
                  lookup-insert_self t finalize.rw_set c.pending_rw_sets,
                )
                refl,
            rw (k, execute_as) refl,
          )
          | inr (l, err, e) ↦
              (let refused_v = validate_refused db c s t finalize.rw_set l err e in
                absurd (ground (arith, refused_v, v)))
        ]
