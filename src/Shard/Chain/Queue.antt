-- ===== src/Shard/Chain/Queue.antt =====
-- Queueing a transaction, and marking a decision as processed, in one step each.
use test_v.Prelude.{◌≡◌, refl, ap, true, false, [], ◌∷◌, ◌++◌, string_key}
use test_v.Prelude.Int.{ℤ}
use test_v.Prelude.Maps.{insert}
use test_v.Protocol.{Address, TxId, Transaction, CrossShardTx}
use test_v.Protocol.Copies.{copy_tx-same}
use test_v.Shard.Chain.{
  Chain, add_tx, is_commit_processed, check_and_mark_commit_processed, store_pending_credit,
  store_pending_call,
}

pub add_tx_lem :
    (c : Chain) (tx : Transaction)
    → add_tx c tx ≡ record c { current_txs = c.current_txs ++ tx ∷ [] }
unfolding add_tx
add_tx_lem c tx =
    ap (λ (t : Transaction). record c { current_txs = c.current_txs ++ t ∷ [] }) (copy_tx-same tx)

pub marked_before :
    (c : Chain) (t : TxId)
    → is_commit_processed c t ≡ true
    → check_and_mark_commit_processed c t ≡ (c, false)
unfolding check_and_mark_commit_processed
marked_before c t h = rw h refl

pub marked_now :
    (c : Chain) (t : TxId)
    → is_commit_processed c t ≡ false
    → check_and_mark_commit_processed c t
      ≡ (record c { processed_commits = insert t true c.processed_commits }, true)
unfolding check_and_mark_commit_processed
marked_now c t h = rw h refl

-- To store a credit or a call leaves the orchestrator's height and the marks alone.
pub store_pending_credit-recovery :
    (c : Chain) (t : TxId) (a : Address) (v : ℤ)
    → ((store_pending_credit c t a v).processed_commits ≡ c.processed_commits)
      × ((store_pending_credit c t a v).last_orchestrator_height ≡ c.last_orchestrator_height)
unfolding store_pending_credit
store_pending_credit-recovery c t a v = (refl, refl)

pub store_pending_call-recovery :
    (c : Chain) (tx : CrossShardTx)
    → ((store_pending_call c tx).processed_commits ≡ c.processed_commits)
      × ((store_pending_call c tx).last_orchestrator_height ≡ c.last_orchestrator_height)
unfolding store_pending_call
store_pending_call-recovery c tx = (refl, refl)
