-- ===== src/Shard/Blocks/Locking.antt =====
-- What a Lock transaction does to the chain, by its vote.
use test_v.Prelude.{
  ◌≡◌, refl, ◌≢◌, ◌⊎◌, inl, inr, Bool, true, false, List, [], none, some, arith, nat_key,
  string_key, Bool-cases,
}
use test_v.Prelude.Int.{pos, ltb_ℤ}
use test_v.Prelude.Maps.{lookup, insert, lookup-insert}
use test_v.Protocol.{TxId, RwVariable, Transaction, TxType, to_big_int}
use test_v.Shard.SlotLocks.{SlotLocks, SlotKey, LockError, Locking, locking, refused, lock_rw_set}
use test_v.Shard.SlotLocks.UnlockAll.{IsLocks}
use test_v.Shard.SlotLocks.Valid.{lock_rw_set-IsLocks, locks_of}
use test_v.Shard.SlotLocks.ReadSets.{AllHeld, Validated, lock_rw_set-Validated}
use test_v.Shard.FundLocks.Index.{IsIndexed, lock_funds-IsIndexed, clear_lock_locked-IsIndexed}
use test_v.Shard.FundLocks.{lock_funds, get_locked_amount}
use test_v.Shard.Evm.{StateDb, can_debit}
use test_v.Shard.Chain.{Chain, clear_fund_lock, clear_all_metadata, cleanup_after_failure}
use test_v.Shard.Chain.Clearing.{IsCleared, clear_all_metadata-IsCleared}
use test_v.Shard.Chain.Voting.{failed_lock, passed_lock}
use test_v.Shard.Blocks.{validate_and_lock_read_set, lock_read_set, execute_lock}

pub Locking-cases :
    (r : Locking)
    → ((l : SlotLocks) × (held : List SlotKey) × (r ≡ locking l held))
      ⊎ ((l : SlotLocks) × (e : LockError) × (r ≡ refused l e))
Locking-cases (locking l held) = inl (l, held, refl)
Locking-cases (refused l e) = inr (l, e, refl)

module _ (db : StateDb) where
  -- A vote for the transaction: every value that it read is current and its slot is its own, its
  -- RwSet is stored, and the vote is recorded.
  pub record VotedYes (s : db.State) (tx : Transaction) (c : Chain) : Type 0 where
    pub held : AllHeld (db.get_state s) db.bytes_to_hash tx.cross_shard_tx_id c.slot_locks tx.rw_set
    pub stored : lookup tx.cross_shard_tx_id c.pending_rw_sets ≡ some tx.rw_set
    pub vote : lookup tx.cross_shard_tx_id c.prepares ≡ some true

  -- A vote against it: the vote is recorded and nothing else of the transaction is left.
  pub record VotedNo (tx : Transaction) (c : Chain) : Type 0 where
    pub cleared : IsCleared tx.cross_shard_tx_id c
    pub vote : lookup tx.cross_shard_tx_id c.prepares ≡ some false

  abbrev pub Voted : db.State → Transaction → Chain × Bool → Type 0
  Voted s tx (c, true) = VotedYes s tx c
  Voted s tx (c, false) = VotedNo tx c

  pub cleanup_after_failure-VotedNo :
      (c : Chain) (tx : Transaction)
      → tx.tx_type ≡ TxType.lock
      → IsLocks c.slot_locks
      → IsIndexed c.funds
      → VotedNo tx (cleanup_after_failure c tx)
  cleanup_after_failure-VotedNo c tx k h i =
      let t = tx.cross_shard_tx_id in
      let c₁ = clear_all_metadata c t in
      let q = clear_all_metadata-IsCleared c t h i in
      rw (failed_lock c tx k) (record {
        cleared = record {
          funds = q.funds;
          reserved = q.reserved;
          credits = q.credits;
          calls = q.calls;
          rw_sets = q.rw_sets;
          slots = q.slots;
        };
        vote = ground (arith, lookup-insert t t false c₁.prepares, string_key.same_iff t t);
      })

  accepted :
      (c : Chain) (s : db.State) (tx : Transaction) (l : SlotLocks)
      → AllHeld (db.get_state s) db.bytes_to_hash tx.cross_shard_tx_id l tx.rw_set
      → VotedYes s tx (record c {
        slot_locks = l;
        pending_rw_sets = insert tx.cross_shard_tx_id tx.rw_set c.pending_rw_sets;
        prepares = insert tx.cross_shard_tx_id true c.prepares;
      })
  accepted c s tx l held =
      let t = tx.cross_shard_tx_id in
      record {
        held = held;
        stored =
            ground (arith, lookup-insert t t tx.rw_set c.pending_rw_sets, string_key.same_iff t t);
        vote = ground (arith, lookup-insert t t true c.prepares, string_key.same_iff t t);
      }

  pub validate_locking :
      (c : Chain) (s : db.State) (t : TxId) (rw_set : List RwVariable) (l : SlotLocks)
      (held : List SlotKey)
      → lock_rw_set (db.get_state s) db.bytes_to_hash t rw_set c.slot_locks [] ≡ locking l held
      → validate_and_lock_read_set db c s t rw_set
        ≡ (record c { slot_locks = l; pending_rw_sets = insert t rw_set c.pending_rw_sets }, none)
  unfolding validate_and_lock_read_set
  validate_locking c s t rw_set l held e = rw (e, validate_and_lock_read_set) refl

  pub validate_refused :
      (c : Chain) (s : db.State) (t : TxId) (rw_set : List RwVariable) (l : SlotLocks)
      (err : LockError)
      → lock_rw_set (db.get_state s) db.bytes_to_hash t rw_set c.slot_locks [] ≡ refused l err
      → validate_and_lock_read_set db c s t rw_set ≡ (record c { slot_locks = l }, some err)
  unfolding validate_and_lock_read_set
  validate_refused c s t rw_set l err e = rw (e, validate_and_lock_read_set) refl

  lock_read_set-Voted :
      (c : Chain) (s : db.State) (tx : Transaction)
      → tx.tx_type ≡ TxType.lock
      → tx.cross_shard_tx_id ≢ ""
      → IsLocks c.slot_locks
      → IsIndexed c.funds
      → Voted s tx (lock_read_set db c s tx)
  unfolding lock_read_set
  lock_read_set-Voted c s tx k n h i =
      let t = tx.cross_shard_tx_id in
      let r = lock_rw_set (db.get_state s) db.bytes_to_hash t tx.rw_set c.slot_locks [] in
      let valid : Validated (db.get_state s) db.bytes_to_hash t tx.rw_set c.slot_locks r =
        lock_rw_set-Validated (db.get_state s) db.bytes_to_hash t tx.rw_set c.slot_locks in
      let kept : IsLocks (locks_of r) =
        lock_rw_set-IsLocks (db.get_state s) db.bytes_to_hash t tx.rw_set c.slot_locks [] h in
      elim (Locking-cases r) [
        | inl (l, held, e) ↦
            let c₁ : Chain = record c {
              slot_locks = l;
              pending_rw_sets = insert t tx.rw_set c.pending_rw_sets;
            } in
            let v = validate_locking c s t tx.rw_set l held e in
            rw (lock_read_set, v, v, passed_lock c₁ tx k n) (accepted c s tx l (rw e at valid).0)
        | inr (l, err, e) ↦
            let c₁ : Chain = clear_fund_lock (record c { slot_locks = l }) t in
            let v = validate_refused c s t tx.rw_set l err e in
            rw (lock_read_set, v, v)
              (cleanup_after_failure-VotedNo c₁ tx k (rw e at kept)
                (clear_lock_locked-IsIndexed c.funds t i))
      ]

  -- A Lock transaction with a cross-shard id ends in a vote, and the chain is in the state which
  -- that vote promises: for YES every value read is current, its slot is held by the transaction,
  -- its RwSet is stored and the vote recorded; for NO the vote is recorded and of the transaction no
  -- locked funds, no amount reserved at any address, no credits, calls, RwSet or slots are left. It is
  -- included in the block exactly if it votes YES. Before, the slot locks are well formed, the index
  -- by address lists exactly the locked funds, and the transaction has none.
  pub execute_lock-Voted :
      (c : Chain) (s : db.State) (tx : Transaction)
      → tx.tx_type ≡ TxType.lock
      → tx.cross_shard_tx_id ≢ ""
      → IsLocks c.slot_locks
      → IsIndexed c.funds
      → lookup tx.cross_shard_tx_id c.funds.locked ≡ none
      → Voted s tx (execute_lock db c s tx)
  unfolding execute_lock
  execute_lock-Voted c s tx k n h i new =
      let amount = to_big_int tx.value in
      let c₁ : Chain = record c {
        funds = lock_funds c.funds tx.cross_shard_tx_id tx.from amount;
      } in
      elim (Bool-cases (ltb_ℤ (pos 0) amount)) [
        | inr z ↦ rw (z, execute_lock) (lock_read_set-Voted c s tx k n h i)
        | inl z ↦
            elim (Bool-cases (can_debit db s tx.from amount (get_locked_amount c.funds tx.from))) [
              | inr poor ↦ rw (z, poor, execute_lock) (cleanup_after_failure-VotedNo c tx k h i)
              | inl rich ↦
                  rw (z, rich, execute_lock)
                    (lock_read_set-Voted c₁ s tx k n h
                      (lock_funds-IsIndexed c.funds tx.cross_shard_tx_id tx.from amount i new))
            ]
      ]
