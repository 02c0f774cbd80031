-- ===== src/Shard/Chain/Clearing.antt =====
-- What the clean-up after a transaction removes of that transaction, and what it keeps of others.
use test_v.Prelude.{◌≡◌, refl, ◌≢◌, [], true, false, Option, none, some, arith, nat_key, string_key}
use test_v.Prelude.Maps.{lookup, lookup-erase}
use test_v.Protocol.{Address, Hash, TxId}
use test_v.Shard.SlotLocks.{unlock_all}
use test_v.Shard.SlotLocks.Holder.{holder, held_by}
use test_v.Shard.SlotLocks.UnlockAll.{IsLocks, unlock_all-holder}
use test_v.Shard.FundLocks.{entries_at}
use test_v.Shard.FundLocks.Index.{IsIndexed, amounts_of, lookup-clear_lock_locked}
use test_v.Shard.FundLocks.Reserved.{amounts_of-cleared, amounts_of-clear_lock_locked}
use test_v.Shard.Chain.{
  Chain, clear_pending_credit, clear_pending_call, clear_pending_rw_set, clear_all_metadata,
}

-- Nothing of a transaction is left: no funds in the locks or in the index by address, no pending credit, call or RwSet, and no slot.
pub record IsCleared (t : TxId) (c : Chain) : Type 0 where
  pub funds : lookup t c.funds.locked ≡ none
  pub reserved : (a : Address) → amounts_of t (entries_at c.funds.locked_by_addr a) ≡ []
  pub credits : lookup t c.pending_credits ≡ none
  pub calls : lookup t c.pending_calls ≡ none
  pub rw_sets : lookup t c.pending_rw_sets ≡ none
  pub slots : (a : Address) (s : Hash) → held_by (holder c.slot_locks a s) t ≡ false

-- Two chains agree on everything of a transaction.
pub record Agree (u : TxId) (c d : Chain) : Type 0 where
  pub funds : lookup u d.funds.locked ≡ lookup u c.funds.locked
  pub reserved :
      (a : Address)
      → amounts_of u (entries_at d.funds.locked_by_addr a)
        ≡ amounts_of u (entries_at c.funds.locked_by_addr a)
  pub credits : lookup u d.pending_credits ≡ lookup u c.pending_credits
  pub calls : lookup u d.pending_calls ≡ lookup u c.pending_calls
  pub rw_sets : lookup u d.pending_rw_sets ≡ lookup u c.pending_rw_sets
  pub votes : lookup u d.prepares ≡ lookup u c.prepares
  pub slots :
      (a : Address) (s : Hash)
      → held_by (holder d.slot_locks a s) u ≡ held_by (holder c.slot_locks a s) u

pub Agree-refl : (u : TxId) (c : Chain) → Agree u c c
Agree-refl u c = record {
  funds = refl;
  reserved = λ a. refl;
  credits = refl;
  calls = refl;
  rw_sets = refl;
  votes = refl;
  slots = λ a s. refl;
}

pub Agree-trans : (u : TxId) (c d e : Chain) → Agree u c d → Agree u d e → Agree u c e
Agree-trans u c d e p q = record {
  funds = rw q.funds p.funds;
  reserved = λ a. rw (q.reserved a) (p.reserved a);
  credits = rw q.credits p.credits;
  calls = rw q.calls p.calls;
  rw_sets = rw q.rw_sets p.rw_sets;
  votes = rw q.votes p.votes;
  slots = λ a s. rw (q.slots a s) (p.slots a s);
}

one_holder : (o : Option TxId) (t u : TxId) → t ≢ u → held_by o t ≡ true → held_by o u ≡ false
one_holder none t u n h = refl
one_holder (some v) t u n h = ground (arith, string_key.same_iff v t, string_key.same_iff v u)

pub unlock_slots-slots :
    (c : Chain) (t u : TxId) (a : Address) (s : Hash)
    → IsLocks c.slot_locks
    → t ≢ u
    → held_by (holder (unlock_all c.slot_locks t) a s) u ≡ held_by (holder c.slot_locks a s) u
unlock_slots-slots c t u a s h n = ground (
  arith,
  unlock_all-holder c.slot_locks t a s h,
  string_key.same_iff t u,
  one_holder (holder c.slot_locks a s) t u n,
)

pub clear_all_metadata-IsCleared :
    (c : Chain) (t : TxId)
    → IsLocks c.slot_locks
    → IsIndexed c.funds
    → IsCleared t (clear_all_metadata c t)
unfolding clear_all_metadata clear_pending_credit clear_pending_call clear_pending_rw_set
clear_all_metadata-IsCleared c t h i = record {
  funds = ground (arith, lookup-clear_lock_locked c.funds t t, string_key.same_iff t t);
  reserved = λ a. amounts_of-cleared c.funds t a i;
  credits = ground (arith, lookup-erase t t c.pending_credits, string_key.same_iff t t);
  calls = ground (arith, lookup-erase t t c.pending_calls, string_key.same_iff t t);
  rw_sets = ground (arith, lookup-erase t t c.pending_rw_sets, string_key.same_iff t t);
  slots = λ a s. ground (arith, unlock_all-holder c.slot_locks t a s h);
}

pub clear_all_metadata-Agree :
    (c : Chain) (t u : TxId) → IsLocks c.slot_locks → t ≢ u → Agree u c (clear_all_metadata c t)
unfolding clear_all_metadata clear_pending_credit clear_pending_call clear_pending_rw_set
clear_all_metadata-Agree c t u h n = record {
  funds = ground (arith, lookup-clear_lock_locked c.funds t u, string_key.same_iff t u);
  reserved = λ a. amounts_of-clear_lock_locked c.funds t u a n;
  credits = ground (arith, lookup-erase t u c.pending_credits, string_key.same_iff t u);
  calls = ground (arith, lookup-erase t u c.pending_calls, string_key.same_iff t u);
  rw_sets = ground (arith, lookup-erase t u c.pending_rw_sets, string_key.same_iff t u);
  votes = refl;
  slots = λ a s. unlock_slots-slots c t u a s h n;
}
