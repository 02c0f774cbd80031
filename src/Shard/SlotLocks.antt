-- ===== src/Shard/SlotLocks.antt =====
-- internal/shard/chain.go, slot-level locks: the map `slotLocks` from addresses to slots to the id of
-- the transaction that holds the slot. The methods hold the chain's mutex throughout.
pub mod Holder
pub mod UnlockAll
pub mod ReadSets
pub mod Granted
pub mod Valid
mod Tests
use test_v.Prelude.{
  ℕ, Bool, true, false, not, ◌&&◌, List, [], ◌∷◌, ◌++◌, Option, none, some, String, nat_key,
  string_key, ◌==◌, if◌then◌else◌,
}
use test_v.Prelude.Lists.{length}
use test_v.Prelude.Maps.{Map, lookup, insert, erase, contains, get_or}
use test_v.Protocol.{Address, Hash, TxId, ReadSetItem, RwVariable}

abbrev pub SlotLocks : Type 0
SlotLocks = Map Address (Map Hash TxId)

-- internal/shard/types.go
pub record SlotKey : Type 0 where
  pub addr : Address
  pub slot : Hash

-- `SlotLockError` and `ReadSetMismatchError`
pub data LockError : Type 0 where
  slot_locked : Address → Hash → TxId → LockError
  mismatch : Address → Hash → List ℕ → Hash → LockError

-- `c.slotLocks[addr]`, where a nil map reads as an empty one
abbrev pub slots_at : SlotLocks → Address → Map Hash TxId
slots_at locks addr = get_or [] addr locks

-- `isAddressLockedLocked`
unfoldable pub is_address_locked : SlotLocks → Address → Bool
is_address_locked locks addr = not (length (slots_at locks addr) == 0)

-- `lockSlotLocked`: first make the address's map if there is none,
unfoldable pub ready : SlotLocks → Address → SlotLocks
ready locks addr = if contains addr locks then locks else insert addr [] locks

-- then look at the slot.
unfoldable pub lock_slot : SlotLocks → TxId → Address → Hash → SlotLocks × Option LockError
lock_slot locks tx_id addr slot =
    let locks' = ready locks addr in
    elim (lookup slot (slots_at locks' addr)) [
      | some existing ↦
          (locks', if existing == tx_id then none else some (slot_locked addr slot existing))
      | none ↦ (insert addr (insert slot tx_id (slots_at locks' addr)) locks', none)
    ]

-- `delete(c.slotLocks[addr], slot)`
abbrev pub delete_slot : SlotLocks → Address → Hash → SlotLocks
delete_slot locks addr slot = insert addr (erase slot (slots_at locks addr)) locks

-- `unlockSlotLocked`
pub unlock_slot : SlotLocks → TxId → Address → Hash → SlotLocks
unlock_slot locks tx_id addr slot =
    if not (contains addr locks)
    then locks
    else if get_or "" slot (slots_at locks addr) == tx_id
    then (let deleted = delete_slot locks addr slot in
        if length (slots_at deleted addr) == 0 then erase addr deleted else deleted)
    else locks

-- `unlockAllSlotsForTxLocked`, phase 1: the slots of one address that the transaction holds, and
-- those of all addresses.
slots_held : TxId → Address → Map Hash TxId → List SlotKey
slots_held tx_id addr [] = []
slots_held tx_id addr ((slot, holder) ∷ rest) =
    let later = slots_held tx_id addr rest in
    if holder == tx_id then record { addr = addr; slot = slot } ∷ later else later

all_slots_held : TxId → SlotLocks → List SlotKey
all_slots_held tx_id [] = []
all_slots_held tx_id ((addr, slots) ∷ rest) =
    slots_held tx_id addr slots ++ all_slots_held tx_id rest

-- Phase 2
delete_slots : List SlotKey → SlotLocks → SlotLocks
delete_slots [] locks = locks
delete_slots (k ∷ rest) locks = delete_slots rest (delete_slot locks k.addr k.slot)

-- Phase 3
empty_addrs : SlotLocks → SlotLocks → List Address
empty_addrs locks [] = []
empty_addrs locks ((addr, slots) ∷ rest) =
    let later = empty_addrs locks rest in
    if length (slots_at locks addr) == 0 then addr ∷ later else later

delete_addrs : List Address → SlotLocks → SlotLocks
delete_addrs [] locks = locks
delete_addrs (addr ∷ rest) locks = delete_addrs rest (erase addr locks)

pub unlock_all : SlotLocks → TxId → SlotLocks
unlock_all locks tx_id =
    let locks' = delete_slots (all_slots_held tx_id locks) locks in
    delete_addrs (empty_addrs locks' locks') locks'

-- `IsSlotLocked`
pub is_slot_locked : SlotLocks → Address → Hash → Bool
is_slot_locked locks addr slot =
    if not (contains addr locks) then false else contains slot (slots_at locks addr)

-- `GetSlotLockHolder`
pub get_slot_lock_holder : SlotLocks → Address → Hash → TxId
get_slot_lock_holder locks addr slot =
    if not (contains addr locks) then "" else get_or "" slot (slots_at locks addr)

-- The locks taken so far while a ReadSet is validated, or the refusal after the rollback.
pub data Locking : Type 0 where
  locking : SlotLocks → List SlotKey → Locking
  refused : SlotLocks → LockError → Locking

-- The rollback loop.
pub rollback : TxId → List SlotKey → SlotLocks → SlotLocks
rollback tx_id [] locks = locks
rollback tx_id (k ∷ rest) locks = rollback tx_id rest (unlock_slot locks tx_id k.addr k.slot)

-- The chain state's storage, and how it reads a byte slice as a 32-byte word, are parameters.
module _ (get_storage_at : Address → Hash → Hash) (bytes_to_hash : List ℕ → Hash) where
  -- The inner loop of `validateAndLockReadSetLocked`, over one ReadSet.
  unfoldable pub lock_items : TxId → Address → List ReadSetItem → SlotLocks → List SlotKey → Locking
  lock_items tx_id addr [] locks held = locking locks held
  lock_items tx_id addr (item ∷ rest) locks held =
      let (locks', problem) = lock_slot locks tx_id addr item.slot in
      let key : SlotKey = record { addr = addr; slot = item.slot } in
      let next = lock_items tx_id addr rest locks' (held ++ key ∷ []) in
      if not (get_storage_at addr item.slot == bytes_to_hash item.value)
      then refused (rollback tx_id held locks)
          (mismatch addr item.slot item.value (get_storage_at addr item.slot))
      else elim problem [ some e ↦ refused (rollback tx_id held locks') e | none ↦ next ]

  -- The outer loop, over the RwSet.
  unfoldable pub lock_rw_set : TxId → List RwVariable → SlotLocks → List SlotKey → Locking
  lock_rw_set tx_id [] locks held = locking locks held
  lock_rw_set tx_id (v ∷ rest) locks held =
      elim (lock_items tx_id v.address v.read_set locks held) [
        | locking locks' held' ↦ lock_rw_set tx_id rest locks' held'
        | refused locks' e ↦ refused locks' e
      ]
