-- ===== src/Shard/FundLocks.antt =====
-- internal/shard/chain.go, fund locks: the balance that pending two-phase commits reserve. The
-- fields `locked` and `lockedByAddr` of `Chain` are one record here.
pub mod Totals
pub mod Index
pub mod Reserved
mod Tests
use test_v.Prelude.{
  ℕ, Bool, List, [], ◌∷◌, ◌++◌, Option, none, some, nat_key, string_key, ◌==◌, if◌then◌else◌,
}
use test_v.Prelude.Lists.{length}
use test_v.Prelude.Int.{ℤ, pos, ◌+ℤ◌}
use test_v.Prelude.Maps.{Map, lookup, insert, erase, get_or}
use test_v.Protocol.{Address, TxId}

pub record LockedFunds : Type 0 where
  pub address : Address
  pub amount : ℤ

-- internal/shard/types.go
pub record LockedEntry : Type 0 where
  pub tx_id : TxId
  pub amount : ℤ

pub record FundLocks : Type 0 where
  pub locked : Map TxId LockedFunds
  pub locked_by_addr : Map Address (List LockedEntry)

abbrev pub entries_at : Map Address (List LockedEntry) → Address → List LockedEntry
entries_at index addr = get_or [] addr index

-- `lockFundsLocked`
unfoldable pub lock_funds : FundLocks → TxId → Address → ℤ → FundLocks
lock_funds f tx_id addr amount = record {
  locked = insert tx_id (record { address = addr; amount = amount }) f.locked;
  locked_by_addr =
      insert addr
        (entries_at f.locked_by_addr addr ++ record { tx_id = tx_id; amount = amount } ∷ [])
        f.locked_by_addr;
}

-- `GetLockedFunds`
pub get_locked_funds : FundLocks → TxId → Option LockedFunds
get_locked_funds f tx_id = lookup tx_id f.locked

-- `getLockedAmountForAddrLocked`: the loop that adds the entries to `total`.
unfoldable pub sum_entries : ℤ → List LockedEntry → ℤ
sum_entries total [] = total
sum_entries total (entry ∷ rest) = sum_entries (total +ℤ entry.amount) rest

unfoldable pub get_locked_amount : FundLocks → Address → ℤ
get_locked_amount f addr = sum_entries (pos 0) (entries_at f.locked_by_addr addr)

-- The two ways to take the first entry of a transaction out of a slice: `clearLockLocked` moves the
-- rest up,
pub remove_first : TxId → List LockedEntry → List LockedEntry
remove_first tx_id [] = []
remove_first tx_id (entry ∷ rest) =
    let later = remove_first tx_id rest in if entry.tx_id == tx_id then rest else entry ∷ later

-- and `ClearLock` writes the last entry over it and truncates.
pub last_entry : LockedEntry → List LockedEntry → LockedEntry
last_entry entry [] = entry
last_entry entry (next ∷ rest) = last_entry next rest

pub truncate : LockedEntry → List LockedEntry → List LockedEntry
truncate entry [] = []
truncate entry (next ∷ rest) = entry ∷ truncate next rest

pub last_to_front : List LockedEntry → List LockedEntry
last_to_front [] = []
last_to_front (entry ∷ rest) = last_entry entry rest ∷ truncate entry rest

pub swap_remove : TxId → List LockedEntry → List LockedEntry
swap_remove tx_id [] = []
swap_remove tx_id (entry ∷ rest) =
    let later = swap_remove tx_id rest in
    if entry.tx_id == tx_id then last_to_front rest else entry ∷ later

-- The rest of both methods, with the removal as an argument: store the shorter slice, and drop the
-- address when nothing is left. Neither writes the slice back when it found no entry; to write the
-- unchanged slice under an address that has none would add an empty one, which the next test drops.
pub clear_with : (TxId → List LockedEntry → List LockedEntry) → FundLocks → TxId → FundLocks
clear_with remove f tx_id = elim (lookup tx_id f.locked) [
  | none ↦ f
  | some lock ↦
      (let remaining = remove tx_id (entries_at f.locked_by_addr lock.address) in
        record {
          locked = erase tx_id f.locked;
          locked_by_addr =
              if length remaining == 0
              then erase lock.address f.locked_by_addr
              else insert lock.address remaining f.locked_by_addr;
        })
]

-- `clearLockLocked`, within block production,
pub clear_lock_locked : FundLocks → TxId → FundLocks
clear_lock_locked = clear_with remove_first

-- and `ClearLock`, from the server.
pub clear_lock : FundLocks → TxId → FundLocks
clear_lock = clear_with swap_remove
