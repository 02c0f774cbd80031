-- ===== src/Orchestrator/AccessList.antt =====
-- internal/orchestrator/statedb.go, `accessList`: the addresses and slots that a transaction has
-- warmed (EIP-2929). An address has an index into the sets of slots, or -1 if it has none.
pub mod Index
pub mod Warm
use test_v.Prelude.{
  ℕ, zero, suc, Bool, true, false, List, [], ◌∷◌, ◌++◌, Option, none, some, nat_key, ◌==◌,
  if◌then◌else◌, is_some,
}
use test_v.Prelude.Int.{ℤ, pos, negsuc, int_key}
use test_v.Prelude.Lists.{length, get_elem?}
use test_v.Prelude.Maps.{Map, lookup, insert, contains}
use test_v.Protocol.{Address, Hash}

-- `map[common.Hash]struct{}`
abbrev pub SlotSet : Type 0
SlotSet = Map Hash Unit

pub record AccessList : Type 0 where
  pub addresses : Map Address ℤ
  pub slots : List SlotSet

pub new_access_list : AccessList
new_access_list = record { addresses = []; slots = [] }

-- The flag tells whether the address is new.
unfoldable pub add_address : AccessList → Address → AccessList × Bool
add_address al addr = elim (lookup addr al.addresses) [
  | some idx ↦ (al, false)
  | none ↦ (record al { addresses = insert addr (negsuc 0) al.addresses }, true)
]

-- `al.slots[idx]`; `none` is a panic.
pub slots_at : List SlotSet → ℤ → Option SlotSet
slots_at sets (pos i) = get_elem? sets i
slots_at sets (negsuc i) = none

-- A write to the map `al.slots[idx]`, an index in range
pub set_elem : List SlotSet → ℕ → SlotSet → List SlotSet
set_elem [] i set = []
set_elem (x ∷ xs) zero set = set ∷ xs
set_elem (x ∷ xs) (suc i) set = x ∷ set_elem xs i set

pub set_at : List SlotSet → ℤ → SlotSet → List SlotSet
unfolding set_elem
set_at sets (pos i) set = set_elem sets i set
set_at sets (negsuc i) set = sets

-- The five statements that `AddSlot` has twice: a new set of slots for the address.
pub new_slots : AccessList → Address → Hash → AccessList
new_slots al addr slot = record {
  addresses = insert addr (pos (length al.slots)) al.addresses;
  slots = al.slots ++ insert slot tt [] ∷ [];
}

-- The flags tell whether the address and the slot are new; `none` is a panic.
unfoldable pub add_slot : AccessList → Address → Hash → Option (AccessList × (Bool × Bool))
unfolding slots_at set_at new_slots
add_slot al addr slot = elim (lookup addr al.addresses) [
  | none ↦ some (new_slots al addr slot, (true, true))
  | some idx ↦
      if idx == negsuc 0
      then some (new_slots al addr slot, (false, true))
      else elim (slots_at al.slots idx) [
        | none ↦ none
        | some set ↦ elim (lookup slot set) [
          | some t ↦ some (al, (false, false))
          | none ↦
              some (record al { slots = set_at al.slots idx (insert slot tt set) }, (false, true))
        ]
      ]
]

unfoldable pub contains_address : AccessList → Address → Bool
contains_address al addr = contains addr al.addresses

-- Whether the address and the slot are there; `none` is a panic.
pub contains_slot : AccessList → Address → Hash → Option (Bool × Bool)
unfolding slots_at
contains_slot al addr slot = elim (lookup addr al.addresses) [
  | none ↦ some (false, false)
  | some idx ↦
      if idx == negsuc 0
      then some (true, false)
      else elim (slots_at al.slots idx) [ none ↦ none | some set ↦ some (true, contains slot set) ]
]
