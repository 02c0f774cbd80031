-- ===== src/Shard/SlotLocks/Holder.antt =====
-- The abstract view of the slot locks: a function from an address and a slot to the transaction that
-- holds it. Each operation is described by what it does to this function.
use test_v.Prelude.{
  ◌≡◌, ◌⊎◌, Bool, true, false, not, ◌&&◌, [], ◌∷◌, Option, none, some, arith, nat_key, string_key,
  ◌==◌, if◌then◌else◌, is_some, inl, inr, Bool-cases, eq→≡,
}
use test_v.Prelude.Lists.{length}
use test_v.Prelude.Maps.{
  Map, lookup, insert, erase, contains, get_or, lookup-insert, lookup-erase, lookup-nil,
  get_or-insert, get_or-erase,
}
use test_v.Protocol.{Address, Hash, TxId}
use test_v.Shard.SlotLocks.{
  SlotLocks, slot_locked, slots_at, is_address_locked, ready, lock_slot, delete_slot, unlock_slot,
}

unfoldable pub holder : SlotLocks → Address → Hash → Option TxId
holder locks addr slot = lookup slot (slots_at locks addr)

abbrev pub held_by : Option TxId → TxId → Bool
held_by none tx_id = false
held_by (some u) tx_id = u == tx_id

empty_lookup : (m : Map Hash TxId) (r : Hash) → (length m == 0) ≡ true → lookup r m ≡ none
empty_lookup [] r e = lookup-nil r
empty_lookup (x ∷ m) r e = absurd (ground arith)

slots_at-ready : (locks : SlotLocks) (a b : Address) → slots_at (ready locks a) b ≡ slots_at locks b
unfolding ready
slots_at-ready locks a b = ground (arith, lookup-insert a b [] locks, nat_key.same_iff a b)

-- Locking gives the slot to the transaction if nobody holds it, and changes nothing else.
pub lock_slot-holder :
    (locks : SlotLocks) (t : TxId) (a b : Address) (s r : Hash)
    → holder (lock_slot locks t a s).0 b r
      ≡ (if a == b && s == r && not (is_some (holder locks a s)) then some t else holder locks b r)
unfolding holder lock_slot
lock_slot-holder locks t a b s r = ground (
  arith,
  slots_at-ready locks a a,
  slots_at-ready locks a b,
  get_or-insert [] a b (insert s t (slots_at locks a)) (ready locks a),
  lookup-insert s r t (slots_at locks a),
  nat_key.same_iff a b,
  nat_key.same_iff s r,
)

-- and fails exactly if another transaction holds it.
pub lock_slot-error :
    (locks : SlotLocks) (t : TxId) (a : Address) (s : Hash)
    → (lock_slot locks t a s).1 ≡ elim (holder locks a s) [
      | none ↦ none
      | some u ↦ (if u == t then none else some (slot_locked a s u))
    ]
unfolding holder lock_slot
lock_slot-error locks t a s = ground (arith, slots_at-ready locks a a)

pub delete_slot-holder :
    (locks : SlotLocks) (a b : Address) (s r : Hash)
    → holder (delete_slot locks a s) b r ≡ (if a == b && s == r then none else holder locks b r)
unfolding holder
delete_slot-holder locks a b s r = ground (
  arith,
  get_or-insert [] a b (erase s (slots_at locks a)) locks,
  lookup-erase s r (slots_at locks a),
  nat_key.same_iff a b,
)

-- Dropping the map of an address that has none left loses no lock.
pub erase-holder :
    (locks : SlotLocks) (a b : Address) (r : Hash)
    → (length (slots_at locks a) == 0) ≡ true
    → holder (erase a locks) b r ≡ holder locks b r
unfolding holder
erase-holder locks a b r e = elim (Bool-cases (a == b)) [
  | inl q ↦ ground (
    arith,
    get_or-erase [] a b locks,
    lookup-nil {V = TxId} r,
    empty_lookup (slots_at locks b) r (rw (← eq→≡ a b q) e),
  )
  | inr n ↦ ground (arith, get_or-erase [] a b locks)
]

-- Reading a missing holder as the empty id finds nothing to release.
missing_holder :
    (locks : SlotLocks) (t : TxId) (a : Address) (s : Hash)
    → (get_or "" s (slots_at locks a) == t) ≡ false
    → held_by (holder locks a s) t ≡ false
unfolding holder
missing_holder locks t a s e = ground arith

unlocked :
    (locks : SlotLocks) (t : TxId) (a : Address) (s : Hash)
    → (get_or "" s (slots_at locks a) == t) ≡ true
    → (holder locks a s ≡ none) ⊎ (held_by (holder locks a s) t ≡ true)
unfolding holder
unlocked locks t a s e = ground arith

absent :
    (locks : SlotLocks) (a : Address) (s : Hash)
    → contains a locks ≡ false
    → holder locks a s ≡ none
unfolding holder
absent locks a s e = ground (arith, lookup-nil {V = TxId} s)

pub at_same :
    (locks : SlotLocks) (a b : Address) (s r : Hash)
    → a ≡ b
    → s ≡ r
    → holder locks a s ≡ holder locks b r
at_same locks a b s r p q = cc

-- Unlocking releases the slot if the transaction holds it, and changes nothing else.
pub unlock_slot-holder :
    (locks : SlotLocks) (t : TxId) (a b : Address) (s r : Hash)
    → holder (unlock_slot locks t a s) b r
      ≡ (if a == b && s == r && held_by (holder locks a s) t then none else holder locks b r)
unfolding unlock_slot
unlock_slot-holder locks t a b s r = ground (
  arith,
  delete_slot-holder locks a b s r,
  erase-holder (delete_slot locks a s) a b r,
  missing_holder locks t a s,
  unlocked locks t a s,
  absent locks a s,
  nat_key.same_iff a b,
  nat_key.same_iff s r,
  at_same locks a b s r,
)

pub free_address :
    (locks : SlotLocks) (a : Address) (s : Hash)
    → is_address_locked locks a ≡ false
    → holder locks a s ≡ none
unfolding holder is_address_locked
free_address locks a s h = empty_lookup (slots_at locks a) s (ground (arith, h))
