-- ===== src/Shard/SlotLocks/Valid.antt =====
-- Every operation on the slot locks keeps each address, and each slot of an address, listed once.
use test_v.Prelude.{
  ℕ, inl, inr, List, [], ◌∷◌, ◌++◌, nat_key, string_key, ◌==◌, Bool-cases, Option-cases,
}
use test_v.Prelude.Lists.{length}
use test_v.Prelude.Maps.{lookup, insert, erase, contains, insert-IsMap, erase-IsMap, get_or}
use test_v.Protocol.{Address, Hash, TxId, ReadSetItem, RwVariable}
use test_v.Shard.SlotLocks.{
  SlotLocks, SlotKey, Locking, locking, refused, slots_at, ready, lock_slot, delete_slot,
  unlock_slot, delete_slots, empty_addrs, delete_addrs, all_slots_held, unlock_all, rollback,
  lock_items, lock_rw_set,
}
use test_v.Shard.SlotLocks.UnlockAll.{IsLocks, insert-IsLocks, erase-IsLocks, slots_at-IsMap}

ready-IsLocks : (l : SlotLocks) (a : Address) → IsLocks l → IsLocks (ready l a)
unfolding ready
ready-IsLocks l a h = elim (Bool-cases (contains a l)) [
  | inl e ↦ rw e h
  | inr e ↦ rw e (insert-IsLocks a [] l tt h)
]

pub lock_slot-IsLocks :
    (l : SlotLocks) (t : TxId) (a : Address) (s : Hash) → IsLocks l → IsLocks (lock_slot l t a s).0
unfolding lock_slot
lock_slot-IsLocks l t a s h =
    let l₁ = ready l a in
    let h₁ : IsLocks l₁ = ready-IsLocks l a h in
    elim (Option-cases (lookup s (slots_at l₁ a))) [
      | inl e ↦
          rw (e, lock_slot)
            (insert-IsLocks a (insert s t (slots_at l₁ a)) l₁
              (insert-IsMap s t (slots_at l₁ a) (slots_at-IsMap l₁ a h₁)) h₁)
      | inr (u, e) ↦ rw (e, lock_slot) h₁
    ]

delete_slot-IsLocks :
    (l : SlotLocks) (a : Address) (s : Hash) → IsLocks l → IsLocks (delete_slot l a s)
delete_slot-IsLocks l a s h =
    insert-IsLocks a (erase s (slots_at l a)) l
      (erase-IsMap s (slots_at l a) (slots_at-IsMap l a h)) h

pub unlock_slot-IsLocks :
    (l : SlotLocks) (t : TxId) (a : Address) (s : Hash) → IsLocks l → IsLocks (unlock_slot l t a s)
unfolding unlock_slot
unlock_slot-IsLocks l t a s h =
    let l₁ = delete_slot l a s in
    let h₁ : IsLocks l₁ = delete_slot-IsLocks l a s h in
    elim (Bool-cases (contains a l)) [
      | inr e ↦ rw e h
      | inl e ↦ elim (Bool-cases (get_or "" s (slots_at l a) == t)) [
        | inr n ↦ rw (e, n, unlock_slot) h
        | inl o ↦ elim (Bool-cases (length (slots_at l₁ a) == 0)) [
          | inl z ↦ rw (e, o, z, unlock_slot) (erase-IsLocks a l₁ h₁)
          | inr z ↦ rw (e, o, z, unlock_slot) h₁
        ]
      ]
    ]

pub rollback-IsLocks :
    (t : TxId) (ks : List SlotKey) (l : SlotLocks) → IsLocks l → IsLocks (rollback t ks l)
unfolding rollback
rollback-IsLocks t [] l h = h
rollback-IsLocks t (k ∷ ks) l h =
    rollback-IsLocks t ks (unlock_slot l t k.addr k.slot) (unlock_slot-IsLocks l t k.addr k.slot h)

delete_slots-IsLocks : (ks : List SlotKey) (l : SlotLocks) → IsLocks l → IsLocks (delete_slots ks l)
unfolding delete_slots
delete_slots-IsLocks [] l h = h
delete_slots-IsLocks (k ∷ ks) l h =
    delete_slots-IsLocks ks (delete_slot l k.addr k.slot) (delete_slot-IsLocks l k.addr k.slot h)

delete_addrs-IsLocks : (bs : List Address) (l : SlotLocks) → IsLocks l → IsLocks (delete_addrs bs l)
unfolding delete_addrs
delete_addrs-IsLocks [] l h = h
delete_addrs-IsLocks (b ∷ bs) l h = delete_addrs-IsLocks bs (erase b l) (erase-IsLocks b l h)

pub unlock_all-IsLocks : (l : SlotLocks) (t : TxId) → IsLocks l → IsLocks (unlock_all l t)
unfolding unlock_all
unlock_all-IsLocks l t h =
    let l₁ = delete_slots (all_slots_held t l) l in
    delete_addrs-IsLocks (empty_addrs l₁ l₁) l₁ (delete_slots-IsLocks (all_slots_held t l) l h)

-- The locks that validation leaves, by either outcome.
abbrev pub locks_of : Locking → SlotLocks
locks_of (locking l held) = l
locks_of (refused l e) = l

module _ (get_storage_at : Address → Hash → Hash) (bytes_to_hash : List ℕ → Hash) where
  lock_items-IsLocks :
      (t : TxId) (a : Address) (items : List ReadSetItem) (l : SlotLocks) (held : List SlotKey)
      → IsLocks l
      → IsLocks (locks_of (lock_items get_storage_at bytes_to_hash t a items l held))
  unfolding lock_items
  lock_items-IsLocks t a [] l held h = h
  lock_items-IsLocks t a (item ∷ items) l held h =
      let l₁ = (lock_slot l t a item.slot).0 in
      let h₁ : IsLocks l₁ = lock_slot-IsLocks l t a item.slot h in
      elim (Bool-cases (get_storage_at a item.slot == bytes_to_hash item.value)) [
        | inr differs ↦ rw (differs, lock_items) (rollback-IsLocks t held l h)
        | inl equal ↦ elim (Option-cases (lock_slot l t a item.slot).1) [
          | inr (e, taken) ↦ rw (equal, taken, lock_items) (rollback-IsLocks t held l₁ h₁)
          | inl free ↦
              rw (equal, free, lock_items)
                (lock_items-IsLocks t a items l₁
                  (held ++ record { addr = a; slot = item.slot } ∷ []) h₁)
        ]
      ]

  -- Validation keeps slot locks well formed, also where it rolls back: each address, and each slot
  -- of an address, stays listed once.
  pub lock_rw_set-IsLocks :
      (t : TxId) (vs : List RwVariable) (l : SlotLocks) (held : List SlotKey)
      → IsLocks l
      → IsLocks (locks_of (lock_rw_set get_storage_at bytes_to_hash t vs l held))
  unfolding lock_rw_set
  lock_rw_set-IsLocks t [] l held h = h
  lock_rw_set-IsLocks t (v ∷ vs) l held h =
      next (lock_items get_storage_at bytes_to_hash t v.address v.read_set l held)
        (lock_items-IsLocks t v.address v.read_set l held h) (lock_rw_set-IsLocks t vs)
    where
      next :
          (r : Locking)
          → IsLocks (locks_of r)
          → ((l : SlotLocks) (held : List SlotKey)
              → IsLocks l
              → IsLocks (locks_of (lock_rw_set get_storage_at bytes_to_hash t vs l held)))
          → IsLocks (
              locks_of (elim r [
                | locking l₁ held₁ ↦ lock_rw_set get_storage_at bytes_to_hash t vs l₁ held₁
                | refused l₁ e ↦ refused l₁ e
              ]))
      next (locking l₁ held₁) h₁ rec = rec l₁ held₁ h₁
      next (refused l₁ e) h₁ rec = h₁
