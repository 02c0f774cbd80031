-- ===== src/Shard/SlotLocks/Granted.antt =====
-- `validateAndLockReadSetLocked` succeeds where it should: on current reads of slots that no other
-- transaction holds.
use test_v.Prelude.{
  ◌≡◌, refl, ◌⊎◌, true, List, [], ◌∷◌, ◌++◌, none, some, arith, nat_key, string_key, ◌==◌, ℕ,
}
use test_v.Prelude.Lists.{All}
use test_v.Protocol.{Address, Hash, TxId, ReadSetItem, RwVariable}
use test_v.Shard.SlotLocks.{SlotLocks, SlotKey, locking, lock_slot, lock_items, lock_rw_set}
use test_v.Shard.SlotLocks.Holder.{holder, lock_slot-holder, lock_slot-error}

-- Nobody else holds the slot.
abbrev pub Available : TxId → SlotLocks → Address → Hash → Type 0
Available t l a s = (holder l a s ≡ none) ⊎ (holder l a s ≡ some t)

-- Locking for `t` takes no slot from it.
lock_slot-Available :
    (t : TxId) (l : SlotLocks) (a b : Address) (s r : Hash)
    → Available t l b r
    → Available t (lock_slot l t a s).0 b r
lock_slot-Available t l a b s r h = ground (arith, lock_slot-holder l t a b s r)

lock_slot-granted :
    (t : TxId) (l : SlotLocks) (a : Address) (s : Hash)
    → Available t l a s
    → (lock_slot l t a s).1 ≡ none
lock_slot-granted t l a s h = ground (arith, lock_slot-error l t a s, string_key.same_iff t t)

module _ (get_storage_at : Address → Hash → Hash) (bytes_to_hash : List ℕ → Hash) where
  -- The value read is current, and the slot is available.
  abbrev pub Grantable : TxId → SlotLocks → Address → ReadSetItem → Type 0
  Grantable t l a item =
      (get_storage_at a item.slot ≡ bytes_to_hash item.value) × Available t l a item.slot

  abbrev pub AllGrantable : TxId → SlotLocks → List RwVariable → Type 0
  AllGrantable t l = All (λ v. All (Grantable t l v.address) v.read_set)

  abbrev Allows : TxId → SlotLocks → SlotLocks → Type 0
  Allows t l l' = (a : Address) (s : Hash) → Available t l a s → Available t l' a s

  allow_items :
      (t : TxId) (l l' : SlotLocks) (a : Address) (items : List ReadSetItem)
      → Allows t l l'
      → All (Grantable t l a) items
      → All (Grantable t l' a) items
  allow_items t l l' a [] k h = tt
  allow_items t l l' a (item ∷ items) k h =
      ((h.0.0, k a item.slot h.0.1), allow_items t l l' a items k h.1)

  allow_sets :
      (t : TxId) (l l' : SlotLocks) (vs : List RwVariable)
      → Allows t l l'
      → AllGrantable t l vs
      → AllGrantable t l' vs
  allow_sets t l l' [] k h = tt
  allow_sets t l l' (v ∷ vs) k h =
      (allow_items t l l' v.address v.read_set k h.0, allow_sets t l l' vs k h.1)

  lock_items-granted :
      (t : TxId) (a : Address) (items : List ReadSetItem) (l : SlotLocks) (held : List SlotKey)
      → All (Grantable t l a) items
      → (l' : SlotLocks) × (held' : List SlotKey) × (lock_items get_storage_at bytes_to_hash t a
            items l held
          ≡ locking l' held')
        × Allows t l l'
  unfolding lock_items
  lock_items-granted t a [] l held h = (l, held, refl, λ b s w. w)
  lock_items-granted t a (item ∷ items) l held h =
      let l₁ = (lock_slot l t a item.slot).0 in
      let held₁ = held ++ record { addr = a; slot = item.slot } ∷ [] in
      let step : Allows t l l₁ = λ b s w. lock_slot-Available t l a b item.slot s w in
      let current : (get_storage_at a item.slot == bytes_to_hash item.value) ≡ true =
        (nat_key.same_iff (get_storage_at a item.slot) (bytes_to_hash item.value)).1 h.0.0 in
      let (l', held', e, k) =
        lock_items-granted t a items l₁ held₁ (allow_items t l l₁ a items step h.1) in
      (
        l',
        held',
        rw (current, lock_slot-granted t l a item.slot h.0.1, lock_items) e,
        λ b s w. k b s (step b s w),
      )

  -- If every value read is the current one and every slot read is free or the transaction's own, then
  -- validation succeeds, whatever the order of the entries and whichever slots stand there twice.
  pub lock_rw_set_granted :
      (t : TxId) (vs : List RwVariable) (l : SlotLocks) (held : List SlotKey)
      → AllGrantable t l vs
      → (l' : SlotLocks) × (held' : List SlotKey) × (lock_rw_set get_storage_at bytes_to_hash t vs l
            held
          ≡ locking l' held')
  unfolding lock_rw_set
  lock_rw_set_granted t [] l held h = (l, held, refl)
  lock_rw_set_granted t (v ∷ vs) l held h =
      let (l₁, held₁, e, k) = lock_items-granted t v.address v.read_set l held h.0 in
      let (l', held', e') = lock_rw_set_granted t vs l₁ held₁ (allow_sets t l l₁ vs k h.1) in
      (l', held', rw (e, lock_rw_set) e')
