-- ===== src/Shard/SlotLocks/ReadSets.antt =====
-- `validateAndLockReadSetLocked`: all locks or none.
use test_v.Prelude.{
  ℕ, ◌≡◌, refl, ◌⊎◌, inl, inr, Bool, true, false, ◌&&◌, ◌||◌, List, [], ◌∷◌, ◌++◌, none, some,
  arith, nat_key, string_key, ◌==◌, if◌then◌else◌, Bool-cases, Option-cases, eq→≡,
}
use test_v.Prelude.Lists.{All}
use test_v.Protocol.{Address, Hash, TxId, ReadSetItem, RwVariable}
use test_v.Shard.SlotLocks.{
  SlotLocks, SlotKey, LockError, Locking, locking, refused, lock_slot, unlock_slot, rollback,
  lock_items, lock_rw_set,
}
use test_v.Shard.SlotLocks.Holder.{
  holder, held_by, lock_slot-holder, lock_slot-error, unlock_slot-holder, at_same,
}

abbrev pub in_keys : Address → Hash → List SlotKey → Bool
in_keys a s [] = false
in_keys a s (k ∷ ks) = (k.addr == a && k.slot == s) || in_keys a s ks

in_keys-snoc :
    (a : Address) (s : Hash) (ks : List SlotKey) (k : SlotKey)
    → in_keys a s (ks ++ k ∷ []) ≡ (in_keys a s ks || (k.addr == a && k.slot == s))
in_keys-snoc a s [] k = ground arith
in_keys-snoc a s (x ∷ ks) k = ground (arith, in_keys-snoc a s ks k)

rollback-holder :
    (t : TxId) (ks : List SlotKey) (l : SlotLocks) (a : Address) (s : Hash)
    → holder (rollback t ks l) a s
      ≡ (if in_keys a s ks && held_by (holder l a s) t then none else holder l a s)
unfolding rollback
rollback-holder t [] l a s = refl
rollback-holder t (k ∷ ks) l a s = ground (
  arith,
  rollback-holder t ks (unlock_slot l t k.addr k.slot) a s,
  unlock_slot-holder l t k.addr a k.slot s,
  nat_key.same_iff k.addr a,
  nat_key.same_iff k.slot s,
  at_same l k.addr a k.slot s,
)

-- The locks `l` after the slots `held` have been taken for `t`, from the locks `l₀`.
record Acquired (t : TxId) (l₀ l : SlotLocks) (held : List SlotKey) (a : Address) (s : Hash)
    : Type 0 where
  owned : in_keys a s held ≡ true → holder l a s ≡ some t
  fresh : in_keys a s held ≡ true → (holder l₀ a s ≡ none) ⊎ (holder l₀ a s ≡ some t)
  frame : in_keys a s held ≡ false → holder l a s ≡ holder l₀ a s

-- What a slot looks like after a success,
abbrev pub Taken : TxId → SlotLocks → SlotLocks → Type 0
Taken t l₀ l =
    (a : Address) (s : Hash)
    → (holder l a s ≡ holder l₀ a s) ⊎ ((holder l₀ a s ≡ none) × (holder l a s ≡ some t))

-- and after a failure: only a slot that the transaction held before may have been released.
abbrev pub Restored : TxId → SlotLocks → SlotLocks → Type 0
Restored t l₀ l =
    (a : Address) (s : Hash)
    → (holder l a s ≡ holder l₀ a s) ⊎ ((holder l₀ a s ≡ some t) × (holder l a s ≡ none))

Acquired-Taken :
    (t : TxId) (l₀ l : SlotLocks) (held : List SlotKey)
    → ((a : Address) (s : Hash) → Acquired t l₀ l held a s)
    → Taken t l₀ l
Acquired-Taken t l₀ l held q a s = let v = q a s in ground (arith, v.owned, v.fresh, v.frame)

Acquired-Restored :
    (t : TxId) (l₀ l : SlotLocks) (held : List SlotKey)
    → ((a : Address) (s : Hash) → Acquired t l₀ l held a s)
    → Restored t l₀ (rollback t held l)
Acquired-Restored t l₀ l held q a s =
    let v = q a s in
    ground (arith, v.owned, v.fresh, v.frame, rollback-holder t held l a s, string_key.same_iff t t)

-- One more slot is taken.
take-Acquired :
    (t : TxId) (l₀ l : SlotLocks) (held : List SlotKey) (b : Address) (r : Hash)
    → ((a : Address) (s : Hash) → Acquired t l₀ l held a s)
    → (lock_slot l t b r).1 ≡ none
    → (a : Address) (s : Hash)
    → Acquired t l₀ (lock_slot l t b r).0 (held ++ record { addr = b; slot = r } ∷ []) a s
take-Acquired t l₀ l held b r q e a s =
    let v = q a s in
    let snoc = in_keys-snoc a s held (record { addr = b; slot = r }) in
    let step = lock_slot-holder l t b a r s in
    let problem = lock_slot-error l t b r in
    let same = at_same l b a r s in
    let eqs : ((b == a) ≡ true → b ≡ a) × ((r == s) ≡ true → r ≡ s) = (eq→≡ b a, eq→≡ r s) in
    record {
      owned = ground (arith, v.owned, snoc, step, problem, same, eqs, taken_by l t b r e);
      fresh = ground (arith, v.owned, v.fresh, v.frame, snoc, same, eqs, taken_by l t b r e);
      frame = ground (arith, v.frame, snoc, step);
    }
  where
    taken_by :
        (l : SlotLocks) (t : TxId) (b : Address) (r : Hash)
        → (lock_slot l t b r).1 ≡ none
        → (holder l b r ≡ none) ⊎ (holder l b r ≡ some t)
    taken_by l t b r e = elim (Option-cases (holder l b r)) [
      | inl free ↦ inl free
      | inr (u, h) ↦ inr (ground (arith, lock_slot-error l t b r, string_key.same_iff u t))
    ]

-- A slot that the transaction holds stays held while it takes more.
abbrev Keeps : TxId → SlotLocks → SlotLocks → Type 0
Keeps t l l' = (a : Address) (s : Hash) → holder l a s ≡ some t → holder l' a s ≡ some t

take-Keeps : (t : TxId) (l : SlotLocks) (b : Address) (r : Hash) → Keeps t l (lock_slot l t b r).0
take-Keeps t l b r a s h = ground (
  arith,
  lock_slot-holder l t b a r s,
  at_same l b a r s,
  nat_key.same_iff b a,
  nat_key.same_iff r s,
)

-- A lock that fails has changed nothing.
failed_lock :
    (t : TxId) (l₀ l : SlotLocks) (held : List SlotKey) (b : Address) (r : Hash) (e : LockError)
    → (lock_slot l t b r).1 ≡ some e
    → ((a : Address) (s : Hash) → Acquired t l₀ l held a s)
    → (a : Address) (s : Hash) → Acquired t l₀ (lock_slot l t b r).0 held a s
failed_lock t l₀ l held b r e taken q a s =
    let v = q a s in
    let same : holder (lock_slot l t b r).0 a s ≡ holder l a s =
      ground (arith, lock_slot-holder l t b a r s, lock_slot-error l t b r) in
    record { owned = rw same v.owned; fresh = v.fresh; frame = rw same v.frame }

module _ (get_storage_at : Address → Hash → Hash) (bytes_to_hash : List ℕ → Hash) where
  -- The value that was read is the current one, and the slot is held.
  abbrev pub ItemHeld : TxId → SlotLocks → Address → ReadSetItem → Type 0
  ItemHeld t l a item =
      (holder l a item.slot ≡ some t) × (get_storage_at a item.slot ≡ bytes_to_hash item.value)

  abbrev pub AllHeld : TxId → SlotLocks → List RwVariable → Type 0
  AllHeld t l = All (λ v. All (ItemHeld t l v.address) v.read_set)

  keep_items :
      (t : TxId) (l l' : SlotLocks) (a : Address) (items : List ReadSetItem)
      → Keeps t l l'
      → All (ItemHeld t l a) items
      → All (ItemHeld t l' a) items
  keep_items t l l' a [] k h = tt
  keep_items t l l' a (item ∷ items) k h =
      ((k a item.slot h.0.0, h.0.1), keep_items t l l' a items k h.1)

  -- What the inner loop has done, by how it ended.
  abbrev ItemsDone : TxId → Address → List ReadSetItem → SlotLocks → SlotLocks → Locking → Type 0
  ItemsDone t a items l₀ l (locking l' held) =
      ((b : Address) (s : Hash) → Acquired t l₀ l' held b s)
      × Keeps t l l'
      × All (ItemHeld t l' a) items
  ItemsDone t a items l₀ l (refused l' e) = Restored t l₀ l'

  -- One item more, before those that the loop has still to do.
  extend_done :
      (t : TxId) (a : Address) (item : ReadSetItem) (items : List ReadSetItem) (l₀ l l₁ : SlotLocks)
      (r : Locking)
      → Keeps t l l₁
      → ItemHeld t l₁ a item
      → ItemsDone t a items l₀ l₁ r
      → ItemsDone t a (item ∷ items) l₀ l r
  extend_done t a item items l₀ l l₁ (locking l' held) k h (q, k', rest) =
      (q, (λ b s w. k' b s (k b s w)), ((k' a item.slot h.0, h.1), rest))
  extend_done t a item items l₀ l l₁ (refused l' e) k h restored = restored

  lock_items-done :
      (t : TxId) (a : Address) (items : List ReadSetItem) (l₀ l : SlotLocks) (held : List SlotKey)
      → ((b : Address) (s : Hash) → Acquired t l₀ l held b s)
      → ItemsDone t a items l₀ l (lock_items get_storage_at bytes_to_hash t a items l held)
  unfolding lock_items
  lock_items-done t a [] l₀ l held q = (q, (λ b s h. h), tt)
  lock_items-done t a (item ∷ items) l₀ l held q =
      let l₁ : SlotLocks = (lock_slot l t a item.slot).0 in
      let key : SlotKey = record { addr = a; slot = item.slot } in
      elim (Bool-cases (get_storage_at a item.slot == bytes_to_hash item.value)) [
        | inr differs ↦ rw (differs, lock_items) (Acquired-Restored t l₀ l held q)
        | inl equal ↦ elim (Option-cases (lock_slot l t a item.slot).1) [
          | inr (e, taken) ↦
              rw (equal, taken, lock_items)
                (Acquired-Restored t l₀ l₁ held (failed_lock t l₀ l held a item.slot e taken q))
          | inl free ↦
              let next = take-Acquired t l₀ l held a item.slot q free in
              rw (equal, free, lock_items)
                (extend_done t a item items l₀ l l₁ _ (take-Keeps t l a item.slot)
                  (
                    (next a item.slot).owned (
                        ground (
                          arith,
                          in_keys-snoc a item.slot held key,
                          nat_key.same_iff a a,
                          nat_key.same_iff item.slot item.slot,
                        )),
                    eq→≡ (get_storage_at a item.slot) (bytes_to_hash item.value) equal,
                  )
                  (lock_items-done t a items l₀ l₁ (held ++ key ∷ []) next))
        ]
      ]

  abbrev SetsDone : TxId → List RwVariable → SlotLocks → SlotLocks → Locking → Type 0
  SetsDone t vs l₀ l (locking l' held) =
      ((b : Address) (s : Hash) → Acquired t l₀ l' held b s) × Keeps t l l' × AllHeld t l' vs
  SetsDone t vs l₀ l (refused l' e) = Restored t l₀ l'

  extend_sets :
      (t : TxId) (v : RwVariable) (vs : List RwVariable) (l₀ l l₁ : SlotLocks) (r : Locking)
      → Keeps t l l₁
      → All (ItemHeld t l₁ v.address) v.read_set
      → SetsDone t vs l₀ l₁ r
      → SetsDone t (v ∷ vs) l₀ l r
  extend_sets t v vs l₀ l l₁ (locking l' held) k h (q, k', rest) =
      (q, (λ b s w. k' b s (k b s w)), (keep_items t l₁ l' v.address v.read_set k' h, rest))
  extend_sets t v vs l₀ l l₁ (refused l' e) k h restored = restored

  lock_rw_set-done :
      (t : TxId) (vs : List RwVariable) (l₀ l : SlotLocks) (held : List SlotKey)
      → ((b : Address) (s : Hash) → Acquired t l₀ l held b s)
      → SetsDone t vs l₀ l (lock_rw_set get_storage_at bytes_to_hash t vs l held)
  unfolding lock_rw_set
  lock_rw_set-done t [] l₀ l held q = (q, (λ b s h. h), tt)
  lock_rw_set-done t (v ∷ vs) l₀ l held q =
      next (lock_items get_storage_at bytes_to_hash t v.address v.read_set l held)
        (lock_items-done t v.address v.read_set l₀ l held q) (lock_rw_set-done t vs l₀)
    where
      next :
          (r : Locking)
          → ItemsDone t v.address v.read_set l₀ l r
          → ((l₁ : SlotLocks) (held₁ : List SlotKey)
              → ((b : Address) (s : Hash) → Acquired t l₀ l₁ held₁ b s)
              → SetsDone t vs l₀ l₁ (lock_rw_set get_storage_at bytes_to_hash t vs l₁ held₁))
          → SetsDone t (v ∷ vs) l₀ l (elim r [
            | locking l₁ held₁ ↦ lock_rw_set get_storage_at bytes_to_hash t vs l₁ held₁
            | refused l₁ e ↦ refused l₁ e
          ])
      next (locking l₁ held₁) (q₁, k, h) rec = extend_sets t v vs l₀ l l₁ _ k h (rec l₁ held₁ q₁)
      next (refused l₁ e) restored rec = restored

  -- What validation of a whole RwSet from the locks `l` has done.
  abbrev pub Validated : TxId → List RwVariable → SlotLocks → Locking → Type 0
  Validated t vs l (locking l' held) = AllHeld t l' vs × Taken t l l'
  Validated t vs l (refused l' e) = Restored t l l'

  validated :
      (t : TxId) (vs : List RwVariable) (l : SlotLocks) (r : Locking)
      → SetsDone t vs l l r
      → Validated t vs l r
  validated t vs l (locking l' held) (q, k, h) = (h, Acquired-Taken t l l' held q)
  validated t vs l (refused l' e) restored = restored

  -- Validation is all or nothing, from any locks. If it succeeds, every value read is the current
  -- one, its slot is held by the transaction, and slots changed hands only from nobody to the
  -- transaction. If it is refused, no slot has changed hands, but for slots that the transaction
  -- held already, which it may have lost; no slot of another transaction is ever touched.
  pub lock_rw_set-Validated :
      (t : TxId) (vs : List RwVariable) (l : SlotLocks)
      → Validated t vs l (lock_rw_set get_storage_at bytes_to_hash t vs l [])
  lock_rw_set-Validated t vs l = validated t vs l _ (
      lock_rw_set-done t vs l l []
        (λ b s. record { owned = λ h. cc; fresh = λ h. cc; frame = λ h. refl }))
