-- ===== src/Shard/SlotLocks/UnlockAll.antt =====
-- `unlockAllSlotsForTxLocked` releases all slots of one transaction, and only those.
use test_v.Prelude.{
  ◌≡◌, refl, ◌∙◌, inl, inr, true, ◌&&◌, ◌||◌, List, [], ◌∷◌, ◌++◌, none, arith, nat_key, string_key,
  ◌==◌, if◌then◌else◌, Bool-cases,
}
use test_v.Prelude.Lists.{length, All}
use test_v.Prelude.Maps.{
  Map, lookup, insert, erase, IsMap, lookup-insert, lookup-erase, get_or-erase,
}
use test_v.Protocol.{Address, Hash, TxId}
use test_v.Shard.SlotLocks.{
  SlotLocks, SlotKey, slots_at, delete_slot, slots_held, all_slots_held, delete_slots, empty_addrs,
  delete_addrs, unlock_all,
}
use test_v.Shard.SlotLocks.Holder.{holder, held_by, delete_slot-holder, erase-holder}
use test_v.Shard.SlotLocks.ReadSets.{in_keys}

-- Addresses stand once, and slots once for each address.
abbrev pub IsLocks : SlotLocks → Type 0
IsLocks [] = Unit
IsLocks ((a, m) ∷ l) = (lookup a l ≡ none) × IsMap m × IsLocks l

pub insert-IsLocks :
    (a : Address) (m : Map Hash TxId) (l : SlotLocks) → IsMap m → IsLocks l → IsLocks (insert a m l)
unfolding lookup insert
insert-IsLocks a m [] q h = (refl, q, tt)
insert-IsLocks a m ((b, n) ∷ l) q h = ground (
  arith,
  nat_key.same_iff b a,
  insert-IsLocks a m l q h.2,
  lookup-insert a b m l,
  nat_key.same_iff a b,
)

pub erase-IsLocks : (a : Address) (l : SlotLocks) → IsLocks l → IsLocks (erase a l)
unfolding lookup erase
erase-IsLocks a [] h = tt
erase-IsLocks a ((b, n) ∷ l) h = ground (arith, erase-IsLocks a l h.2, lookup-erase a b l)

pub slots_at-IsMap : (l : SlotLocks) (a : Address) → IsLocks l → IsMap (slots_at l a)
unfolding lookup
slots_at-IsMap [] a h = tt
slots_at-IsMap ((b, n) ∷ l) a h = elim (Bool-cases (b == a)) [
  | inl e ↦ let here : slots_at ((b, n) ∷ l) a ≡ n = ground arith in rw here h.1
  | inr e ↦
      let later : slots_at ((b, n) ∷ l) a ≡ slots_at l a = ground arith in
      rw later (slots_at-IsMap l a h.2)
]

in_keys-append :
    (a : Address) (s : Hash) (ks js : List SlotKey)
    → in_keys a s (ks ++ js) ≡ (in_keys a s ks || in_keys a s js)
in_keys-append a s [] js = refl
in_keys-append a s (k ∷ ks) js = ground (arith, in_keys-append a s ks js)

slots_held-in_keys :
    (t : TxId) (b a : Address) (s : Hash) (m : Map Hash TxId)
    → IsMap m
    → in_keys a s (slots_held t b m) ≡ (b == a && held_by (lookup s m) t)
unfolding slots_held lookup
slots_held-in_keys t b a s [] h = ground arith
slots_held-in_keys t b a s ((r, u) ∷ m) h =
    ground (arith, slots_held-in_keys t b a s m h.1, nat_key.same_iff r s)

all_slots_held-in_keys :
    (t : TxId) (a : Address) (s : Hash) (l : SlotLocks)
    → IsLocks l
    → in_keys a s (all_slots_held t l) ≡ held_by (holder l a s) t
unfolding all_slots_held holder lookup
all_slots_held-in_keys t a s [] h = refl
all_slots_held-in_keys t a s ((b, m) ∷ l) h = ground (
  arith,
  in_keys-append a s (slots_held t b m) (all_slots_held t l),
  slots_held-in_keys t b a s m h.1,
  all_slots_held-in_keys t a s l h.2,
  nat_key.same_iff b a,
)

delete_slots-holder :
    (ks : List SlotKey) (l : SlotLocks) (a : Address) (s : Hash)
    → holder (delete_slots ks l) a s ≡ (if in_keys a s ks then none else holder l a s)
unfolding delete_slots
delete_slots-holder [] l a s = refl
delete_slots-holder (k ∷ ks) l a s = ground (
  arith,
  delete_slots-holder ks (delete_slot l k.addr k.slot) a s,
  delete_slot-holder l k.addr a k.slot s,
)

abbrev IsBare : SlotLocks → Address → Type 0
IsBare l a = (length (slots_at l a) == 0) ≡ true

erase-IsBare : (l : SlotLocks) (a b : Address) → IsBare l b → IsBare (erase a l) b
erase-IsBare l a b h = ground (arith, get_or-erase [] a b l)

erase-IsBare-All :
    (l : SlotLocks) (a : Address) (as₁ : List Address)
    → All (IsBare l) as₁
    → All (IsBare (erase a l)) as₁
erase-IsBare-All l a [] h = tt
erase-IsBare-All l a (b ∷ bs) h = (erase-IsBare l a b h.0, erase-IsBare-All l a bs h.1)

delete_addrs-holder :
    (as₁ : List Address) (l : SlotLocks) (a : Address) (s : Hash)
    → All (IsBare l) as₁
    → holder (delete_addrs as₁ l) a s ≡ holder l a s
unfolding delete_addrs
delete_addrs-holder [] l a s h = refl
delete_addrs-holder (b ∷ bs) l a s h =
    delete_addrs-holder bs (erase b l) a s (erase-IsBare-All l b bs h.1) ∙ erase-holder l b a s h.0

empty_addrs-IsBare : (l m : SlotLocks) → All (IsBare l) (empty_addrs l m)
unfolding empty_addrs
empty_addrs-IsBare l [] = tt
empty_addrs-IsBare l ((a, n) ∷ m) = elim (Bool-cases (length (slots_at l a) == 0)) [
  | inl e ↦ rw (e, empty_addrs) (e, empty_addrs-IsBare l m)
  | inr e ↦ rw (e, empty_addrs) (empty_addrs-IsBare l m)
]

-- To unlock all slots of a transaction releases exactly the slots that it holds; every other slot
-- is held as before. The slot locks are well formed before.
pub unlock_all-holder :
    (l : SlotLocks) (t : TxId) (a : Address) (s : Hash)
    → IsLocks l
    → holder (unlock_all l t) a s ≡ (if held_by (holder l a s) t then none else holder l a s)
unfolding unlock_all
unlock_all-holder l t a s h =
    let l₁ = delete_slots (all_slots_held t l) l in
    delete_addrs-holder (empty_addrs l₁ l₁) l₁ a s (empty_addrs-IsBare l₁ l₁)
    ∙ ground
        (arith, delete_slots-holder (all_slots_held t l) l a s, all_slots_held-in_keys t a s l h)
