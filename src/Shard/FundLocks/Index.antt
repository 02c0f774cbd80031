-- ===== src/Shard/FundLocks/Index.antt =====
-- The index by address lists exactly the funds that the transactions have locked.
use test_v.Prelude.{
  ◌≡◌, refl, ap, ◌∙◌, true, inl, inr, List, [], ◌∷◌, ◌++◌, Option, none, some, arith, nat_key,
  string_key, ◌==◌, if◌then◌else◌, Bool-cases, Option-cases,
}
use test_v.Prelude.Lists.{length}
use test_v.Prelude.Int.{ℤ, ◌+ℤ◌}
use test_v.Prelude.Maps.{lookup, get_or-insert, get_or-erase, lookup-insert, lookup-erase}
use test_v.Protocol.{Address, TxId}
use test_v.Shard.FundLocks.{
  FundLocks, LockedFunds, LockedEntry, entries_at, lock_funds, get_locked_amount, remove_first,
  swap_remove, clear_with, clear_lock_locked, clear_lock,
}
use test_v.Shard.FundLocks.Totals.{
  total, get_locked_amount_lem, get_locked_amount-clear_with, removals_agree, total-snoc, +ℤ-swap,
}

-- The amounts that one transaction has among some entries,
abbrev pub amounts_of : TxId → List LockedEntry → List ℤ
amounts_of t [] = []
amounts_of t (e ∷ es) = if e.tx_id == t then e.amount ∷ amounts_of t es else amounts_of t es

-- and what its lock says they should be.
abbrev pub booked : Option LockedFunds → Address → List ℤ
booked none a = []
booked (some lock) a = if lock.address == a then lock.amount ∷ [] else []

abbrev pub IsIndexed : FundLocks → Type 0
IsIndexed f =
    (t : TxId) (a : Address)
    → amounts_of t (entries_at f.locked_by_addr a) ≡ booked (lookup t f.locked) a

pub amounts_of-snoc :
    (t : TxId) (es : List LockedEntry) (e : LockedEntry)
    → amounts_of t (es ++ e ∷ []) ≡ amounts_of t es ++ (if e.tx_id == t then e.amount ∷ [] else [])
amounts_of-snoc t [] e = ground arith
amounts_of-snoc t (x ∷ es) e = ground (arith, amounts_of-snoc t es e)

amounts_of-remove_first :
    (t u : TxId) (es : List LockedEntry) (v : ℤ)
    → amounts_of t es ≡ v ∷ []
    → amounts_of u (remove_first t es) ≡ (if t == u then [] else amounts_of u es)
unfolding remove_first
amounts_of-remove_first t u [] v h = cc
amounts_of-remove_first t u (e ∷ es) v h = ground (
  arith,
  amounts_of-remove_first t u es v,
  string_key.same_iff e.tx_id t,
  string_key.same_iff t u,
  string_key.same_iff e.tx_id u,
)

total-remove_first :
    (t : TxId) (es : List LockedEntry) (v : ℤ) (vs : List ℤ)
    → amounts_of t es ≡ v ∷ vs
    → v +ℤ total (remove_first t es) ≡ total es
unfolding remove_first
total-remove_first t [] v vs h = cc
total-remove_first t (e ∷ es) v vs h = elim (Bool-cases (e.tx_id == t)) [
  | inl same ↦ rw same (ground (arith, same))
  | inr other ↦ rw other (
      +ℤ-swap v e.amount (total (remove_first t es))
      ∙ ap (λ w. e.amount +ℤ w) (total-remove_first t es v vs (ground (arith, other))))
]

pub amounts_of-nil :
    (t : TxId) (es : List LockedEntry) → (length es == 0) ≡ true → amounts_of t es ≡ []
amounts_of-nil t [] h = refl
amounts_of-nil t (e ∷ es) h = ground arith

-- An exact index stays exact when funds are locked for a transaction that holds none.
pub lock_funds-IsIndexed :
    (f : FundLocks) (t : TxId) (a : Address) (v : ℤ)
    → IsIndexed f
    → lookup t f.locked ≡ none
    → IsIndexed (lock_funds f t a v)
unfolding lock_funds
lock_funds-IsIndexed f t a v h fresh u b =
    let lock : LockedFunds = record { address = a; amount = v } in
    let entry : LockedEntry = record { tx_id = t; amount = v } in
    let es = entries_at f.locked_by_addr a in
    ground (
      arith,
      h u b,
      h u a,
      lookup-insert t u lock f.locked,
      get_or-insert [] a b (es ++ entry ∷ []) f.locked_by_addr,
      amounts_of-snoc u es entry,
      string_key.same_iff t u,
      nat_key.same_iff a b,
    )

-- An exact index stays exact when a transaction's lock is cleared.
pub clear_lock_locked-IsIndexed :
    (f : FundLocks) (t : TxId) → IsIndexed f → IsIndexed (clear_lock_locked f t)
unfolding clear_lock_locked clear_with
clear_lock_locked-IsIndexed f t h = elim (Option-cases (lookup t f.locked)) [
  | inl e ↦ rw (e, clear_with) h
  | inr (lock, e) ↦ λ u b.
      let es = entries_at f.locked_by_addr lock.address in
      let left = remove_first t es in
      let at : amounts_of t es ≡ lock.amount ∷ [] =
        ground (arith, h t lock.address, e, nat_key.same_iff lock.address lock.address) in
      rw (e, clear_with)
        (elim (Bool-cases (length left == 0)) [
          | inl z ↦ rw z (
              ground (
                arith,
                h u b,
                h u lock.address,
                amounts_of-nil u left z,
                amounts_of-remove_first t u es lock.amount at,
                get_or-erase [] lock.address b f.locked_by_addr,
                lookup-erase t u f.locked,
                nat_key.same_iff lock.address b,
                string_key.same_iff t u,
              ))
          | inr z ↦ rw z (
              ground (
                arith,
                h u b,
                h u lock.address,
                amounts_of-remove_first t u es lock.amount at,
                get_or-insert [] lock.address b left f.locked_by_addr,
                lookup-erase t u f.locked,
                nat_key.same_iff lock.address b,
                string_key.same_iff t u,
              ))
        ])
]

-- To lock funds adds the amount at its address only.
pub get_locked_amount-lock_funds :
    (f : FundLocks) (t : TxId) (a : Address) (v : ℤ) (b : Address)
    → get_locked_amount (lock_funds f t a v) b
      ≡ (if a == b then get_locked_amount f b +ℤ v else get_locked_amount f b)
unfolding lock_funds
get_locked_amount-lock_funds f t a v b =
    let entry : LockedEntry = record { tx_id = t; amount = v } in
    let es = entries_at f.locked_by_addr a in
    rw (get_locked_amount_lem (lock_funds f t a v) b, get_locked_amount_lem f b, lock_funds)
      (ground (
        arith,
        get_or-insert [] a b (es ++ entry ∷ []) f.locked_by_addr,
        total-snoc es entry,
        nat_key.same_iff a b,
      ))

-- When the index is exact and the transaction has a lock, clearing it gives back exactly what it
-- held, at its address only.
pub get_locked_amount-clear_lock_locked :
    (f : FundLocks) (t : TxId) (lock : LockedFunds) (b : Address)
    → IsIndexed f
    → lookup t f.locked ≡ some lock
    → get_locked_amount f b ≡ (
        if lock.address == b
        then lock.amount +ℤ get_locked_amount (clear_lock_locked f t) b
        else get_locked_amount (clear_lock_locked f t) b)
unfolding clear_lock_locked
get_locked_amount-clear_lock_locked f t lock b h e =
    let es = entries_at f.locked_by_addr lock.address in
    ground (
      arith,
      e,
      h t lock.address,
      total-remove_first t es lock.amount [],
      get_locked_amount-clear_with remove_first f t lock b e,
      get_locked_amount_lem f b,
      nat_key.same_iff lock.address b,
      nat_key.same_iff lock.address lock.address,
    )

-- Both methods that clear a lock leave the same locks and the same amount locked at every address,
-- although the one reorders the entries that remain.
pub clears_agree :
    (f : FundLocks) (t : TxId)
    → ((clear_lock f t).locked ≡ (clear_lock_locked f t).locked)
      × ((a : Address)
          → get_locked_amount (clear_lock f t) a ≡ get_locked_amount (clear_lock_locked f t) a)
unfolding clear_lock clear_lock_locked clear_with get_locked_amount
clears_agree f t = elim (Option-cases (lookup t f.locked)) [
  | inl e ↦ rw (e, clear_with) (refl, λ a. refl)
  | inr (lock, e) ↦ (
    rw (e, clear_with) refl,
    λ a.
        rw
          (
            get_locked_amount-clear_with swap_remove f t lock a e,
            get_locked_amount-clear_with remove_first f t lock a e,
            (removals_agree t (entries_at f.locked_by_addr lock.address)).0,
          )
          refl,
  )
]

-- A cleared lock is gone, and the others stay.
pub lookup-clear_lock_locked :
    (f : FundLocks) (t u : TxId)
    → lookup u (clear_lock_locked f t).locked ≡ (if t == u then none else lookup u f.locked)
unfolding clear_lock_locked clear_with
lookup-clear_lock_locked f t u = ground (arith, lookup-erase t u f.locked, string_key.same_iff t u)

pub lookup-lock_funds :
    (f : FundLocks) (t u : TxId) (a : Address) (v : ℤ)
    → lookup u (lock_funds f t a v).locked
      ≡ (if t == u then some (record { address = a; amount = v }) else lookup u f.locked)
unfolding lock_funds
lookup-lock_funds f t u a v = lookup-insert t u (record { address = a; amount = v }) f.locked
