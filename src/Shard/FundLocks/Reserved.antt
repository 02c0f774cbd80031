-- ===== src/Shard/FundLocks/Reserved.antt =====
-- What the index by address has reserved for one transaction, under each change to the fund locks.
use test_v.Prelude.{
  ◌≡◌, ◌≢◌, refl, ap, inl, inr, List, [], ◌∷◌, ◌++◌, arith, nat_key, string_key, ◌==◌, Bool-cases,
  Option-cases,
}
use test_v.Prelude.Lists.{length}
use test_v.Prelude.Int.{ℤ}
use test_v.Prelude.Maps.{lookup, get_or-insert, get_or-erase}
use test_v.Protocol.{Address, TxId}
use test_v.Shard.FundLocks.{
  FundLocks, LockedEntry, entries_at, lock_funds, remove_first, clear_with, clear_lock_locked,
}
use test_v.Shard.FundLocks.Index.{
  amounts_of, IsIndexed, amounts_of-snoc, amounts_of-nil, clear_lock_locked-IsIndexed,
  lookup-clear_lock_locked,
}

-- What other transactions have reserved stays, whatever the index is.
remove_first_other :
    (t u : TxId) (es : List LockedEntry)
    → t ≢ u
    → amounts_of u (remove_first t es) ≡ amounts_of u es
unfolding remove_first
remove_first_other t u [] n = refl
remove_first_other t u (e ∷ es) n = ground (
  arith,
  remove_first_other t u es n,
  string_key.same_iff e.tx_id t,
  string_key.same_iff e.tx_id u,
)

pub amounts_of-clear_lock_locked :
    (f : FundLocks) (t u : TxId) (a : Address)
    → t ≢ u
    → amounts_of u (entries_at (clear_lock_locked f t).locked_by_addr a)
      ≡ amounts_of u (entries_at f.locked_by_addr a)
unfolding clear_lock_locked clear_with
amounts_of-clear_lock_locked f t u a n = elim (Option-cases (lookup t f.locked)) [
  | inl e ↦ rw (e, clear_with) refl
  | inr (lock, e) ↦
      let es = entries_at f.locked_by_addr lock.address in
      let left = remove_first t es in
      rw (e, clear_with)
        (elim (Bool-cases (length left == 0)) [
          | inl z ↦ rw z (
              ground (
                arith,
                amounts_of-nil u left z,
                remove_first_other t u es n,
                get_or-erase [] lock.address a f.locked_by_addr,
                nat_key.same_iff lock.address a,
              ))
          | inr z ↦ rw z (
              ground (
                arith,
                remove_first_other t u es n,
                get_or-insert [] lock.address a left f.locked_by_addr,
                nat_key.same_iff lock.address a,
              ))
        ])
]

pub amounts_of-lock_funds :
    (f : FundLocks) (t u : TxId) (a : Address) (v : ℤ) (b : Address)
    → t ≢ u
    → amounts_of u (entries_at (lock_funds f t a v).locked_by_addr b)
      ≡ amounts_of u (entries_at f.locked_by_addr b)
unfolding lock_funds
amounts_of-lock_funds f t u a v b n =
    let entry : LockedEntry = record { tx_id = t; amount = v } in
    let es = entries_at f.locked_by_addr a in
    ground (
      arith,
      get_or-insert [] a b (es ++ entry ∷ []) f.locked_by_addr,
      amounts_of-snoc u es entry,
      string_key.same_iff t u,
      nat_key.same_iff a b,
      plain (amounts_of u es),
    )
  where
    plain : (vs : List ℤ) → vs ++ [] ≡ vs
    plain [] = refl
    plain (w ∷ vs) = ap (λ ws. w ∷ ws) (plain vs)

-- A transaction whose lock is cleared has nothing left in the index.
pub amounts_of-cleared :
    (f : FundLocks) (t : TxId) (a : Address)
    → IsIndexed f
    → amounts_of t (entries_at (clear_lock_locked f t).locked_by_addr a) ≡ []
amounts_of-cleared f t a h = ground (
  arith,
  clear_lock_locked-IsIndexed f t h t a,
  lookup-clear_lock_locked f t t,
  string_key.same_iff t t,
)
