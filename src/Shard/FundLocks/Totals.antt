-- ===== src/Shard/FundLocks/Totals.antt =====
-- The amount locked at an address, under each change to the fund locks.
use test_v.Prelude.{
  ◌≡◌, refl, ap, ◌∙◌, sym, suc, true, inl, inr, List, [], ◌∷◌, ◌++◌, some, arith, nat_key,
  string_key, ◌==◌, if◌then◌else◌, Bool-cases,
}
use test_v.Prelude.Lists.{length}
use test_v.Prelude.Int.{ℤ, pos, ◌+ℤ◌, eq_of_parts, +ℤ_parts}
use test_v.Prelude.Maps.{lookup, get_or-insert, get_or-erase}
use test_v.Protocol.{Address, TxId}
use test_v.Shard.FundLocks.{
  FundLocks, LockedFunds, LockedEntry, entries_at, sum_entries, get_locked_amount, remove_first,
  last_entry, truncate, last_to_front, swap_remove, clear_with,
}

+ℤ-assoc : (a b c : ℤ) → (a +ℤ b) +ℤ c ≡ a +ℤ (b +ℤ c)
+ℤ-assoc a b c =
    eq_of_parts ((a +ℤ b) +ℤ c) (a +ℤ (b +ℤ c))
      (omega (arith, +ℤ_parts a b, +ℤ_parts b c, +ℤ_parts (a +ℤ b) c, +ℤ_parts a (b +ℤ c)))

+ℤ-comm : (a b : ℤ) → a +ℤ b ≡ b +ℤ a
+ℤ-comm a b = eq_of_parts (a +ℤ b) (b +ℤ a) (omega (arith, +ℤ_parts a b, +ℤ_parts b a))

pub +ℤ-zero : (a : ℤ) → pos 0 +ℤ a ≡ a
+ℤ-zero a = eq_of_parts (pos 0 +ℤ a) a (omega (arith, +ℤ_parts (pos 0) a))

-- The sum of the entries,
abbrev pub total : List LockedEntry → ℤ
total [] = pos 0
total (e ∷ es) = e.amount +ℤ total es

-- which the loop adds to what it starts from.
sum_entries_lem : (v : ℤ) (es : List LockedEntry) → sum_entries v es ≡ v +ℤ total es
unfolding sum_entries
sum_entries_lem v [] = eq_of_parts v (v +ℤ pos 0) (omega (arith, +ℤ_parts v (pos 0)))
sum_entries_lem v (e ∷ es) = sum_entries_lem (v +ℤ e.amount) es ∙ +ℤ-assoc v e.amount (total es)

pub get_locked_amount_lem :
    (f : FundLocks) (a : Address) → get_locked_amount f a ≡ total (entries_at f.locked_by_addr a)
unfolding get_locked_amount
get_locked_amount_lem f a =
    sum_entries_lem (pos 0) (entries_at f.locked_by_addr a)
    ∙ +ℤ-zero (total (entries_at f.locked_by_addr a))

pub total-snoc :
    (es : List LockedEntry) (e : LockedEntry) → total (es ++ e ∷ []) ≡ total es +ℤ e.amount
total-snoc [] e = +ℤ-comm e.amount (pos 0)
total-snoc (x ∷ es) e =
    ap (λ w. x.amount +ℤ w) (total-snoc es e) ∙ sym (+ℤ-assoc x.amount (total es) e.amount)

total-last :
    (e : LockedEntry) (es : List LockedEntry)
    → total (last_entry e es ∷ truncate e es) ≡ total (e ∷ es)
unfolding last_entry truncate
total-last e [] = refl
total-last e (x ∷ es) =
    let l = (last_entry x es).amount in
    let h = total-last x es in
    sym (+ℤ-assoc l e.amount (total (truncate x es)))
    ∙ ap (λ w. w +ℤ total (truncate x es)) (+ℤ-comm l e.amount)
    ∙ +ℤ-assoc e.amount l (total (truncate x es))
    ∙ ap (λ w. e.amount +ℤ w) h

total-last_to_front : (es : List LockedEntry) → total (last_to_front es) ≡ total es
unfolding last_to_front
total-last_to_front [] = refl
total-last_to_front (e ∷ es) = total-last e es

length-truncate : (e : LockedEntry) (es : List LockedEntry) → length (truncate e es) ≡ length es
unfolding truncate
length-truncate e [] = refl
length-truncate e (x ∷ es) = ap suc (length-truncate x es)

length-last_to_front : (es : List LockedEntry) → length (last_to_front es) ≡ length es
unfolding last_to_front
length-last_to_front [] = refl
length-last_to_front (e ∷ es) = ap suc (length-truncate e es)

-- The two removals agree on the sum and on how much is left.
pub removals_agree :
    (t : TxId) (es : List LockedEntry)
    → (total (swap_remove t es) ≡ total (remove_first t es))
      × (length (swap_remove t es) ≡ length (remove_first t es))
unfolding swap_remove remove_first
removals_agree t [] = (refl, refl)
removals_agree t (e ∷ es) =
    ground (arith, removals_agree t es, total-last_to_front es, length-last_to_front es)

total-nil : (es : List LockedEntry) → (length es == 0) ≡ true → total es ≡ pos 0
total-nil [] h = refl
total-nil (e ∷ es) h = ground arith

-- The amount locked anywhere after either method, when the transaction had a lock.
pub get_locked_amount-clear_with :
    (remove : TxId → List LockedEntry → List LockedEntry) (f : FundLocks) (t : TxId)
    (lock : LockedFunds) (a : Address)
    → lookup t f.locked ≡ some lock
    → get_locked_amount (clear_with remove f t) a ≡ (
        if lock.address == a
        then total (remove t (entries_at f.locked_by_addr lock.address))
        else get_locked_amount f a)
unfolding clear_with
get_locked_amount-clear_with remove f t lock a h =
    let left = remove t (entries_at f.locked_by_addr lock.address) in
    rw (get_locked_amount_lem (clear_with remove f t) a, get_locked_amount_lem f a, h, clear_with)
      (elim (Bool-cases (length left == 0)) [
        | inl z ↦
            rw z (ground (arith, get_or-erase [] lock.address a f.locked_by_addr, total-nil left z))
        | inr z ↦ rw z (ground (arith, get_or-insert [] lock.address a left f.locked_by_addr))
      ])

pub +ℤ-swap : (a b c : ℤ) → a +ℤ (b +ℤ c) ≡ b +ℤ (a +ℤ c)
+ℤ-swap a b c = sym (+ℤ-assoc a b c) ∙ ap (λ w. w +ℤ c) (+ℤ-comm a b) ∙ +ℤ-assoc b a c
