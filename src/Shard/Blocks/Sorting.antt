-- ===== src/Shard/Blocks/Sorting.antt =====
-- The order in which a block's transactions run.
use test_v.Prelude.{
  ℕ, ◌≡◌, refl, ◌≤◌, inl, inr, List, [], ◌∷◌, arith, nat_key, ◌==◌, if◌then◌else◌, leb, Bool-cases,
}
use test_v.Prelude.Lists.{All}
use test_v.Protocol.{Transaction, priority}
use test_v.Shard.Blocks.{place, sort_by_priority}

abbrev pub rank : Transaction → ℕ
rank tx = priority tx.tx_type

abbrev pub IsSorted : List Transaction → Type 0
IsSorted [] = Unit
IsSorted (tx ∷ rest) = All (λ later. rank tx ≤ rank later) rest × IsSorted rest

-- The transactions of one priority, in order.
abbrev pub of_priority : ℕ → List Transaction → List Transaction
of_priority p [] = []
of_priority p (tx ∷ rest) = if rank tx == p then tx ∷ of_priority p rest else of_priority p rest

All-place :
    (p : ℕ) (tx : Transaction) (rest : List Transaction)
    → p ≤ rank tx
    → All (λ later. p ≤ rank later) rest
    → All (λ later. p ≤ rank later) (place tx rest)
unfolding place
All-place p tx [] h q = (h, tt)
All-place p tx (other ∷ rest) h q = elim (Bool-cases (leb (rank tx) (rank other))) [
  | inl e ↦ rw e (h, q)
  | inr e ↦ rw e (q.0, All-place p tx rest h q.1)
]

All-weaken :
    (p q : ℕ) (rest : List Transaction)
    → p ≤ q
    → All (λ later. q ≤ rank later) rest
    → All (λ later. p ≤ rank later) rest
All-weaken p q [] h a = tt
All-weaken p q (tx ∷ rest) h a = (omega (arith, a.0), All-weaken p q rest h a.1)

place-IsSorted :
    (tx : Transaction) (rest : List Transaction) → IsSorted rest → IsSorted (place tx rest)
unfolding place
place-IsSorted tx [] h = (tt, tt)
place-IsSorted tx (other ∷ rest) h = elim (Bool-cases (leb (rank tx) (rank other))) [
  | inl e ↦
      let le : rank tx ≤ rank other = ground (arith, e) in
      rw e ((le, All-weaken (rank tx) (rank other) rest le h.0), h)
  | inr e ↦
      rw e (All-place (rank other) tx rest (ground (arith, e)) h.0, place-IsSorted tx rest h.1)
]

pub sort_by_priority-IsSorted : (txs : List Transaction) → IsSorted (sort_by_priority txs)
unfolding sort_by_priority
sort_by_priority-IsSorted [] = tt
sort_by_priority-IsSorted (tx ∷ rest) =
    place-IsSorted tx (sort_by_priority rest) (sort_by_priority-IsSorted rest)

of_priority-place :
    (p : ℕ) (tx : Transaction) (rest : List Transaction)
    → of_priority p (place tx rest) ≡ of_priority p (tx ∷ rest)
unfolding place
of_priority-place p tx [] = refl
of_priority-place p tx (other ∷ rest) = ground (
  arith,
  of_priority-place p tx rest,
  nat_key.same_iff (rank tx) p,
  nat_key.same_iff (rank other) p,
)

of_priority-sort :
    (p : ℕ) (txs : List Transaction) → of_priority p (sort_by_priority txs) ≡ of_priority p txs
unfolding sort_by_priority
of_priority-sort p [] = refl
of_priority-sort p (tx ∷ rest) =
    ground (arith, of_priority-place p tx (sort_by_priority rest), of_priority-sort p rest)

-- The sorted transactions run in ascending order of priority number, and those of one priority are
-- the same as in the queue, in the same order.
pub sort_by_priority_lem :
    (txs : List Transaction)
    → IsSorted (sort_by_priority txs)
      × ((p : ℕ) → of_priority p (sort_by_priority txs) ≡ of_priority p txs)
sort_by_priority_lem txs = (sort_by_priority-IsSorted txs, λ p. of_priority-sort p txs)
