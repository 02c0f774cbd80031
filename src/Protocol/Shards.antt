-- ===== src/Protocol/Shards.antt =====
-- internal/protocol/types.go, `CrossShardTx.TargetShards` and `InvolvedShards`: the shards that
-- have to vote on a cross-shard transaction.
use test_v.Prelude.{
  ◌≡◌, ◌↔◌, ◌⊎◌, inl, inr, Bool, true, false, List, [], ◌∷◌, ◌++◌, map, arith, ◌==◌, if◌then◌else◌,
  Bool-cases,
}
use test_v.Prelude.Int.{ℤ, int_key}
use test_v.Prelude.Lists.{In, Distinct, In-append, In-append_left, In-append_right, Distinct-snoc}
use test_v.Prelude.Maps.{Map, insert, get_or, get_or-insert, lookup}
use test_v.Protocol.{RwVariable, CrossShardTx}

abbrev pub shard_of : RwVariable → ℤ
shard_of rw = rw.reference_block.shard_num

-- The loop of `TargetShards` over the variables left, with its `seen` map and result so far.
target_loop : Map ℤ Bool → List ℤ → List RwVariable → List ℤ
target_loop seen shards [] = shards
target_loop seen shards (v ∷ rest) = elim (get_or false (shard_of v) seen) [
  | true ↦ target_loop seen shards rest
  | false ↦ target_loop (insert (shard_of v) true seen) (shards ++ shard_of v ∷ []) rest
]

unfoldable pub target_shards : CrossShardTx → List ℤ
unfolding target_loop
target_shards tx = target_loop [] [] tx.rw_set

-- The loop of `InvolvedShards`: is `s` among the shards?
has_shard : ℤ → List ℤ → Bool
has_shard s [] = false
has_shard s (x ∷ xs) = if x == s then true else has_shard s xs

unfoldable pub involved_shards : CrossShardTx → List ℤ
unfolding target_shards has_shard
involved_shards tx =
    let shards = target_shards tx in
    if has_shard tx.from_shard shards then shards else tx.from_shard ∷ shards

-- The shards of a transaction's variables.
abbrev pub rw_shards : CrossShardTx → List ℤ
rw_shards tx = map shard_of tx.rw_set

has_shard-In : (s : ℤ) (xs : List ℤ) → (has_shard s xs ≡ true) ↔ In s xs
unfolding has_shard
has_shard-In s [] = ((λ h. cc), (λ m. elim m [ ]))
has_shard-In s (x ∷ xs) = ground (arith, int_key.same_iff x s, has_shard-In s xs)

-- The loop's invariant: `seen` holds exactly the shards collected, each once.
abbrev Collected : Map ℤ Bool → List ℤ → Type 0
Collected seen shards = (s : ℤ) → (get_or false s seen ≡ true) ↔ In s shards

collect-Collected :
    (seen : Map ℤ Bool) (shards : List ℤ) (x : ℤ)
    → Collected seen shards
    → Collected (insert x true seen) (shards ++ x ∷ [])
collect-Collected seen shards x c s = ground (
  arith,
  get_or-insert false x s true seen,
  int_key.same_iff x s,
  c s,
  In-append s shards (x ∷ []),
  In-append_left s shards (x ∷ []),
  In-append_right s shards (x ∷ []),
)

target_loop-Distinct :
    (seen : Map ℤ Bool) (shards : List ℤ) (rws : List RwVariable)
    → Collected seen shards
    → Distinct shards
    → Distinct (target_loop seen shards rws)
unfolding target_loop
target_loop-Distinct seen shards [] c d = d
target_loop-Distinct seen shards (v ∷ rest) c d =
    elim (Bool-cases (get_or false (shard_of v) seen)) [
      | inl old ↦ rw (old, target_loop) (target_loop-Distinct seen shards rest c d)
      | inr new ↦
          rw (new, target_loop)
            (target_loop-Distinct (insert (shard_of v) true seen) (shards ++ shard_of v ∷ []) rest
              (collect-Collected seen shards (shard_of v) c)
              (Distinct-snoc (shard_of v) shards d (λ m. cc ((c (shard_of v)).1 m))))
    ]

target_loop-In :
    (seen : Map ℤ Bool) (shards : List ℤ) (rws : List RwVariable) (s : ℤ)
    → Collected seen shards
    → In s (target_loop seen shards rws) ↔ (In s shards ⊎ In s (map shard_of rws))
unfolding target_loop
target_loop-In seen shards [] s c = (inl, λ m. elim m [ inl i ↦ i | inr f ↦ elim f [ ] ])
target_loop-In seen shards (v ∷ rest) s c = elim (Bool-cases (get_or false (shard_of v) seen)) [
  | inl old ↦
      rw (old, target_loop)
        (ground (
          arith,
          target_loop-In seen shards rest s c,
          int_key.same_iff s (shard_of v),
          c (shard_of v),
          c s,
        ))
  | inr new ↦
      rw (new, target_loop)
        (ground (
          arith,
          target_loop-In (insert (shard_of v) true seen) (shards ++ shard_of v ∷ []) rest s
              (collect-Collected seen shards (shard_of v) c),
          In-append s shards (shard_of v ∷ []),
          In-append_left s shards (shard_of v ∷ []),
          In-append_right s shards (shard_of v ∷ []),
        ))
]

none_Collected : Collected [] []
unfolding lookup
none_Collected s = ((λ h. cc), (λ m. elim m [ ]))

target_shards-Distinct : (tx : CrossShardTx) → Distinct (target_shards tx)
unfolding target_shards
target_shards-Distinct tx = target_loop-Distinct [] [] tx.rw_set none_Collected tt

target_shards-In : (tx : CrossShardTx) (s : ℤ) → In s (target_shards tx) ↔ In s (rw_shards tx)
unfolding target_shards
target_shards-In tx s = ground (arith, target_loop-In [] [] tx.rw_set s none_Collected)

pub involved_shards-Distinct : (tx : CrossShardTx) → Distinct (involved_shards tx)
unfolding involved_shards
involved_shards-Distinct tx = elim (Bool-cases (has_shard tx.from_shard (target_shards tx))) [
  | inl h ↦ rw h (target_shards-Distinct tx)
  | inr h ↦
      rw h
        ((λ m. cc ((has_shard-In tx.from_shard (target_shards tx)).1 m)), target_shards-Distinct tx)
]

pub involved_shards-In :
    (tx : CrossShardTx) (s : ℤ)
    → In s (involved_shards tx) ↔ ((s ≡ tx.from_shard) ⊎ In s (rw_shards tx))
unfolding involved_shards
involved_shards-In tx s = ground (
  arith,
  has_shard-In tx.from_shard (target_shards tx),
  target_shards-In tx s,
  int_key.same_iff s tx.from_shard,
)

-- The shards that must vote on a transaction are its source shard and the shards of its RwSet, and
-- each of them is listed exactly once.
pub involved_shards_lem :
    (tx : CrossShardTx)
    → Distinct (involved_shards tx)
      × ((s : ℤ) → In s (involved_shards tx) ↔ ((s ≡ tx.from_shard) ⊎ In s (rw_shards tx)))
involved_shards_lem tx = (involved_shards-Distinct tx, involved_shards-In tx)
