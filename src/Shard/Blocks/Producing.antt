-- ===== src/Shard/Blocks/Producing.antt =====
-- The block that `ProduceBlock` makes of the queue.
use test_v.Prelude.{
  ℕ, true, false, ◌≡◌, refl, ap, ◌⊎◌, inl, inr, ◌+◌, ◌<◌, ◌≤◌, List, [], ◌∷◌, ◌++◌, Option, none,
  some, arith, nat_key, ◌==◌, Bool-cases, Option-cases, u64,
}
use test_v.Prelude.Lists.{get_elem?, All}
use test_v.Protocol.{BlockHash, Transaction, StateShardBlock}
use test_v.Shard.Evm.{StateDb}
use test_v.Shard.Chain.{Chain}
use test_v.Shard.Blocks.{
  sort_by_priority, process_tx, process_txs, produced, next_block, append_block, produce_block,
}
use test_v.Shard.Blocks.Frame.{process_txs-Frame}
use test_v.Shard.Chain.Frame.{Frame}
use test_v.Shard.Blocks.Sorting.{rank, IsSorted, of_priority, sort_by_priority_lem}

-- `Sublist xs ys`: the elements of `xs` are some of `ys`, in the same order.
abbrev pub Sublist : List Transaction → List Transaction → Type 0
Sublist [] ys = Unit
Sublist (x ∷ xs) [] = ⊥
Sublist (x ∷ xs) (y ∷ ys) = ((x ≡ y) × Sublist xs ys) ⊎ Sublist (x ∷ xs) ys

Sublist_skip :
    (xs : List Transaction) (y : Transaction) (ys : List Transaction)
    → Sublist xs ys
    → Sublist xs (y ∷ ys)
Sublist_skip [] y ys h = tt
Sublist_skip (x ∷ xs) y ys h = inr h

Sublist-All :
    (P : Transaction → Type 0) (xs ys : List Transaction) → Sublist xs ys → All P ys → All P xs
Sublist-All P [] ys h a = tt
Sublist-All P (x ∷ xs) [] h a = elim h [ ]
Sublist-All P (x ∷ xs) (y ∷ ys) (inl (e, h)) a = (rw e a.0, Sublist-All P xs ys h a.1)
Sublist-All P (x ∷ xs) (y ∷ ys) (inr h) a = Sublist-All P (x ∷ xs) ys h a.1

Sublist-IsSorted : (xs ys : List Transaction) → Sublist xs ys → IsSorted ys → IsSorted xs
Sublist-IsSorted [] ys h a = tt
Sublist-IsSorted (x ∷ xs) [] h a = elim h [ ]
Sublist-IsSorted (x ∷ xs) (y ∷ ys) (inl (e, h)) a =
    (rw e (Sublist-All (λ later. rank y ≤ rank later) xs ys h a.0), Sublist-IsSorted xs ys h a.1)
Sublist-IsSorted (x ∷ xs) (y ∷ ys) (inr h) a = Sublist-IsSorted (x ∷ xs) ys h a.1

of_priority-Sublist :
    (p : ℕ) (xs ys : List Transaction)
    → Sublist xs ys
    → Sublist (of_priority p xs) (of_priority p ys)
of_priority-Sublist p [] ys h = tt
of_priority-Sublist p (x ∷ xs) [] h = elim h [ ]
of_priority-Sublist p (x ∷ xs) (y ∷ ys) (inl (e, h)) = rw e (elim (Bool-cases (rank y == p)) [
  | inl q ↦ rw q (inl (refl, of_priority-Sublist p xs ys h))
  | inr q ↦ rw q (of_priority-Sublist p xs ys h)
])
of_priority-Sublist p (x ∷ xs) (y ∷ ys) (inr h) = elim (Bool-cases (rank y == p)) [
  | inl q ↦ rw q (
      Sublist_skip (of_priority p (x ∷ xs)) y (of_priority p ys)
        (of_priority-Sublist p (x ∷ xs) ys h))
  | inr q ↦ rw q (of_priority-Sublist p (x ∷ xs) ys h)
]

module _ (db : StateDb) where
  abbrev Ran : List Transaction → Option (Chain × db.State × List Transaction) → Type 0
  Ran txs none = Unit
  Ran txs (some (d, s, included)) = Sublist included txs

  process_txs-Sublist :
      (c : Chain) (s : db.State) (txs : List Transaction) → Ran txs (process_txs db c s txs)
  unfolding process_txs
  process_txs-Sublist c s [] = tt
  process_txs-Sublist c s (tx ∷ txs) = elim (Option-cases (process_tx db c s tx)) [
    | inl e ↦ rw (e, process_txs) tt
    | inr ((c₁, s₁, included), e) ↦
        let rest = process_txs-Sublist c₁ s₁ txs in
        elim (Option-cases (process_txs db c₁ s₁ txs)) [
          | inl e₁ ↦ rw (e, e₁, process_txs) tt
          | inr ((c₂, s₂, later), e₁) ↦
              let sub : Sublist later txs = rw e₁ at rest in
              elim (Bool-cases included) [
                | inl y ↦ rw (e, e₁, y, process_txs) (inl (refl, sub))
                | inr n ↦ rw (e, e₁, n, process_txs) (Sublist_skip later tx txs sub)
              ]
        ]
  ]

  -- A run of transactions one after another, each by `process_tx` on what the one before it left:
  -- `included` are those that a step included, in order, and `d` and `s'` are what is left.
  abbrev pub RunsThrough :
      Chain → db.State → List Transaction → List Transaction → Chain → db.State → Type 0
  RunsThrough c s [] included d s' = (included ≡ []) × (d ≡ c) × (s' ≡ s)
  RunsThrough c s (tx ∷ txs) included d s' =
      (c₁ : Chain) × (s₁ : db.State) × (((process_tx db c s tx ≡ some (c₁, s₁, false))
          × RunsThrough c₁ s₁ txs included d s')
        ⊎ ((later : List Transaction) × (process_tx db c s tx ≡ some (c₁, s₁, true))
            × (included ≡ tx ∷ later)
            × RunsThrough c₁ s₁ txs later d s'))

  process_txs-RunsThrough :
      (c : Chain) (s : db.State) (txs : List Transaction) (d : Chain) (s' : db.State)
      (included : List Transaction)
      → process_txs db c s txs ≡ some (d, s', included)
      → RunsThrough c s txs included d s'
  unfolding process_txs
  process_txs-RunsThrough c s [] d s' included h = (cc (h), cc (h), cc (h))
  process_txs-RunsThrough c s (tx ∷ txs) d s' included h =
      elim (Option-cases (process_tx db c s tx)) [
        | inl e ↦ cc (rw (process_txs, e) at h)
        | inr ((c₁, s₁, keep), e) ↦ elim (Option-cases (process_txs db c₁ s₁ txs)) [
          | inl e₁ ↦ cc (rw (process_txs, e, e₁) at h)
          | inr ((c₂, s₂, later), e₁) ↦ elim (Bool-cases keep) [
            | inl y ↦
                let h' = rw (process_txs, e, e₁, y) at h in
                let rest = process_txs-RunsThrough c₁ s₁ txs c₂ s₂ later e₁ in
                let is_chain : c₂ ≡ d = cc (h') in
                let is_state : s₂ ≡ s' = cc (h') in
                (c₁, s₁, inr (later, rw (← y) e, cc (h'), rw (is_chain, is_state) at rest))
            | inr n ↦
                let h' = rw (process_txs, e, e₁, n) at h in
                let rest = process_txs-RunsThrough c₁ s₁ txs c₂ s₂ later e₁ in
                let is_chain : c₂ ≡ d = cc (h') in
                let is_state : s₂ ≡ s' = cc (h') in
                let same : later ≡ included = cc (h') in
                (c₁, s₁, inl (rw (← n) e, rw (is_chain, is_state, same) at rest))
          ]
        ]
      ]

  -- What ran for a block: the queue in order of priority, with the votes that this has recorded, and
  -- the commit of the state after it.
  abbrev pub HasRun : Chain → db.State → db.State → StateShardBlock → Type 0
  HasRun c s s' block =
      (c₁ : Chain) × (s₁ : db.State) × RunsThrough c s (sort_by_priority c.current_txs)
        block.tx_ordering c₁ s₁
      × (block.tpc_prepare ≡ c₁.prepares)
      × (db.commit s₁ (c.height + 1) ≡ some (s', block.state_root))

  -- Of each priority a block holds some of the queued transactions, in the order of the queue, and
  -- all in ascending order of priority.
  abbrev pub IsOrdered : List Transaction → StateShardBlock → Type 0
  IsOrdered queue block =
      IsSorted block.tx_ordering
      × ((p : ℕ) → Sublist (of_priority p block.tx_ordering) (of_priority p queue))

  module _ (block_hash : StateShardBlock → BlockHash) where
    -- A block that is produced is one higher than the last, names the last one's hash and ends the
    -- chain. The queued transactions are run one after another in ascending order of priority number,
    -- those of each priority in the order of the queue. The block holds exactly those that their step
    -- included, in this order, the votes as the run left them, the root of the state that the run left
    -- and that is committed, the time, and the recorded prepare operations. The queue, the prepare
    -- operations and the votes are empty afterwards. The height is below the largest uint64.
    pub produce_block_extends :
        (now : ℕ) (c : Chain) (s : db.State) (d : Chain) (s' : db.State) (block : StateShardBlock)
        → c.height < 18446744073709551615
        → produce_block db block_hash now c s ≡ produced d s' block
        → (last : StateShardBlock) × (get_elem? c.blocks c.height ≡ some last)
          × (block.height ≡ c.height + 1)
          × (block.prev_hash ≡ block_hash last)
          × (block.prepare_txs ≡ c.prepare_txs)
          × (block.timestamp ≡ now)
          × IsOrdered c.current_txs block
          × HasRun c s s' block
          × (d.blocks ≡ c.blocks ++ block ∷ [])
          × (d.height ≡ c.height + 1)
          × (d.current_txs ≡ [])
          × (d.prepare_txs ≡ [])
          × (d.prepares ≡ [])
    unfolding produce_block next_block append_block
    produce_block_extends now c s d s' block room h =
        let queue = sort_by_priority c.current_txs in
        let order = sort_by_priority_lem c.current_txs in
        let sub = process_txs-Sublist c s queue in
        let frame = process_txs-Frame db c s queue in
        elim (Option-cases (process_txs db c s queue)) [
          | inl e ↦ cc (rw (produce_block, e) at h)
          | inr ((c₁, s₁, txs), e) ↦ elim (Option-cases (db.commit s₁ (u64 (c₁.height + 1)))) [
            | inl e₁ ↦ cc (rw (produce_block, e, e₁) at h)
            | inr ((s₂, root), e₁) ↦ elim (Option-cases (get_elem? c₁.blocks c₁.height)) [
              | inl e₂ ↦ cc (rw (produce_block, e, e₁, e₂) at h)
              | inr (last, e₂) ↦
                  let made = next_block db block_hash now c₁ root txs last in
                  let h' = rw (produce_block, e, e₁, e₂) at h in
                  let is_block : block ≡ made = cc (h') in
                  let is_chain : d ≡ append_block db block_hash c₁ made = cc (h') in
                  let same : Frame c c₁ = rw e at frame in
                  let is_state : s₂ ≡ s' = cc (h') in
                  let above : u64 (c₁.height + 1) ≡ c.height + 1 = rw same.1 (omega arith) in
                  let committed : db.commit s₁ (c.height + 1) ≡ some (s', root) =
                    rw (← above, ← is_state) e₁ in
                  let some_of : Sublist txs queue = rw e at sub in
                  rw (is_block, is_chain)
                    (
                      last,
                      rw (← same.0, ← same.1) e₂,
                      rw same.1 (omega arith),
                      refl,
                      same.2,
                      refl,
                      (
                        Sublist-IsSorted txs queue some_of order.0,
                        λ p. rw (← order.1 p) (of_priority-Sublist p txs queue some_of),
                      ),
                      (c₁, s₁, process_txs-RunsThrough c s queue c₁ s₁ txs e, refl, committed),
                      ap (λ (l : List StateShardBlock). l ++ made ∷ []) same.0,
                      rw same.1 (omega arith),
                      refl,
                      refl,
                      refl,
                    )
            ]
          ]
        ]
