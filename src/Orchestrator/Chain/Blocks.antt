-- ===== src/Orchestrator/Chain/Blocks.antt =====
-- `ProduceBlock`: what the block holds, how it is linked, and who waits afterwards.
use test_v.Prelude.{
  ℕ, suc, ◌+◌, ◌<◌, ◌≡◌, refl, ap, ◌∙◌, inl, inr, List, [], ◌∷◌, ◌++◌, map, some, arith, string_key,
  u64,
}
use test_v.Prelude.Lists.{
  length, length-append, get_elem?, get_elem?-lt, get_elem?-snoc, get_elem?-bound,
}
use test_v.Prelude.Maps.{lookup-nil}
use test_v.Protocol.{BlockHash, CrossShardTx, OrchestratorShardBlock}
use test_v.Protocol.Copies.{copy_cross, copy_cross-same}
use test_v.Orchestrator.Chain.{
  OrchestratorChain, check_timeouts, await_votes, next_block, seal_block, produce_block,
}
use test_v.Orchestrator.Chain.Consistent.{
  IsConsistent, check_timeouts-IsConsistent, await_votes-IsConsistent,
}
use test_v.Orchestrator.Chain.Timeouts.{check_timeouts_frame}

-- The state that `ProduceBlock` leaves, from the state after the timeouts and the new block.
abbrev pub sealed : OrchestratorChain → OrchestratorShardBlock → OrchestratorChain
sealed c block = record (await_votes (u64 (c.height + 1)) c c.pending_txs) {
  blocks = c.blocks ++ block ∷ [];
  height = u64 (c.height + 1);
  pending_txs = [];
  pending_result = [];
}

-- The loop looks at none of the four fields that are set after it.
await_votes_fields :
    (h n : ℕ) (txs ps : List CrossShardTx) (bs : List OrchestratorShardBlock)
    (c : OrchestratorChain)
    → record (await_votes h c txs) {
      blocks = bs;
      height = n;
      pending_txs = ps;
      pending_result = [];
    }
      ≡ await_votes h
          (record c { blocks = bs; height = n; pending_txs = ps; pending_result = [] })
          txs
unfolding await_votes
await_votes_fields h n [] ps bs c = refl
await_votes_fields h n (tx ∷ txs) ps bs c = await_votes_fields h n txs ps bs _

pub sealed-IsConsistent :
    (c : OrchestratorChain) (block : OrchestratorShardBlock)
    → IsConsistent c
    → IsConsistent (sealed c block)
sealed-IsConsistent c block v =
    rw
      (await_votes_fields (u64 (c.height + 1)) (u64 (c.height + 1)) c.pending_txs []
        (c.blocks ++ block ∷ []) c)
      (await_votes-IsConsistent (u64 (c.height + 1)) c.pending_txs _ refl (record {
        undecided = λ t w. lookup-nil t;
        voters = v.voters;
        started = v.started;
        tallied = v.tallied;
        unanimous = v.unanimous;
      }))

map_copies : (txs : List CrossShardTx) → map copy_cross txs ≡ txs
map_copies [] = refl
map_copies (tx ∷ txs) = cc (copy_cross-same tx, map_copies txs)

-- The list of blocks is as long as the height says.
abbrev pub IsLong : OrchestratorChain → Type 0
IsLong c = length c.blocks ≡ suc c.height

module _ (block_hash : OrchestratorShardBlock → BlockHash) where
  -- `blocks[i]` has height `i` and names the hash of the block before it.
  pub record IsLinked (c : OrchestratorChain) : Type 0 where
    pub numbered :
        (i : ℕ) (b : OrchestratorShardBlock) → get_elem? c.blocks i ≡ some b → b.height ≡ i
    pub linked :
        (i : ℕ) (a b : OrchestratorShardBlock)
        → get_elem? c.blocks i ≡ some a
        → get_elem? c.blocks (suc i) ≡ some b
        → b.prev_hash ≡ block_hash a

  -- Production never indexes out of range: it yields a block and the state `sealed`.
  pub produce_block_total :
      (now : ℕ) (c : OrchestratorChain)
      → IsLong c
      → (last : OrchestratorShardBlock) × (get_elem? c.blocks c.height ≡ some last)
        × (produce_block block_hash now c
            ≡ some (
              next_block block_hash now (check_timeouts c).0 last,
              sealed (check_timeouts c).0 (next_block block_hash now (check_timeouts c).0 last),
            ))
  unfolding produce_block seal_block
  produce_block_total now c long =
      let (last, e) = get_elem?-lt c.blocks c.height (omega arith) in
      let (h, bs, _, _) = check_timeouts_frame c in (last, e, ground arith)

  -- A block that `ProduceBlock` makes is one higher than the last, names the last one's hash, and
  -- carries all decisions, those of this block's timeouts included, and all queued transactions, in
  -- order; decisions and queue are empty afterwards. Production never indexes out of range, if the
  -- list of blocks is as long as the height says and the height is below the largest uint64.
  pub produce_block_lem :
      (now : ℕ) (c : OrchestratorChain)
      → IsLong c
      → c.height < 18446744073709551615
      → (last block : OrchestratorShardBlock) × (c' : OrchestratorChain) × (get_elem? c.blocks
            c.height
          ≡ some last)
        × (produce_block block_hash now c ≡ some (block, c'))
        × (block.height ≡ c.height + 1)
        × (block.prev_hash ≡ block_hash last)
        × (block.tpc_result ≡ (check_timeouts c).0.pending_result)
        × (block.ct_to_order ≡ c.pending_txs)
        × (c'.blocks ≡ c.blocks ++ block ∷ [])
        × (c'.height ≡ c.height + 1)
        × (c'.pending_txs ≡ [])
        × (c'.pending_result ≡ [])
        × IsLong c'
  unfolding next_block
  produce_block_lem now c long room =
      let (last, found, e) = produce_block_total now c long in
      let (h, bs, ps, _) = check_timeouts_frame c in
      let block = next_block block_hash now (check_timeouts c).0 last in
      (
        last,
        block,
        sealed (check_timeouts c).0 block,
        found,
        e,
        ground arith,
        refl,
        refl,
        map_copies _ ∙ ps,
        ap (λ (l : List OrchestratorShardBlock). l ++ block ∷ []) bs,
        ground arith,
        refl,
        refl,
        ground (arith, length-append c.blocks (block ∷ [])),
      )

  extend_numbered :
      (c : OrchestratorChain) (block : OrchestratorShardBlock) (i : ℕ) (b : OrchestratorShardBlock)
      → IsLong c
      → IsLinked c
      → block.height ≡ c.height + 1
      → get_elem? (c.blocks ++ block ∷ []) i ≡ some b
      → b.height ≡ i
  extend_numbered c block i b long v h e = elim (get_elem?-snoc c.blocks block b i e) [
    | inl old ↦ v.numbered i b old
    | inr (at, new) ↦ rw new (omega arith)
  ]

  extend_linked :
      (c : OrchestratorChain) (last block : OrchestratorShardBlock) (i : ℕ)
      (a b : OrchestratorShardBlock)
      → IsLong c
      → IsLinked c
      → get_elem? c.blocks c.height ≡ some last
      → block.prev_hash ≡ block_hash last
      → get_elem? (c.blocks ++ block ∷ []) i ≡ some a
      → get_elem? (c.blocks ++ block ∷ []) (suc i) ≡ some b
      → b.prev_hash ≡ block_hash a
  extend_linked c last block i a b long v found p ea eb =
      elim (get_elem?-snoc c.blocks block b (suc i) eb) [
        | inl old ↦ elim (get_elem?-snoc c.blocks block a i ea) [
          | inl before ↦ v.linked i a b before old
          | inr (at, _) ↦ absurd (omega (arith, get_elem?-bound c.blocks b (suc i) old))
        ]
        | inr (at, new) ↦ elim (get_elem?-snoc c.blocks block a i ea) [
          | inl before ↦
              let e : i ≡ c.height = omega arith in ground (arith, ap (get_elem? c.blocks) e)
          | inr (here, _) ↦ absurd (omega arith)
        ]
      ]

  -- The new block extends the chain of hashes, and the chain is as long as its height says again.
  pub produce_block-IsLinked :
      (now : ℕ) (c c' : OrchestratorChain) (block : OrchestratorShardBlock)
      → IsLong c
      → c.height < 18446744073709551615
      → IsLinked c
      → produce_block block_hash now c ≡ some (block, c')
      → IsLinked c' × IsLong c' × (c'.height ≡ c.height + 1)
  produce_block-IsLinked now c c' block long room v e =
      let (last, b₁, c₁, found, e₁, h, p, _, _, bs, h', _, _, l') =
        produce_block_lem now c long room in
      let same : c' ≡ c₁ = cc in
      rw same (
        record {
          numbered = λ i b q. extend_numbered c b₁ i b long v h (rw (← bs) q);
          linked = λ i a b qa qb.
              extend_linked c last b₁ i a b long v found p (rw (← bs) qa) (rw (← bs) qb);
        },
        l',
        h',
      )

  pub produce_block-IsConsistent :
      (now : ℕ) (c c' : OrchestratorChain) (block : OrchestratorShardBlock)
      → IsLong c
      → IsConsistent c
      → produce_block block_hash now c ≡ some (block, c')
      → IsConsistent c'
  produce_block-IsConsistent now c c' block long v e =
      let (last, _, e₁) = produce_block_total now c long in
      let c₁ = (check_timeouts c).0 in
      let same : c' ≡ sealed c₁ (next_block block_hash now c₁ last) = cc in
      rw same (
        sealed-IsConsistent c₁ (next_block block_hash now c₁ last)
          (check_timeouts-IsConsistent c v))
