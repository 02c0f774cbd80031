-- ===== src/Orchestrator/Chain/Waiting.antt =====
-- How long a transaction can wait: no longer than the vote timeout.
use test_v.Prelude.{
  ℕ, ◌+◌, ◌≤◌, ◌<◌, ◌≡◌, refl, ◌⊎◌, inl, inr, true, List, [], ◌∷◌, some, arith, string_key, u64,
  Bool-cases, Option-cases,
}
use test_v.Prelude.Lists.{In}
use test_v.Prelude.Maps.{lookup, contains, lookup-insert}
use test_v.Protocol.{BlockHash, TxId, CrossShardTx, OrchestratorShardBlock}
use test_v.Protocol.Copies.{copy_cross}
use test_v.Orchestrator.Chain.{
  OrchestratorChain, overdue, check_timeouts, await_vote, await_votes, next_block, produce_block,
}
use test_v.Orchestrator.Chain.Consistent.{IsConsistent}
use test_v.Orchestrator.Chain.Timeouts.{check_timeouts_lem, check_timeouts_frame}
use test_v.Orchestrator.Chain.Blocks.{IsLong, sealed, produce_block_total}

-- Every transaction that waits started to do so at a block that has been produced.
abbrev pub IsPast : OrchestratorChain → Type 0
IsPast c = (t : TxId) (start : ℕ) → lookup t c.vote_start_block ≡ some start → start ≤ c.height

pub await_votes_start :
    (h : ℕ) (txs : List CrossShardTx) (c : OrchestratorChain) (t : TxId)
    → let c' = await_votes h c txs in
      ((lookup t c'.vote_start_block ≡ some h)
        ⊎ ((lookup t c'.vote_start_block ≡ lookup t c.vote_start_block)
            × (lookup t c'.awaiting_votes ≡ lookup t c.awaiting_votes)))
      × (c'.vote_timeout ≡ c.vote_timeout)
unfolding await_votes
await_votes_start h [] c t = (inr (refl, refl), refl)
await_votes_start h (tx ∷ txs) c t = ground (
  arith,
  await_votes_start h txs (await_vote h c tx) t,
  lookup-insert tx.id t (copy_cross tx) c.awaiting_votes,
  lookup-insert tx.id t h c.vote_start_block,
)

-- A transaction that outlives a check of the timeouts has time left.
still_waits :
    (c : OrchestratorChain) (t : TxId)
    → IsConsistent c
    → IsPast c
    → c.height + c.vote_timeout < 18446744073709551616
    → contains t (check_timeouts c).0.awaiting_votes ≡ true
    → (start : ℕ) × (lookup t (check_timeouts c).0.vote_start_block ≡ some start)
      × (c.height < start + c.vote_timeout)
unfolding overdue
still_waits c t v past room w =
    let (exactly, aborted, same) = check_timeouts_lem c t in
    let stays : ¬ In t (check_timeouts c).1 = λ i. ground (arith, (aborted i).awaiting) in
    let s = same stays in
    elim (Option-cases (lookup t c.vote_start_block)) [
      | inl e ↦ absurd (ground (arith, s.awaiting, v.started t))
      | inr (start, e) ↦ (
        start,
        rw s.started e,
        elim (Bool-cases (overdue c t)) [
          | inl late ↦ absurd (stays (exactly.1 (ground (arith, s.awaiting), late)))
          | inr early ↦ ground (arith, past t start e)
        ],
      )
    ]

module _ (block_hash : OrchestratorShardBlock → BlockHash) where
  -- After each block every transaction that still waits has waited for at most `vote_timeout`
  -- blocks: it was ordered at most that many blocks before the block just made. The state before is
  -- consistent, with as many blocks as its height says and no start above it, and the sum of height
  -- and timeout stays below 2 ^ 64 - 1.
  pub produce_block_waiting :
      (now : ℕ) (c c' : OrchestratorChain) (block : OrchestratorShardBlock) (t : TxId)
      → IsLong c
      → IsConsistent c
      → IsPast c
      → c.height + c.vote_timeout < 18446744073709551615
      → produce_block block_hash now c ≡ some (block, c')
      → contains t c'.awaiting_votes ≡ true
      → (start : ℕ) × (lookup t c'.vote_start_block ≡ some start)
        × (c'.height ≤ start + c'.vote_timeout)
  produce_block_waiting now c c' block t long v past room e w =
      let (last, _, e₁) = produce_block_total block_hash now c long in
      let c₁ = (check_timeouts c).0 in
      let b₁ = next_block block_hash now c₁ last in
      let same : c' ≡ sealed c₁ b₁ = cc in
      let (h, _, _, limit) = check_timeouts_frame c in
      let (starts, limit') = await_votes_start (u64 (c₁.height + 1)) c₁.pending_txs c₁ t in
      rw same (elim starts [
        | inl new ↦ (u64 (c₁.height + 1), new, omega arith)
        | inr (old, waits) ↦
            let (start, s, l) = still_waits c t v past (omega arith) (ground arith) in
            (start, rw (old, s), omega (arith, h, limit, limit'))
      ])
