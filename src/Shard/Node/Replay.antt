-- ===== src/Shard/Node/Replay.antt =====
-- Replaying orchestrator blocks after a crash.
use test_v.Prelude.{
  ℕ, zero, suc, ◌+◌, ◌-◌, ◌≤◌, ◌<◌, ◌≡◌, refl, ap, ◌∙◌, inl, inr, false, Option, none, some, String,
  arith, nat_key, string_key, if◌then◌else◌, leb, le→leb, Option-cases,
}
use test_v.Prelude.Int.{int_key}
use test_v.Protocol.{OrchestratorShardBlock}
use test_v.Shard.Node.{Node, process_orchestrator_block, recover_loop, recover}

module _ (new_uuid : ℕ → String) where
  pub replay_skips :
      (n : Node) (block : OrchestratorShardBlock)
      → block.height ≤ n.chain.last_orchestrator_height
      → process_orchestrator_block new_uuid n block ≡ n
  unfolding process_orchestrator_block
  replay_skips n block h =
      rw (process_orchestrator_block, le→leb block.height n.chain.last_orchestrator_height h) refl

  -- After a block the height is the block's, if that is higher than the last one.
  pub processed_height :
      (n : Node) (block : OrchestratorShardBlock)
      → (process_orchestrator_block new_uuid n block).chain.last_orchestrator_height ≡ (
          if leb block.height n.chain.last_orchestrator_height
          then n.chain.last_orchestrator_height
          else block.height)
  unfolding process_orchestrator_block
  processed_height n block = ground arith

  -- A block is processed once: afterwards the height is at least the block's and at least what it
  -- was, and to process a block of that height or a lower one changes nothing.
  pub process_orchestrator_block_once :
      (n : Node) (block again : OrchestratorShardBlock)
      → again.height ≤ block.height
      → let m = process_orchestrator_block new_uuid n block in
        (block.height ≤ m.chain.last_orchestrator_height)
        × (n.chain.last_orchestrator_height ≤ m.chain.last_orchestrator_height)
        × (process_orchestrator_block new_uuid m again ≡ m)
  process_orchestrator_block_once n block again h =
      let m = process_orchestrator_block new_uuid n block in
      let reached : block.height ≤ m.chain.last_orchestrator_height =
        ground (arith, processed_height n block) in
      let kept : n.chain.last_orchestrator_height ≤ m.chain.last_orchestrator_height =
        ground (arith, processed_height n block) in
      (reached, kept, replay_skips m again (omega arith))

  module _ (fetch : ℕ → Option OrchestratorShardBlock) where
    -- The orchestrator answers with blocks of the height that is asked for.
    abbrev pub Answers : Type 0
    Answers = (h : ℕ) (block : OrchestratorShardBlock) → fetch h ≡ some block → block.height ≡ h

    abbrev next : ℕ → Node → Node
    next height n = elim (fetch height) [
      | none ↦ n
      | some b ↦ process_orchestrator_block new_uuid n b
    ]

    next_height :
        (height : ℕ) (n : Node)
        → Answers
        → n.chain.last_orchestrator_height < height
        → (next height n).chain.last_orchestrator_height ≤ height
    next_height height n a h = elim (Option-cases (fetch height)) [
      | inl e ↦ rw (e, next) (omega arith)
      | inr (b, e) ↦ rw (e, next) (ground (arith, processed_height n b, a height b e))
    ]

    next_reaches :
        (height : ℕ) (n : Node) (b : OrchestratorShardBlock)
        → Answers
        → n.chain.last_orchestrator_height < height
        → fetch height ≡ some b
        → (next height n).chain.last_orchestrator_height ≡ height
    next_reaches height n b a h e =
        rw (e, next) (ground (arith, processed_height n b, a height b e))

    recover_loop-height :
        (count height : ℕ) (n : Node) (b : OrchestratorShardBlock)
        → Answers
        → n.chain.last_orchestrator_height < height
        → fetch (height + count) ≡ some b
        → (recover_loop new_uuid fetch (suc count) height n).chain.last_orchestrator_height
          ≡ height + count
    unfolding recover_loop
    recover_loop-height zero height n b a h e =
        next_reaches height n b a h (ap fetch (omega arith) ∙ e) ∙ omega arith
    recover_loop-height (suc count) height n b a h e =
        let m = next height n in
        let low = next_height height n a h in
        recover_loop-height count (height + 1) (next height n) b a (omega arith)
          (ap fetch (omega arith) ∙ e)
        ∙ omega arith

    -- If the shard is behind and the orchestrator has its latest block and answers with blocks of
    -- the heights asked for, recovery ends at the latest height, whichever of the blocks before are
    -- missing; and any block up to that height that arrives next is skipped, also one that was
    -- missing.
    pub recover_reaches :
        (latest : ℕ) (n : Node) (b late : OrchestratorShardBlock)
        → Answers
        → n.chain.last_orchestrator_height < latest
        → fetch latest ≡ some b
        → late.height ≤ latest
        → let m = recover new_uuid fetch latest n in
          (m.chain.last_orchestrator_height ≡ latest)
          × (process_orchestrator_block new_uuid m late ≡ m)
    unfolding recover
    recover_reaches latest n b late a h e l =
        let last = n.chain.last_orchestrator_height in
        let count = latest - last - 1 in
        let behind : leb latest last ≡ false = ground arith in
        let steps : latest - last ≡ suc count = omega arith in
        let end : last + 1 + count ≡ latest = omega arith in
        let ends =
          recover_loop-height count (last + 1) n b a (omega arith) (ap fetch end ∙ e) ∙ end in
        rw (recover, behind, steps)
          (
            ends,
            replay_skips (recover_loop new_uuid fetch (suc count) (last + 1) n) late
                (omega (arith, ends)),
          )
