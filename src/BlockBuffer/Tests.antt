-- ===== src/BlockBuffer/Tests.antt =====
-- The buffer on a shuffled delivery: blocks 3, 1, 3 and 2 arrive at a buffer that expects block 1.
use test_v.Prelude.{ℕ, ◌+◌, ◌≤◌, ◌<◌, ◌≡◌, List, [], ◌∷◌, arith, nat_key}
use test_v.Prelude.Int.{pos}
use test_v.Prelude.Lists.{In}
use test_v.Prelude.Maps.{lookup}
use test_v.Protocol.{OrchestratorShardBlock}
use test_v.BlockBuffer.{BlockBuffer, new_block_buffer, process_block, process_all}
use test_v.BlockBuffer.Order.{
  Consecutive, IsFiled, IsBounded, process_block-IsBounded, process_all-Consecutive,
}
use test_v.BlockBuffer.Delivery.{heights, process_all_complete}

abbrev at : ℕ → OrchestratorShardBlock
at h = record { height = h; prev_hash = 0; timestamp = 0; tpc_result = []; ct_to_order = [] }

abbrev shuffled : List OrchestratorShardBlock
shuffled = at 3 ∷ at 1 ∷ at 3 ∷ at 2 ∷ []

abbrev buffer : BlockBuffer
buffer = record { expected = 1; buffered = []; max_buffer = pos 4; shard_id = pos 0 }

abbrev full : BlockBuffer
full = record { expected = 1; buffered = (3, at 3) ∷ []; max_buffer = pos 1; shard_id = pos 0 }

buffer-IsFiled : IsFiled buffer
unfolding lookup
buffer-IsFiled h block e = cc

process_all-Consecutive_example :
    let (b', out) = process_all buffer shuffled in Consecutive 1 b'.expected out
process_all-Consecutive_example = process_all-Consecutive buffer shuffled buffer-IsFiled

process_block-IsBounded_example :
    IsBounded (process_block full (at 2)).0 × ((process_block full (at 2)).0.max_buffer ≡ pos 1)
process_block-IsBounded_example = process_block-IsBounded full (at 2) (omega arith)

all_arrive : (h : ℕ) → 1 ≤ h → h < 1 + 3 → In h (heights shuffled)
all_arrive h low high = ground arith

process_all_complete_example :
    let (b', out) = process_all (new_block_buffer (pos 0) 1 (pos 4)) shuffled in
    ((h : ℕ) → 1 ≤ h → h < 1 + 3 → In h (heights out)) × (1 + 3 ≤ b'.expected)
process_all_complete_example =
    process_all_complete (pos 0) 1 3 (pos 4) shuffled (omega arith)
      (omega arith, (omega arith, (omega arith, (omega arith, tt)))) (omega arith) all_arrive
