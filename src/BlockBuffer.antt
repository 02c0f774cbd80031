-- ===== src/BlockBuffer.antt =====
-- internal/shard/block_buffer.go: orchestrator blocks that arrive ahead of sequence wait here until
-- the gap before them is filled. Heights are uint64 and wrap; the mutex makes each call atomic.
pub mod Order
pub mod Delivery
mod Tests
use test_v.Prelude.{
  ℕ, zero, suc, ◌+◌, List, [], ◌∷◌, ◌++◌, map, Option, none, some, ltb, u64, nat_key, ◌==◌,
  if◌then◌else◌,
}
use test_v.Prelude.Int.{ℤ, pos, leb_ℤ}
use test_v.Prelude.Lists.{length}
use test_v.Prelude.Maps.{Map, lookup, insert, erase, contains}
use test_v.Protocol.{OrchestratorShardBlock}

pub record BlockBuffer : Type 0 where
  pub expected : ℕ
  pub buffered : Map ℕ OrchestratorShardBlock
  pub max_buffer : ℤ
  pub shard_id : ℤ

-- `NewBlockBuffer`
pub new_block_buffer : ℤ → ℕ → ℤ → BlockBuffer
new_block_buffer shard_id start_height max_buffer = record {
  expected = start_height;
  buffered = [];
  max_buffer = max_buffer;
  shard_id = shard_id;
}

-- The loop that releases buffered successors. Each round deletes an entry, so one round more than
-- there are entries is enough.
pub drain : ℕ → BlockBuffer → BlockBuffer × List OrchestratorShardBlock
drain zero b = (b, [])
drain (suc fuel) b = elim (lookup b.expected b.buffered) [
  | none ↦ (b, [])
  | some next ↦
      let (b', rest) =
        drain fuel
          (record b { expected = u64 (b.expected + 1); buffered = erase b.expected b.buffered }) in
      (b', next ∷ rest)
]

-- The branch for a block that is next in sequence.
release : BlockBuffer → OrchestratorShardBlock → BlockBuffer × List OrchestratorShardBlock
unfolding drain
release b block =
    let (b', rest) =
      drain (suc (length b.buffered)) (record b { expected = u64 (b.expected + 1) }) in
    (b', block ∷ rest)

-- The branch for a block that arrived ahead of its turn: the buffer after it.
store : BlockBuffer → OrchestratorShardBlock → BlockBuffer
store b block =
    if leb_ℤ b.max_buffer (pos (length b.buffered))
    then b
    else if contains block.height b.buffered
    then b
    else record b { buffered = insert block.height block b.buffered }

-- `ProcessBlock`: the blocks that are ready, in order, or nil.
pub process_block :
    BlockBuffer → OrchestratorShardBlock → BlockBuffer × Option (List OrchestratorShardBlock)
unfolding release store
process_block b block =
    if block.height == b.expected
    then (let (b', ready) = release b block in (b', some ready))
    else if ltb b.expected block.height
    then (store b block, none)
    else (b, none)

-- `GetExpected`, `GetBufferedCount`, `SetExpected`, `GetBufferedHeights`
pub get_expected : BlockBuffer → ℕ
get_expected b = b.expected

pub get_buffered_count : BlockBuffer → ℕ
get_buffered_count b = length b.buffered

pub set_expected : BlockBuffer → ℕ → BlockBuffer
set_expected b height = record b { expected = height }

pub get_buffered_heights : BlockBuffer → List ℕ
get_buffered_heights b = map (λ e. e.0) b.buffered

-- What a caller sees released: nil releases nothing.
abbrev pub released : Option (List OrchestratorShardBlock) → List OrchestratorShardBlock
released none = []
released (some bs) = bs

-- Blocks arrive one after another; the list is all that is released, in order.
pub process_all :
    BlockBuffer → List OrchestratorShardBlock → BlockBuffer × List OrchestratorShardBlock
process_all b [] = (b, [])
process_all b (block ∷ rest) =
    let (b', out) = process_block b block in
    let (b'', outs) = process_all b' rest in (b'', released out ++ outs)
