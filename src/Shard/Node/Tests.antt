-- ===== src/Shard/Node/Tests.antt =====
-- A shard that decides t1, and one that recovers while block 1 cannot be fetched.
use test_v.Prelude.{
  ℕ, ◌≤◌, ◌≡◌, refl, Bool, true, false, [], ◌∷◌, Option, none, some, String, arith, nat_key,
  string_key, ◌==◌, if◌then◌else◌,
}
use test_v.Prelude.Int.{pos}
use test_v.Protocol.{OrchestratorShardBlock}
use test_v.Shard.Chain.{new_chain, is_commit_processed}
use test_v.Shard.Node.{Node, process_result, process_orchestrator_block, recover}
use test_v.Shard.Node.Results.{Decided, process_result_once}
use test_v.Shard.Node.Replay.{Answers, process_orchestrator_block_once, recover_reaches}

abbrev id : ℕ → String
id n = "uuid"

abbrev node : Node
node = record { chain = new_chain (pos 0) 7; drawn = 0 }

process_result_once_example :
    (is_commit_processed node.chain "t1" ≡ false
      → Decided id "t1" true node (process_result id node "t1" true))
    × ((later : Bool)
        → process_result id (process_result id node "t1" true) "t1" later
          ≡ process_result id node "t1" true)
process_result_once_example = process_result_once id node "t1" true

abbrev at : ℕ → OrchestratorShardBlock
at h = record {
  height = h;
  prev_hash = 0;
  timestamp = 0;
  tpc_result = ("t1", true) ∷ [];
  ct_to_order = [];
}

process_orchestrator_block_once_example :
    let m = process_orchestrator_block id node (at 2) in
    (2 ≤ m.chain.last_orchestrator_height)
    × (node.chain.last_orchestrator_height ≤ m.chain.last_orchestrator_height)
    × (process_orchestrator_block id m (at 1) ≡ m)
process_orchestrator_block_once_example =
    process_orchestrator_block_once id node (at 2) (at 1) (omega arith)

abbrev fetch : ℕ → Option OrchestratorShardBlock
fetch h = if h == 1 then none else some (at h)

fetch-Answers : Answers id fetch
fetch-Answers h block e = ground arith

recover_reaches_example :
    let m = recover id fetch 2 node in
    (m.chain.last_orchestrator_height ≡ 2) × (process_orchestrator_block id m (at 1) ≡ m)
unfolding new_chain
recover_reaches_example =
    recover_reaches id fetch 2 node (at 2) (at 1) fetch-Answers (omega arith) refl (omega arith)
