-- ===== src/Orchestrator/Chain/Tests.antt =====
-- The orchestrator's chain on concrete inputs: a transaction of shards 0 and 1, on which shard 1 has
-- voted YES.
use test_v.Prelude.{
  ℕ, ◌+◌, ◌≡◌, refl, ◌↔◌, ◌⊎◌, Bool, true, List, [], ◌∷◌, ◌++◌, some, arith, string_key, ◌≤◌,
  if◌then◌else◌,
}
use test_v.Prelude.Int.{ℤ, pos, int_key}
use test_v.Prelude.Lists.{In, get_elem?}
use test_v.Prelude.Maps.{lookup, insert, erase, contains}
use test_v.Protocol.{
  BlockHash, RwVariable, CrossShardTx, TxStatus, SimulationStatus, OrchestratorShardBlock,
}
use test_v.Protocol.Shards.{involved_shards}
use test_v.Orchestrator.Chain.{
  OrchestratorChain, settle, all_voted, count_vote, record_vote, overdue, timed_out, abort_all,
  check_timeouts, await_votes, next_block, seal_block, produce_block, new_orchestrator_chain,
}
use test_v.Orchestrator.Chain.Consistent.{IsConsistent}
use test_v.Orchestrator.Chain.Votes.{ballot, with_yes, record_vote_yes, record_vote_commit}
use test_v.Orchestrator.Chain.Agreement.{vote_yes_all, all_yes_commit}
use test_v.Orchestrator.Chain.Timeouts.{Same, Aborted, check_timeouts_lem}
use test_v.Orchestrator.Chain.Blocks.{IsLong, produce_block_lem}
use test_v.Orchestrator.Chain.Waiting.{IsPast, produce_block_waiting}
use test_v.Orchestrator.Chain.Runs.{Call, adds, votes, produces, run, IsSound, run_new-IsSound}

abbrev slot_in_1 : RwVariable
slot_in_1 = record {
  address = 257;
  reference_block = record { shard_num = pos 1; block_hash = 0; block_height = 0 };
  read_set = [];
  write_set = [];
}

abbrev transfer_1 : CrossShardTx
transfer_1 = record {
  id = "t1";
  tx_hash = 0;
  from_shard = pos 0;
  from = 256;
  to = 257;
  value = some (pos 5);
  gas = 21000;
  payload = [];
  rw_set = slot_in_1 ∷ [];
  status = TxStatus.pending;
  sim_status = SimulationStatus.success;
  sim_error = "";
}

abbrev genesis : OrchestratorShardBlock
genesis = record { height = 0; prev_hash = 0; timestamp = 7; tpc_result = []; ct_to_order = [] }

abbrev first_block : OrchestratorShardBlock
first_block = record {
  height = 1;
  prev_hash = 0;
  timestamp = 8;
  tpc_result = [];
  ct_to_order = transfer_1 ∷ [];
}

-- The chain after block 1, with a ballot,
abbrev polled : List (ℤ × Bool) → OrchestratorChain
polled cast = record {
  blocks = genesis ∷ first_block ∷ [];
  height = 1;
  pending_txs = [];
  awaiting_votes = ("t1", transfer_1) ∷ [];
  pending_result = [];
  votes = ("t1", cast) ∷ [];
  expected_voters = ("t1", involved_shards transfer_1) ∷ [];
  vote_start_block = ("t1", 1) ∷ [];
  vote_timeout = 10;
}

abbrev half : OrchestratorChain
half = polled ((pos 1, true) ∷ [])

-- and before any vote.
abbrev waiting : OrchestratorChain
waiting = record half { votes = [] }

half-IsConsistent : IsConsistent half
unfolding lookup
half-IsConsistent = record {
  undecided = λ t h. refl;
  voters = λ t tx h. ground arith;
  started = λ t h. ground arith;
  tallied = λ t h. ground arith;
  unanimous = λ t s b h. ground arith;
}

waiting-IsConsistent : IsConsistent waiting
unfolding lookup
waiting-IsConsistent = record {
  undecided = λ t h. refl;
  voters = λ t tx h. ground arith;
  started = λ t h. ground arith;
  tallied = λ t h. ground arith;
  unanimous = λ t s b h. ground arith;
}

half-IsPast : IsPast half
unfolding lookup
half-IsPast t start h = ground arith

record_vote_commit_example :
    (true ≡ true)
    × ((tx : CrossShardTx) × (lookup "t1" half.awaiting_votes ≡ some tx)
        × ((r : ℤ)
            → In r (involved_shards tx)
            → (r ≡ pos 0) ⊎ (lookup r (ballot half "t1") ≡ some true)))
unfolding lookup insert erase record_vote count_vote settle all_voted involved_shards
record_vote_commit_example =
    record_vote_commit half "t1" (pos 0) true half-IsConsistent (λ e. cc) refl

record_vote_yes_example : record_vote half "t1" (pos 0) true ≡ (
  (if all_voted (involved_shards transfer_1) (with_yes half "t1" (pos 0))
      then settle half "t1" true
      else record half { votes = insert "t1" (with_yes half "t1" (pos 0)) half.votes }),
  true,
)
unfolding lookup
record_vote_yes_example = record_vote_yes half "t1" (pos 0) transfer_1 half-IsConsistent refl refl

all_voters : (r : ℤ) → In r (involved_shards transfer_1) → In r (pos 1 ∷ pos 0 ∷ [])
unfolding involved_shards
all_voters r i = ground arith

all_yes_commit_example :
    lookup "t1" (vote_yes_all waiting "t1" (pos 1 ∷ pos 0 ∷ [])).pending_result ≡ some true
unfolding lookup
all_yes_commit_example =
    all_yes_commit waiting "t1" transfer_1 (pos 1 ∷ pos 0 ∷ []) waiting-IsConsistent refl refl
      all_voters

abbrev late : OrchestratorChain
late = record half { height = 12 }

check_timeouts_example :
    let (c', ids) = check_timeouts late in
    (In "t1" ids ↔ ((contains "t1" late.awaiting_votes ≡ true) × (overdue late "t1" ≡ true)))
    × (In "t1" ids → Aborted "t1" c')
    × (¬ In "t1" ids → Same "t1" late c')
check_timeouts_example = check_timeouts_lem late "t1"

-- A block's hash, for the examples.
abbrev hash_of : OrchestratorShardBlock → BlockHash
hash_of b = b.height + b.timestamp

produce_block_example :
    (last block : OrchestratorShardBlock) × (c' : OrchestratorChain) × (get_elem? half.blocks
        half.height
      ≡ some last)
    × (produce_block hash_of 9 half ≡ some (block, c'))
    × (block.height ≡ half.height + 1)
    × (block.prev_hash ≡ hash_of last)
    × (block.tpc_result ≡ (check_timeouts half).0.pending_result)
    × (block.ct_to_order ≡ half.pending_txs)
    × (c'.blocks ≡ half.blocks ++ block ∷ [])
    × (c'.height ≡ half.height + 1)
    × (c'.pending_txs ≡ [])
    × (c'.pending_result ≡ [])
    × IsLong c'
produce_block_example = produce_block_lem hash_of 9 half refl (omega arith)

second_block : OrchestratorShardBlock
second_block = record {
  height = 2;
  prev_hash = 9;
  timestamp = 9;
  tpc_result = [];
  ct_to_order = [];
}

abbrev after_second : OrchestratorChain
unfolding second_block
after_second = record half { blocks = genesis ∷ first_block ∷ second_block ∷ []; height = 2 }

produce_block_waiting_example :
    (start : ℕ) × (lookup "t1" after_second.vote_start_block ≡ some start)
    × (after_second.height ≤ start + after_second.vote_timeout)
unfolding lookup second_block produce_block seal_block next_block check_timeouts timed_out abort_all
    overdue await_votes
produce_block_waiting_example =
    produce_block_waiting hash_of 9 half after_second second_block "t1" refl half-IsConsistent
      half-IsPast (omega arith) refl refl

abbrev calls : List Call
calls =
    adds transfer_1
    ∷ produces 8
    ∷ votes "t1" (pos 0) true
    ∷ votes "t1" (pos 1) true
    ∷ produces 9
    ∷ []

run_new-IsSound_example :
    (c : OrchestratorChain) × (run hash_of (new_orchestrator_chain 7) calls ≡ some c)
    × IsSound hash_of c
run_new-IsSound_example = run_new-IsSound hash_of 7 calls (omega arith)
