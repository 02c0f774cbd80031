-- ===== src/Orchestrator/Chain.antt =====
-- internal/orchestrator/chain.go: the orchestrator's blocks, and the two-phase commit of the
-- transactions that they carry. The mutex makes each method atomic. Heights are uint64. The hash of
-- a block (SHA-256 of its JSON) is a parameter, and the time of day an argument.
pub mod Consistent
pub mod Votes
pub mod Agreement
pub mod Timeouts
pub mod Blocks
pub mod Waiting
pub mod Runs
mod Tests
use test_v.Prelude.{
  ℕ, ◌+◌, Bool, true, false, not, ◌&&◌, ◌||◌, List, [], ◌∷◌, ◌++◌, map, Option, none, some, leb,
  u64, string_key, if◌then◌else◌,
}
use test_v.Prelude.Int.{ℤ, int_key}
use test_v.Prelude.Lists.{length, get_elem?}
use test_v.Prelude.Maps.{Map, lookup, insert, erase, contains, get_or}
use test_v.Protocol.{BlockHash, TxId, CrossShardTx, OrchestratorShardBlock}
use test_v.Protocol.Copies.{copy_cross}
use test_v.Protocol.Shards.{involved_shards}

pub record OrchestratorChain : Type 0 where
  pub blocks : List OrchestratorShardBlock
  pub height : ℕ
  pub pending_txs : List CrossShardTx
  pub awaiting_votes : Map TxId CrossShardTx
  pub pending_result : Map TxId Bool
  pub votes : Map TxId (Map ℤ Bool)
  pub expected_voters : Map TxId (List ℤ)
  pub vote_start_block : Map TxId ℕ
  pub vote_timeout : ℕ

abbrev pub default_vote_timeout : ℕ
default_vote_timeout = 10

-- `NewOrchestratorChain`
pub new_orchestrator_chain : ℕ → OrchestratorChain
new_orchestrator_chain now = record {
  blocks =
      record { height = 0; prev_hash = 0; timestamp = now; tpc_result = []; ct_to_order = [] } ∷ [];
  height = 0;
  pending_txs = [];
  awaiting_votes = [];
  pending_result = [];
  votes = [];
  expected_voters = [];
  vote_start_block = [];
  vote_timeout = default_vote_timeout;
}

pub set_vote_timeout : OrchestratorChain → ℕ → OrchestratorChain
set_vote_timeout c blocks = record c { vote_timeout = blocks }

pub add_transaction : OrchestratorChain → CrossShardTx → OrchestratorChain
add_transaction c tx = record c { pending_txs = c.pending_txs ++ copy_cross tx ∷ [] }

-- Decide a transaction: file the result and forget the ballot. (The five statements that
-- `RecordVote` has twice and `checkTimeouts` once.)
pub settle : OrchestratorChain → TxId → Bool → OrchestratorChain
settle c tx_id decision = record c {
  pending_result = insert tx_id decision c.pending_result;
  awaiting_votes = erase tx_id c.awaiting_votes;
  votes = erase tx_id c.votes;
  expected_voters = erase tx_id c.expected_voters;
  vote_start_block = erase tx_id c.vote_start_block;
}

-- The loop that verifies that all expected shards voted.
pub all_voted : List ℤ → Map ℤ Bool → Bool
all_voted [] ballot = true
all_voted (s ∷ rest) ballot = contains s ballot && all_voted rest ballot

-- `RecordVote` once the vote is known to be a new one for an awaited transaction.
pub count_vote : OrchestratorChain → TxId → ℤ → Bool → OrchestratorChain
count_vote c tx_id shard_id can_commit =
    let ballot = insert shard_id can_commit (get_or [] tx_id c.votes) in
    let c' : OrchestratorChain = record c { votes = insert tx_id ballot c.votes } in
    let expected = get_or [] tx_id c.expected_voters in
    if not can_commit
    then settle c' tx_id false
    else if leb (length expected) (length ballot) && all_voted expected ballot
    then settle c' tx_id true
    else c'

-- `RecordVote`: the flag tells whether the vote is accepted.
pub record_vote : OrchestratorChain → TxId → ℤ → Bool → OrchestratorChain × Bool
record_vote c tx_id shard_id can_commit =
    if not (contains tx_id c.awaiting_votes)
    then (c, false)
    else if contains shard_id (get_or [] tx_id c.votes)
    then (c, false)
    else (count_vote c tx_id shard_id can_commit, true)

-- Has the transaction waited for its timeout? (No start block: skipped.)
pub overdue : OrchestratorChain → TxId → Bool
overdue c tx_id = elim (lookup tx_id c.vote_start_block) [
  | none ↦ false
  | some start ↦ leb (u64 (start + c.vote_timeout)) c.height
]

-- The first loop of `checkTimeouts`, over the awaited transactions.
pub timed_out : OrchestratorChain → Map TxId CrossShardTx → List TxId
timed_out c [] = []
timed_out c ((tx_id, tx) ∷ rest) =
    let later = timed_out c rest in if overdue c tx_id then tx_id ∷ later else later

-- The second loop: abort each of them.
pub abort_all : OrchestratorChain → List TxId → OrchestratorChain
abort_all c [] = c
abort_all c (tx_id ∷ rest) = abort_all (settle c tx_id false) rest

pub check_timeouts : OrchestratorChain → OrchestratorChain × List TxId
check_timeouts c = let ids = timed_out c c.awaiting_votes in (abort_all c ids, ids)

-- `GetAwaitingTx`
pub get_awaiting_tx : OrchestratorChain → TxId → Option CrossShardTx
get_awaiting_tx c tx_id = elim (lookup tx_id c.awaiting_votes) [
  | none ↦ none
  | some tx ↦ some (copy_cross tx)
]

-- One round of the loop of `ProduceBlock` that moves the pending transactions to the awaited ones,
-- and the loop.
abbrev pub await_vote : ℕ → OrchestratorChain → CrossShardTx → OrchestratorChain
await_vote new_height c tx = record c {
  awaiting_votes = insert tx.id (copy_cross tx) c.awaiting_votes;
  expected_voters = insert tx.id (involved_shards tx) c.expected_voters;
  vote_start_block = insert tx.id new_height c.vote_start_block;
}

pub await_votes : ℕ → OrchestratorChain → List CrossShardTx → OrchestratorChain
await_votes new_height c [] = c
await_votes new_height c (tx ∷ rest) = await_votes new_height (await_vote new_height c tx) rest

module _ (block_hash : OrchestratorShardBlock → BlockHash) where
  pub next_block : ℕ → OrchestratorChain → OrchestratorShardBlock → OrchestratorShardBlock
  next_block now c last = record {
    height = u64 (c.height + 1);
    prev_hash = block_hash last;
    timestamp = now;
    tpc_result = c.pending_result;
    ct_to_order = map copy_cross c.pending_txs;
  }

  -- `ProduceBlock` after the timeouts. `none` is a panic: `c.blocks[c.height]` out of range.
  pub seal_block : ℕ → OrchestratorChain → Option (OrchestratorShardBlock × OrchestratorChain)
  unfolding next_block
  seal_block now c = elim (get_elem? c.blocks c.height) [
    | none ↦ none
    | some last ↦
        let block = next_block now c last in
        let c' = await_votes (u64 (c.height + 1)) c c.pending_txs in
        some (
          block,
          record c' {
            blocks = c.blocks ++ block ∷ [];
            height = u64 (c.height + 1);
            pending_txs = [];
            pending_result = [];
          },
        )
  ]

  -- `ProduceBlock`
  pub produce_block : ℕ → OrchestratorChain → Option (OrchestratorShardBlock × OrchestratorChain)
  produce_block now c = seal_block now (check_timeouts c).0

-- `GetBlock`
pub get_block : OrchestratorChain → ℕ → Option OrchestratorShardBlock
get_block c height =
    if not (leb height c.height) || leb (length c.blocks) height
    then none
    else get_elem? c.blocks height
