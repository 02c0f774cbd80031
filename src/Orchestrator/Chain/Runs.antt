-- ===== src/Orchestrator/Chain/Runs.antt =====
-- The orchestrator's chain under any sequence of calls.
use test_v.Prelude.{
  ℕ, zero, suc, ◌+◌, ◌≤◌, ◌<◌, ◌≡◌, refl, ap, Bool, List, [], ◌∷◌, Option, none, some, arith,
  string_key, u64, false, true,
}
use test_v.Prelude.Int.{ℤ, int_key}
use test_v.Prelude.Lists.{length, get_elem?}
use test_v.Prelude.Maps.{lookup, insert, get_or, lookup-erase}
use test_v.Protocol.{BlockHash, TxId, CrossShardTx, OrchestratorShardBlock}
use test_v.Orchestrator.Chain.{
  OrchestratorChain, new_orchestrator_chain, set_vote_timeout, add_transaction, settle, count_vote,
  record_vote, abort_all, timed_out, check_timeouts, next_block, produce_block,
}
use test_v.Orchestrator.Chain.Consistent.{
  IsConsistent, record_vote-IsConsistent, check_timeouts-IsConsistent, settle_filed,
}
use test_v.Orchestrator.Chain.Blocks.{
  IsLong, IsLinked, sealed, produce_block_lem, produce_block_total, produce_block-IsLinked,
  produce_block-IsConsistent,
}
use test_v.Orchestrator.Chain.Timeouts.{check_timeouts_frame}
use test_v.Orchestrator.Chain.Waiting.{IsPast, await_votes_start}

-- The calls that change the chain.
pub data Call : Type 0 where
  adds : CrossShardTx → Call
  votes : TxId → ℤ → Bool → Call
  checks : Call
  produces : ℕ → Call
  sets_timeout : ℕ → Call

abbrev after_block : Option (OrchestratorShardBlock × OrchestratorChain) → Option OrchestratorChain
after_block none = none
after_block (some (_, c)) = some c

settle-IsPast : (c : OrchestratorChain) (k : TxId) (d : Bool) → IsPast c → IsPast (settle c k d)
unfolding settle
settle-IsPast c k d past t start = ground (arith, lookup-erase k t c.vote_start_block, past t start)

count_vote-IsPast :
    (c : OrchestratorChain) (k : TxId) (s : ℤ) (b : Bool) → IsPast c → IsPast (count_vote c k s b)
unfolding count_vote
count_vote-IsPast c k s b past t start =
    let ballot = insert s b (get_or [] k c.votes) in
    ground (
      arith,
      settle_filed c k ballot false,
      settle_filed c k ballot true,
      settle-IsPast c k false past t start,
      settle-IsPast c k true past t start,
      past t start,
    )

abort_all-IsPast : (ids : List TxId) (c : OrchestratorChain) → IsPast c → IsPast (abort_all c ids)
unfolding abort_all
abort_all-IsPast [] c past = past
abort_all-IsPast (k ∷ ids) c past =
    abort_all-IsPast ids (settle c k false) (settle-IsPast c k false past)

check_timeouts-IsPast : (c : OrchestratorChain) → IsPast c → IsPast (check_timeouts c).0
unfolding check_timeouts
check_timeouts-IsPast c past = abort_all-IsPast (timed_out c c.awaiting_votes) c past

record_vote_frame :
    (c : OrchestratorChain) (k : TxId) (s : ℤ) (b : Bool)
    → ((record_vote c k s b).0.height ≡ c.height) × ((record_vote c k s b).0.blocks ≡ c.blocks)
unfolding record_vote count_vote settle
record_vote_frame c k s b = ground arith

record_vote-IsPast :
    (c : OrchestratorChain) (k : TxId) (s : ℤ) (b : Bool)
    → IsPast c
    → IsPast (record_vote c k s b).0
unfolding record_vote
record_vote-IsPast c k s b past t start =
    ground (arith, count_vote-IsPast c k s b past t start, past t start)

module _ (block_hash : OrchestratorShardBlock → BlockHash) where
  -- `none` is a panic.
  pub step : OrchestratorChain → Call → Option OrchestratorChain
  step c (adds tx) = some (add_transaction c tx)
  step c (votes t s b) = some (record_vote c t s b).0
  step c checks = some (check_timeouts c).0
  step c (produces now) = after_block (produce_block block_hash now c)
  step c (sets_timeout n) = some (set_vote_timeout c n)

  pub run : OrchestratorChain → List Call → Option OrchestratorChain
  run c [] = some c
  run c (call ∷ rest) = elim (step c call) [ none ↦ none | some c' ↦ run c' rest ]

  pub record IsSound (c : OrchestratorChain) : Type 0 where
    pub consistent : IsConsistent c
    pub long : IsLong c
    pub linked : IsLinked block_hash c
    pub past : IsPast c

  same_blocks-IsLinked :
      (c c' : OrchestratorChain)
      → c'.blocks ≡ c.blocks
      → IsLinked block_hash c
      → IsLinked block_hash c'
  same_blocks-IsLinked c c' e v = record {
    numbered = λ i b q. v.numbered i b (rw (← e) q);
    linked = λ i a b qa qb. v.linked i a b (rw (← e) qa) (rw (← e) qb);
  }

  produce_block-IsPast :
      (now : ℕ) (c c' : OrchestratorChain) (block : OrchestratorShardBlock)
      → IsLong c
      → c.height < 18446744073709551615
      → IsPast c
      → produce_block block_hash now c ≡ some (block, c')
      → IsPast c'
  produce_block-IsPast now c c' block long room past e t start q =
      let (last, _, e₁) = produce_block_total block_hash now c long in
      let c₁ = (check_timeouts c).0 in
      let same : c' ≡ sealed c₁ (next_block block_hash now c₁ last) = cc in
      let (h, _, _, _) = check_timeouts_frame c in
      let (starts, _) = await_votes_start (u64 (c₁.height + 1)) c₁.pending_txs c₁ t in
      rw same (
        ground (
          arith,
          starts,
          check_timeouts-IsPast c past t start,
          ap (λ (x : OrchestratorChain). lookup t x.vote_start_block) same,
        ))

  step-IsSound :
      (c : OrchestratorChain) (call : Call)
      → IsSound c
      → c.height < 18446744073709551615
      → (c' : OrchestratorChain) × (step c call ≡ some c') × IsSound c' × (c'.height ≤ c.height + 1)
  unfolding step add_transaction set_vote_timeout
  step-IsSound c (adds tx) v room = (
    add_transaction c tx,
    refl,
    record {
      consistent = record {
        undecided = v.consistent.undecided;
        voters = v.consistent.voters;
        started = v.consistent.started;
        tallied = v.consistent.tallied;
        unanimous = v.consistent.unanimous;
      };
      long = v.long;
      linked = same_blocks-IsLinked c _ refl v.linked;
      past = v.past;
    },
    omega arith,
  )
  step-IsSound c (votes t s b) v room =
      let (h, bs) = record_vote_frame c t s b in
      (
        (record_vote c t s b).0,
        refl,
        record {
          consistent = record_vote-IsConsistent c t s b v.consistent;
          long = ground (arith, v.long);
          linked = same_blocks-IsLinked c _ bs v.linked;
          past = record_vote-IsPast c t s b v.past;
        },
        omega arith,
      )
  step-IsSound c checks v room =
      let (h, bs, _, _) = check_timeouts_frame c in
      (
        (check_timeouts c).0,
        refl,
        record {
          consistent = check_timeouts-IsConsistent c v.consistent;
          long = ground (arith, v.long);
          linked = same_blocks-IsLinked c _ bs v.linked;
          past = check_timeouts-IsPast c v.past;
        },
        omega arith,
      )
  step-IsSound c (produces now) v room =
      let (_, block, c', _, e, _, _, _, _, _, _, _, _, _) =
        produce_block_lem block_hash now c v.long room in
      let (linked, long, h) =
        produce_block-IsLinked block_hash now c c' block v.long room v.linked e in
      (
        c',
        rw e,
        record {
          consistent = produce_block-IsConsistent block_hash now c c' block v.long v.consistent e;
          long = long;
          linked = linked;
          past = produce_block-IsPast now c c' block v.long room v.past e;
        },
        omega arith,
      )
  step-IsSound c (sets_timeout n) v room = (
    set_vote_timeout c n,
    refl,
    record {
      consistent = record {
        undecided = v.consistent.undecided;
        voters = v.consistent.voters;
        started = v.consistent.started;
        tallied = v.consistent.tallied;
        unanimous = v.consistent.unanimous;
      };
      long = v.long;
      linked = same_blocks-IsLinked c _ refl v.linked;
      past = v.past;
    },
    omega arith,
  )

  run-IsSound :
      (calls : List Call) (c : OrchestratorChain)
      → IsSound c
      → c.height + length calls ≤ 18446744073709551615
      → (c' : OrchestratorChain) × (run c calls ≡ some c') × IsSound c'
  unfolding run
  run-IsSound [] c v room = (c, refl, v)
  run-IsSound (call ∷ calls) c v room =
      let (c', e, v', h) = step-IsSound c call v (omega arith) in
      let (c'', e', v'') = run-IsSound calls c' v' (omega arith) in (c'', rw (e, run) e', v'')

  new_chain-IsSound : (now : ℕ) → IsSound (new_orchestrator_chain now)
  unfolding new_orchestrator_chain lookup
  new_chain-IsSound now = record {
    consistent = record {
      undecided = λ t w. cc;
      voters = λ t tx w. cc;
      started = λ t w. cc;
      tallied = λ t w. cc;
      unanimous = λ t s b w. cc;
    };
    long = refl;
    linked = record { numbered = numbered; linked = λ i a b p q. cc };
    past = λ t start w. cc;
  }
    where
      numbered :
          (i : ℕ) (b : OrchestratorShardBlock)
          → get_elem? (new_orchestrator_chain now).blocks i ≡ some b
          → b.height ≡ i
      numbered zero b e = ground arith
      numbered (suc i) b e = cc

  -- Whatever is called on a new chain, in whatever order, no call panics, and the chain stays
  -- sound: its blocks are numbered from 0 and linked by their hashes, awaited transactions are
  -- undecided, expect the votes of exactly the shards they involve and have only YES votes, and
  -- none of them started to wait above the current height. The calls are fewer than 2 ^ 64.
  pub run_new-IsSound :
      (now : ℕ) (calls : List Call)
      → length calls ≤ 18446744073709551615
      → (c : OrchestratorChain) × (run (new_orchestrator_chain now) calls ≡ some c) × IsSound c
  unfolding new_orchestrator_chain
  run_new-IsSound now calls room =
      run-IsSound calls (new_orchestrator_chain now) (new_chain-IsSound now) (omega arith)
