-- ===== src/Orchestrator/Chain/Consistent.antt =====
-- The invariant of the orchestrator's five maps, and that each operation on them keeps it.
use test_v.Prelude.{
  ℕ, ◌≡◌, Bool, true, false, List, [], ◌∷◌, none, some, arith, string_key, Bool-cases, leb, ◌&&◌,
  inl, inr,
}
use test_v.Prelude.Int.{ℤ, int_key}
use test_v.Prelude.Lists.{length}
use test_v.Prelude.Maps.{
  Map, erase-insert_self, lookup, insert, contains, get_or, lookup-insert, lookup-erase,
  get_or-insert, get_or-erase, lookup-nil,
}
use test_v.Protocol.{TxId, CrossShardTx}
use test_v.Protocol.Copies.{copy_cross, copy_cross-same}
use test_v.Protocol.Shards.{involved_shards}
use test_v.Orchestrator.Chain.{
  OrchestratorChain, settle, count_vote, record_vote, abort_all, all_voted, timed_out,
  check_timeouts, await_votes,
}

pub record IsConsistent (c : OrchestratorChain) : Type 0 where
  -- What is awaited is not decided.
  pub undecided : (t : TxId) → contains t c.awaiting_votes ≡ true → lookup t c.pending_result ≡ none
  -- An awaited transaction expects the votes of the shards that it involves,
  pub voters :
      (t : TxId) (tx : CrossShardTx)
      → lookup t c.awaiting_votes ≡ some tx
      → lookup t c.expected_voters ≡ some (involved_shards tx)
  -- and has a start block.
  pub started :
      (t : TxId) → contains t c.awaiting_votes ≡ true → contains t c.vote_start_block ≡ true
  -- Votes are kept for awaited transactions only, and none of them is NO.
  pub tallied : (t : TxId) → contains t c.votes ≡ true → contains t c.awaiting_votes ≡ true
  pub unanimous : (t : TxId) (s : ℤ) (b : Bool) → lookup s (get_or [] t c.votes) ≡ some b → b ≡ true

pub settle-IsConsistent :
    (c : OrchestratorChain) (k : TxId) (d : Bool) → IsConsistent c → IsConsistent (settle c k d)
unfolding settle
settle-IsConsistent c k d v = record {
  undecided = λ t. ground (
    arith,
    lookup-erase k t c.awaiting_votes,
    lookup-insert k t d c.pending_result,
    v.undecided t,
  );
  voters = λ t tx.
      ground (
        arith,
        lookup-erase k t c.awaiting_votes,
        lookup-erase k t c.expected_voters,
        v.voters t tx,
      );
  started = λ t.
      ground (
        arith,
        lookup-erase k t c.awaiting_votes,
        lookup-erase k t c.vote_start_block,
        v.started t,
      );
  tallied =
      λ t. ground (arith, lookup-erase k t c.awaiting_votes, lookup-erase k t c.votes, v.tallied t);
  unanimous = λ t s b.
      ground (arith, get_or-erase [] k t c.votes, lookup-nil {V = Bool} s, v.unanimous t s b);
}

-- A YES vote is filed.
yes-IsConsistent :
    (c : OrchestratorChain) (k : TxId) (s : ℤ)
    → contains k c.awaiting_votes ≡ true
    → IsConsistent c
    → IsConsistent (record c { votes = insert k (insert s true (get_or [] k c.votes)) c.votes })
yes-IsConsistent c k s w v =
    let ballot = insert s true (get_or [] k c.votes) in
    record {
      undecided = v.undecided;
      voters = v.voters;
      started = v.started;
      tallied = λ t.
          ground (arith, lookup-insert k t ballot c.votes, string_key.same_iff k t, v.tallied t);
      unanimous = λ t r b. ground (
        arith,
        get_or-insert [] k t ballot c.votes,
        lookup-insert s r true (get_or [] k c.votes),
        string_key.same_iff k t,
        v.unanimous t r b,
      );
    }

-- A vote that settles its transaction leaves no trace of itself.
pub settle_filed :
    (c : OrchestratorChain) (k : TxId) (ballot : Map ℤ Bool) (d : Bool)
    → settle (record c { votes = insert k ballot c.votes }) k d ≡ settle c k d
unfolding settle
settle_filed c k ballot d = rw (erase-insert_self k ballot c.votes)

count_vote-IsConsistent :
    (c : OrchestratorChain) (k : TxId) (s : ℤ) (b : Bool)
    → contains k c.awaiting_votes ≡ true
    → IsConsistent c
    → IsConsistent (count_vote c k s b)
unfolding count_vote
count_vote-IsConsistent c k s false w v = rw settle_filed (settle-IsConsistent c k false v)
count_vote-IsConsistent c k s true w v =
    let ballot = insert s true (get_or [] k c.votes) in
    let expected = get_or [] k c.expected_voters in
    elim (Bool-cases (leb (length expected) (length ballot) && all_voted expected ballot)) [
      | inl e ↦ rw (e, settle_filed) (settle-IsConsistent c k true v)
      | inr e ↦ rw e (yes-IsConsistent c k s w v)
    ]

-- A vote keeps the invariant, accepted or not.
pub record_vote-IsConsistent :
    (c : OrchestratorChain) (k : TxId) (s : ℤ) (b : Bool)
    → IsConsistent c
    → IsConsistent (record_vote c k s b).0
unfolding record_vote
record_vote-IsConsistent c k s b v = elim (Bool-cases (contains k c.awaiting_votes)) [
  | inl w ↦ elim (Bool-cases (contains s (get_or [] k c.votes))) [
    | inl again ↦ rw (w, again) v
    | inr new ↦ rw (w, new) (count_vote-IsConsistent c k s b w v)
  ]
  | inr unknown ↦ rw unknown v
]

abort_all-IsConsistent :
    (ids : List TxId) (c : OrchestratorChain) → IsConsistent c → IsConsistent (abort_all c ids)
unfolding abort_all
abort_all-IsConsistent [] c v = v
abort_all-IsConsistent (k ∷ ids) c v =
    abort_all-IsConsistent ids (settle c k false) (settle-IsConsistent c k false v)

pub check_timeouts-IsConsistent :
    (c : OrchestratorChain) → IsConsistent c → IsConsistent (check_timeouts c).0
unfolding check_timeouts
check_timeouts-IsConsistent c v = abort_all-IsConsistent (timed_out c c.awaiting_votes) c v

-- Once the results are out, a pending transaction starts to wait.
pub await_votes-IsConsistent :
    (h : ℕ) (txs : List CrossShardTx) (c : OrchestratorChain)
    → c.pending_result ≡ []
    → IsConsistent c
    → IsConsistent (await_votes h c txs)
unfolding await_votes
await_votes-IsConsistent h [] c e v = v
await_votes-IsConsistent h (tx ∷ txs) c e v = await_votes-IsConsistent h txs _ e (record {
  undecided = λ t w. rw (e, lookup-nil);
  voters = λ t x. ground (
    arith,
    lookup-insert tx.id t (copy_cross tx) c.awaiting_votes,
    lookup-insert tx.id t (involved_shards tx) c.expected_voters,
    copy_cross-same tx,
    v.voters t x,
  );
  started = λ t. ground (
    arith,
    lookup-insert tx.id t (copy_cross tx) c.awaiting_votes,
    lookup-insert tx.id t h c.vote_start_block,
    v.started t,
  );
  tallied =
      λ t. ground (arith, lookup-insert tx.id t (copy_cross tx) c.awaiting_votes, v.tallied t);
  unanimous = v.unanimous;
})
