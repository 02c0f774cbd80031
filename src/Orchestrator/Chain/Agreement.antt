-- ===== src/Orchestrator/Chain/Agreement.antt =====
-- Progress of the two-phase commit: the YES votes of all involved shards, in any order and with
-- repetitions, bring about the commit.
use test_v.Prelude.{
  ◌≡◌, refl, ◌⊎◌, inl, inr, Bool, true, false, List, [], ◌∷◌, none, some, arith, string_key,
  Bool-cases,
}
use test_v.Prelude.Int.{ℤ, int_key}
use test_v.Prelude.Lists.{In}
use test_v.Prelude.Maps.{lookup, insert, contains, lookup-insert, get_or-insert, lookup-nil}
use test_v.Protocol.{TxId, CrossShardTx}
use test_v.Protocol.Shards.{involved_shards, involved_shards-In}
use test_v.Orchestrator.Chain.{OrchestratorChain, settle, all_voted, record_vote}
use test_v.Orchestrator.Chain.Consistent.{IsConsistent, record_vote-IsConsistent}
use test_v.Orchestrator.Chain.Votes.{
  ballot, with_yes, all_voted_iff, settle_fields, record_vote_accepts, record_vote_yes,
}

-- The shards of the list vote YES, one after another.
pub vote_yes_all : OrchestratorChain → TxId → List ℤ → OrchestratorChain
vote_yes_all c t [] = c
vote_yes_all c t (s ∷ rest) = vote_yes_all (record_vote c t s true).0 t rest

-- Later votes do not touch a transaction that is decided.
settled_stays :
    (c : OrchestratorChain) (t : TxId) (voters : List ℤ)
    → contains t c.awaiting_votes ≡ false
    → vote_yes_all c t voters ≡ c
unfolding vote_yes_all
settled_stays c t [] n = refl
settled_stays c t (s ∷ rest) n =
    let same : (record_vote c t s true).0 ≡ c = ground (arith, record_vote_accepts c t s true) in
    rw (same, vote_yes_all) (settled_stays c t rest n)

-- Every involved shard has voted or is still to vote.
abbrev Covered : OrchestratorChain → TxId → CrossShardTx → List ℤ → Type 0
Covered c t tx voters =
    (r : ℤ) → In r (involved_shards tx) → In r voters ⊎ (contains r (ballot c t) ≡ true)

Covered-commit :
    (t : TxId) (tx : CrossShardTx) (voters : List ℤ) (c : OrchestratorChain)
    → IsConsistent c
    → lookup t c.awaiting_votes ≡ some tx
    → all_voted (involved_shards tx) (ballot c t) ≡ false
    → Covered c t tx voters
    → lookup t (vote_yes_all c t voters).pending_result ≡ some true
unfolding vote_yes_all
Covered-commit t tx [] c v w short cover = cc (
    (all_voted_iff (involved_shards tx) (ballot c t)).1
      (λ r i. elim (cover r i) [ inl none_left ↦ absurd none_left | inr voted ↦ voted ]))
Covered-commit t tx (s ∷ rest) c v w short cover = elim (Bool-cases (contains s (ballot c t))) [
  | inl again ↦
      let same : (record_vote c t s true).0 ≡ c = ground (arith, record_vote_accepts c t s true) in
      rw (same, vote_yes_all)
        (Covered-commit t tx rest c v w short (λ r i. ground (arith, cover r i)))
  | inr new ↦ elim (Bool-cases (all_voted (involved_shards tx) (with_yes c t s))) [
    | inl full ↦
        let done : (record_vote c t s true).0 ≡ settle c t true =
          rw (record_vote_yes c t s tx v w new, full) in
        rw (done, vote_yes_all, settled_stays (settle c t true) t rest (settle_fields c t true).1)
          (settle_fields c t true).0
    | inr waits ↦
        let c' : OrchestratorChain = record c { votes = insert t (with_yes c t s) c.votes } in
        let done : (record_vote c t s true).0 ≡ c' = rw (record_vote_yes c t s tx v w new, waits) in
        let filed : ballot c' t ≡ with_yes c t s =
          ground (arith, get_or-insert [] t t (with_yes c t s) c.votes, string_key.same_iff t t) in
        rw (done, vote_yes_all)
          (Covered-commit t tx rest c' (rw done at (record_vote-IsConsistent c t s true v)) w
            (rw filed waits)
            (λ r i. rw filed (
              ground
                (arith, cover r i, lookup-insert s r true (ballot c t), int_key.same_iff s r))))
  ]
]

-- If the state is consistent, no vote is in yet on an awaited transaction, and the shards that it
-- involves are all among those that vote YES, then it is decided to commit, in whatever order and
-- however often they vote, and whoever votes YES besides.
pub all_yes_commit :
    (c : OrchestratorChain) (t : TxId) (tx : CrossShardTx) (voters : List ℤ)
    → IsConsistent c
    → lookup t c.awaiting_votes ≡ some tx
    → lookup t c.votes ≡ none
    → ((r : ℤ) → In r (involved_shards tx) → In r voters)
    → lookup t (vote_yes_all c t voters).pending_result ≡ some true
all_yes_commit c t tx voters v w fresh all =
    Covered-commit t tx voters c v w
      (elim (Bool-cases (all_voted (involved_shards tx) (ballot c t))) [
        | inr short ↦ short
        | inl full ↦ ground (
          arith,
          (all_voted_iff (involved_shards tx) (ballot c t)).0 full tx.from_shard
              ((involved_shards-In tx tx.from_shard).1 (inl refl)),
          lookup-nil {V = Bool} tx.from_shard,
        )
      ])
      (λ r i. inl (all r i))
