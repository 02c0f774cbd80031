-- ===== src/Orchestrator/Chain/Votes.antt =====
-- `RecordVote`: when a vote is accepted, and what decides a transaction.
use test_v.Prelude.{
  ◌≡◌, refl, ◌≢◌, ◌↔◌, ◌⊎◌, inl, inr, le→leb, Bool, true, false, List, [], ◌∷◌, some, arith, leb,
  string_key, if◌then◌else◌, Bool-cases, Option-cases,
}
use test_v.Prelude.Int.{ℤ, int_key}
use test_v.Prelude.Lists.{length, In}
use test_v.Prelude.Maps.{
  Map, lookup, insert, contains, get_or, lookup-insert, lookup-insert_self, lookup-erase_self,
  length-le_of_present,
}
use test_v.Protocol.{TxId, CrossShardTx}
use test_v.Protocol.Shards.{involved_shards, involved_shards-Distinct}
use test_v.Orchestrator.Chain.{OrchestratorChain, settle, all_voted, count_vote, record_vote}
use test_v.Orchestrator.Chain.Consistent.{IsConsistent, settle_filed}

-- The votes cast so far on a transaction.
abbrev pub ballot : OrchestratorChain → TxId → Map ℤ Bool
ballot c t = get_or [] t c.votes

-- A vote is accepted exactly if its transaction is awaited and its shard has not voted yet; a vote
-- that is not accepted changes nothing.
pub record_vote_accepts :
    (c : OrchestratorChain) (t : TxId) (s : ℤ) (b : Bool)
    → (((record_vote c t s b).1 ≡ true)
        ↔ ((contains t c.awaiting_votes ≡ true) × (contains s (ballot c t) ≡ false)))
      × ((record_vote c t s b).1 ≡ false → (record_vote c t s b).0 ≡ c)
unfolding record_vote
record_vote_accepts c t s b = ground arith

pub all_voted_iff :
    (E : List ℤ) (m : Map ℤ Bool)
    → (all_voted E m ≡ true) ↔ ((r : ℤ) → In r E → contains r m ≡ true)
unfolding all_voted
all_voted_iff [] m = ((λ h r i. elim i [ ]), (λ h. refl))
all_voted_iff (x ∷ E) m =
    let ih = all_voted_iff E m in
    (
      (λ h r i. elim i [ inl e ↦ ground arith | inr j ↦ ih.0 (ground arith) r j ]),
      (λ h. ground (arith, h x (inl refl), ih.1 (λ r i. h r (inr i)))),
    )

pub settle_fields :
    (c : OrchestratorChain) (t : TxId) (d : Bool)
    → (lookup t (settle c t d).pending_result ≡ some d)
      × (contains t (settle c t d).awaiting_votes ≡ false)
      × (ballot (settle c t d) t ≡ [])
unfolding settle
settle_fields c t d = (
  lookup-insert_self t d c.pending_result,
  rw (lookup-erase_self t c.awaiting_votes),
  ground (arith, lookup-erase_self t c.votes),
)

-- A NO vote of any shard that has not voted yet aborts an awaited transaction at once: it is
-- decided false and no longer awaited. The code does not ask whether the shard is one of those
-- expected to vote.
pub record_vote_no :
    (c : OrchestratorChain) (t : TxId) (s : ℤ)
    → contains t c.awaiting_votes ≡ true
    → contains s (ballot c t) ≡ false
    → let (c', accepted) = record_vote c t s false in
      (accepted ≡ true)
      × (lookup t c'.pending_result ≡ some false)
      × (contains t c'.awaiting_votes ≡ false)
unfolding record_vote count_vote
record_vote_no c t s w n =
    rw (w, n, settle_filed) (refl, (settle_fields c t false).0, (settle_fields c t false).1)

-- The ballot once shard `s` has voted YES.
abbrev pub with_yes : OrchestratorChain → TxId → ℤ → Map ℤ Bool
with_yes c t s = insert s true (ballot c t)

-- All expected shards can only have voted if there are as many votes as expected shards.
enough_votes :
    (tx : CrossShardTx) (m : Map ℤ Bool)
    → all_voted (involved_shards tx) m ≡ true
    → leb (length (involved_shards tx)) (length m) ≡ true
enough_votes tx m h = le→leb _ _ (
    length-le_of_present (involved_shards tx) m (involved_shards-Distinct tx)
      ((all_voted_iff (involved_shards tx) m).0 h))

-- In a consistent state, a YES vote of a shard that has not voted yet on an awaited transaction
-- decides to commit exactly if all involved shards have now voted, and is filed otherwise: the
-- comparison of the two counts, which comes first in the code, never holds back or hastens a
-- decision.
pub record_vote_yes :
    (c : OrchestratorChain) (t : TxId) (s : ℤ) (tx : CrossShardTx)
    → IsConsistent c
    → lookup t c.awaiting_votes ≡ some tx
    → contains s (ballot c t) ≡ false
    → record_vote c t s true ≡ (
      (if all_voted (involved_shards tx) (with_yes c t s)
          then settle c t true
          else record c { votes = insert t (with_yes c t s) c.votes }),
      true,
    )
unfolding record_vote count_vote
record_vote_yes c t s tx v w n = ground (
  arith,
  v.voters t tx w,
  enough_votes tx (with_yes c t s),
  settle_filed c t (with_yes c t s) true,
)

cast_yes :
    (c : OrchestratorChain) (t : TxId) (r : ℤ)
    → IsConsistent c
    → contains r (ballot c t) ≡ true
    → lookup r (ballot c t) ≡ some true
cast_yes c t r v h = elim (Option-cases (lookup r (ballot c t))) [
  | inl e ↦ cc
  | inr (b, e) ↦ rw (e, v.unanimous t r b e)
]

full_ballot :
    (c : OrchestratorChain) (t : TxId) (s : ℤ) (tx : CrossShardTx) (r : ℤ)
    → IsConsistent c
    → all_voted (involved_shards tx) (with_yes c t s) ≡ true
    → In r (involved_shards tx)
    → (r ≡ s) ⊎ (lookup r (ballot c t) ≡ some true)
full_ballot c t s tx r v full i = ground (
  arith,
  (all_voted_iff (involved_shards tx) (with_yes c t s)).0 full r i,
  lookup-insert s r true (ballot c t),
  int_key.same_iff s r,
  cast_yes c t r v,
)

accepted_commit :
    (c : OrchestratorChain) (t : TxId) (s : ℤ) (b : Bool) (tx : CrossShardTx)
    → IsConsistent c
    → lookup t c.pending_result ≢ some true
    → lookup t c.awaiting_votes ≡ some tx
    → contains s (ballot c t) ≡ false
    → lookup t (record_vote c t s b).0.pending_result ≡ some true
    → (b ≡ true)
      × ((tx : CrossShardTx) × (lookup t c.awaiting_votes ≡ some tx)
          × ((r : ℤ) → In r (involved_shards tx) → (r ≡ s) ⊎ (lookup r (ballot c t) ≡ some true)))
accepted_commit c t s false tx v n w new e = cc ((record_vote_no c t s (rw w) new).1)
accepted_commit c t s true tx v n w new e =
    elim (Bool-cases (all_voted (involved_shards tx) (with_yes c t s))) [
      | inl full ↦ (refl, (tx, w, λ r i. full_ballot c t s tx r v full i))
      | inr short ↦ absurd (n (ground (arith, record_vote_yes c t s tx v w new)))
    ]

-- A commit is unanimous: in a consistent state, a vote that makes the orchestrator decide to commit
-- a transaction, which was not decided so before, is a YES for an awaited transaction, and every
-- other shard that the transaction involves has voted YES before.
pub record_vote_commit :
    (c : OrchestratorChain) (t : TxId) (s : ℤ) (b : Bool)
    → IsConsistent c
    → lookup t c.pending_result ≢ some true
    → lookup t (record_vote c t s b).0.pending_result ≡ some true
    → (b ≡ true)
      × ((tx : CrossShardTx) × (lookup t c.awaiting_votes ≡ some tx)
          × ((r : ℤ) → In r (involved_shards tx) → (r ≡ s) ⊎ (lookup r (ballot c t) ≡ some true)))
record_vote_commit c t s b v n e = elim (Bool-cases (record_vote c t s b).1) [
  | inr refused ↦ absurd (n (rw (← (record_vote_accepts c t s b).1 refused) e))
  | inl accepted ↦
      let (w, new) = (record_vote_accepts c t s b).0.0 accepted in
      elim (Option-cases (lookup t c.awaiting_votes)) [
        | inl missing ↦ cc
        | inr (tx, found) ↦ accepted_commit c t s b tx v n found new e
      ]
]
