-- ===== src/Orchestrator/Chain/Timeouts.antt =====
-- `checkTimeouts`: which transactions it aborts, and that it leaves the others alone.
use test_v.Prelude.{
  ◌≡◌, refl, sym, ◌∙◌, ◌↔◌, inl, inr, Bool, true, false, List, [], ◌∷◌, none, some, arith,
  string_key, ◌==◌, Bool-cases, eq_refl, eq→≡,
}
use test_v.Prelude.Lists.{In}
use test_v.Prelude.Maps.{Map, lookup, contains, lookup-insert, lookup-erase}
use test_v.Protocol.{TxId, CrossShardTx}
use test_v.Orchestrator.Chain.{
  OrchestratorChain, settle, overdue, timed_out, abort_all, check_timeouts,
}

timed_out-In :
    (c : OrchestratorChain) (m : Map TxId CrossShardTx) (t : TxId)
    → In t (timed_out c m) ↔ ((contains t m ≡ true) × (overdue c t ≡ true))
unfolding timed_out lookup
timed_out-In c [] t = ((λ i. elim i [ ]), (λ h. cc))
timed_out-In c ((k, tx) ∷ m) t = ground (arith, timed_out-In c m t, string_key.same_iff k t)

-- All that the state says of one transaction.
pub record Same (t : TxId) (c c' : OrchestratorChain) : Type 0 where
  pub result : lookup t c'.pending_result ≡ lookup t c.pending_result
  pub awaiting : lookup t c'.awaiting_votes ≡ lookup t c.awaiting_votes
  pub ballot : lookup t c'.votes ≡ lookup t c.votes
  pub expected : lookup t c'.expected_voters ≡ lookup t c.expected_voters
  pub started : lookup t c'.vote_start_block ≡ lookup t c.vote_start_block

pub record Aborted (t : TxId) (c : OrchestratorChain) : Type 0 where
  pub result : lookup t c.pending_result ≡ some false
  pub awaiting : lookup t c.awaiting_votes ≡ none

settle-Same :
    (c : OrchestratorChain) (k t : TxId) (d : Bool) → (k == t) ≡ false → Same t c (settle c k d)
unfolding settle
settle-Same c k t d n = record {
  result = rw (lookup-insert k t d c.pending_result, n);
  awaiting = rw (lookup-erase k t c.awaiting_votes, n);
  ballot = rw (lookup-erase k t c.votes, n);
  expected = rw (lookup-erase k t c.expected_voters, n);
  started = rw (lookup-erase k t c.vote_start_block, n);
}

settle-Aborted : (c : OrchestratorChain) (t : TxId) → Aborted t (settle c t false)
unfolding settle
settle-Aborted c t = record {
  result = rw (lookup-insert t t false c.pending_result, eq_refl t);
  awaiting = rw (lookup-erase t t c.awaiting_votes, eq_refl t);
}

settle_keeps-Aborted :
    (c : OrchestratorChain) (k t : TxId) → Aborted t c → Aborted t (settle c k false)
unfolding settle
settle_keeps-Aborted c k t a = record {
  result = ground (arith, lookup-insert k t false c.pending_result, a.result);
  awaiting = ground (arith, lookup-erase k t c.awaiting_votes, a.awaiting);
}

abort_all_keeps-Aborted :
    (ids : List TxId) (c : OrchestratorChain) (t : TxId) → Aborted t c → Aborted t (abort_all c ids)
unfolding abort_all
abort_all_keeps-Aborted [] c t a = a
abort_all_keeps-Aborted (k ∷ ids) c t a =
    abort_all_keeps-Aborted ids (settle c k false) t (settle_keeps-Aborted c k t a)

abort_all-Aborted :
    (ids : List TxId) (c : OrchestratorChain) (t : TxId) → In t ids → Aborted t (abort_all c ids)
unfolding abort_all
abort_all-Aborted [] c t i = elim i [ ]
abort_all-Aborted (k ∷ ids) c t (inl e) =
    abort_all_keeps-Aborted ids (settle c k false) t (rw e (settle-Aborted c k))
abort_all-Aborted (k ∷ ids) c t (inr i) = abort_all-Aborted ids (settle c k false) t i

Same-trans : {t : TxId} {a b c : OrchestratorChain} → Same t a b → Same t b c → Same t a c
Same-trans p q = record {
  result = q.result ∙ p.result;
  awaiting = q.awaiting ∙ p.awaiting;
  ballot = q.ballot ∙ p.ballot;
  expected = q.expected ∙ p.expected;
  started = q.started ∙ p.started;
}

abort_all-Same :
    (ids : List TxId) (c : OrchestratorChain) (t : TxId) → ¬ In t ids → Same t c (abort_all c ids)
unfolding abort_all
abort_all-Same [] c t n = record {
  result = refl;
  awaiting = refl;
  ballot = refl;
  expected = refl;
  started = refl;
}
abort_all-Same (k ∷ ids) c t n = elim (Bool-cases (k == t)) [
  | inl e ↦ absurd (n (inl (sym (eq→≡ k t e))))
  | inr e ↦
      Same-trans (settle-Same c k t false e)
        (abort_all-Same ids (settle c k false) t (λ i. n (inr i)))
]

-- A check of the timeouts aborts exactly the awaited transactions that are overdue, and returns
-- their ids; of every other transaction it changes nothing.
pub check_timeouts_lem :
    (c : OrchestratorChain) (t : TxId)
    → let (c', ids) = check_timeouts c in
      (In t ids ↔ ((contains t c.awaiting_votes ≡ true) × (overdue c t ≡ true)))
      × (In t ids → Aborted t c')
      × (¬ In t ids → Same t c c')
unfolding check_timeouts
check_timeouts_lem c t = (
  timed_out-In c c.awaiting_votes t,
  abort_all-Aborted (timed_out c c.awaiting_votes) c t,
  abort_all-Same (timed_out c c.awaiting_votes) c t,
)

abort_all_frame :
    (ids : List TxId) (c : OrchestratorChain)
    → ((abort_all c ids).height ≡ c.height)
      × ((abort_all c ids).blocks ≡ c.blocks)
      × ((abort_all c ids).pending_txs ≡ c.pending_txs)
      × ((abort_all c ids).vote_timeout ≡ c.vote_timeout)
unfolding abort_all settle
abort_all_frame [] c = (refl, refl, refl, refl)
abort_all_frame (k ∷ ids) c = abort_all_frame ids (settle c k false)

-- The blocks and the queue are not touched.
pub check_timeouts_frame :
    (c : OrchestratorChain)
    → let c' = (check_timeouts c).0 in
      (c'.height ≡ c.height)
      × (c'.blocks ≡ c.blocks)
      × (c'.pending_txs ≡ c.pending_txs)
      × (c'.vote_timeout ≡ c.vote_timeout)
unfolding check_timeouts
check_timeouts_frame c = abort_all_frame (timed_out c c.awaiting_votes) c
