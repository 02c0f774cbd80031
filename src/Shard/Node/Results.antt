-- ===== src/Shard/Node/Results.antt =====
-- What the decision on a cross-shard transaction queues.
use test_v.Prelude.{
  ℕ, ◌≡◌, refl, ap, ◌∙◌, inl, inr, Bool, true, false, List, [], ◌∷◌, ◌++◌, String, arith, nat_key,
  string_key, if◌then◌else◌, ltb, Bool-cases, Option-cases,
}
use test_v.Prelude.Lists.{length, All}
use test_v.Prelude.Maps.{lookup, get_or-insert, insert}
use test_v.Protocol.{TxId, Transaction, TxType}
use test_v.Protocol.Copies.{copy_rw_set}
use test_v.Shard.FundLocks.{get_locked_funds}
use test_v.Shard.Chain.{
  Chain, PendingCredit, get_pending_call, get_pending_rw_set, is_commit_processed,
}
use test_v.Shard.Chain.Queue.{add_tx_lem, marked_before, marked_now}
use test_v.Shard.Node.{
  Node, blank_tx, credit_tx, local_rw_set, queue_tx, queue_debit, queue_credits, queue_all_credits,
  queue_write_set, queue_finalize, queue_commit, has_data, queue_abort, process_result,
}

-- The types of transaction that a commit and an abort may queue, besides the Unlock.
abbrev pub carries_out : Bool → TxType → Bool
carries_out true TxType.cross_debit = true
carries_out true TxType.cross_credit = true
carries_out true TxType.cross_writeset = true
carries_out true TxType.finalize = true
carries_out false TxType.cross_abort = true
carries_out committed other = false

abbrev pub CarriesOut : TxId → Bool → Transaction → Type 0
CarriesOut t committed tx = (tx.cross_shard_tx_id ≡ t) × (carries_out committed tx.tx_type ≡ true)

-- The queue has grown by such transactions, and the marks and the height are as before.
abbrev pub Queued : TxId → Bool → Node → Node → Type 0
Queued t committed n m =
    (txs : List Transaction) × (m.chain.current_txs ≡ n.chain.current_txs ++ txs)
    × All (CarriesOut t committed) txs
    × (m.chain.processed_commits ≡ n.chain.processed_commits)
    × (m.chain.last_orchestrator_height ≡ n.chain.last_orchestrator_height)

append_nil : {A : Type 0} (xs : List A) → xs ≡ xs ++ []
append_nil [] = refl
append_nil (x ∷ xs) = ap (λ ys. x ∷ ys) (append_nil xs)

append_assoc : {A : Type 0} (xs ys zs : List A) → (xs ++ ys) ++ zs ≡ xs ++ (ys ++ zs)
append_assoc [] ys zs = refl
append_assoc (x ∷ xs) ys zs = ap (λ ws. x ∷ ws) (append_assoc xs ys zs)

All-append :
    (P : Transaction → Type 0) (xs ys : List Transaction) → All P xs → All P ys → All P (xs ++ ys)
All-append P [] ys h q = q
All-append P (x ∷ xs) ys h q = (h.0, All-append P xs ys h.1 q)

Queued-refl : (t : TxId) (b : Bool) (n : Node) → Queued t b n n
Queued-refl t b n = ([], append_nil n.chain.current_txs, tt, refl, refl)

Queued-trans :
    (t : TxId) (b : Bool) (n m k : Node) → Queued t b n m → Queued t b m k → Queued t b n k
Queued-trans t b n m k (xs, e, p, c, l) (ys, e', p', c', l') = (
  xs ++ ys,
  e' ∙ ap (λ (qs : List Transaction). qs ++ ys) e ∙ append_assoc n.chain.current_txs xs ys,
  All-append (CarriesOut t b) xs ys p p',
  c' ∙ c,
  l' ∙ l,
)

module _ (new_uuid : ℕ → String) where
  pub queue_tx_lem :
      (n : Node) (tx : TxId → Transaction)
      → ((queue_tx new_uuid n tx).chain.current_txs
          ≡ n.chain.current_txs ++ tx (new_uuid n.drawn) ∷ [])
        × ((queue_tx new_uuid n tx).chain.processed_commits ≡ n.chain.processed_commits)
        × ((queue_tx new_uuid n tx).chain.last_orchestrator_height
            ≡ n.chain.last_orchestrator_height)
  unfolding queue_tx
  queue_tx_lem n tx = rw (add_tx_lem n.chain (tx (new_uuid n.drawn))) (refl, refl, refl)

  queue_tx-Queued :
      (t : TxId) (b : Bool) (n : Node) (tx : TxId → Transaction)
      → ((id : TxId) → CarriesOut t b (tx id))
      → Queued t b n (queue_tx new_uuid n tx)
  queue_tx-Queued t b n tx h =
      let q = queue_tx_lem n tx in
      (tx (new_uuid n.drawn) ∷ [], q.0, (h (new_uuid n.drawn), tt), q.1, q.2)

  queue_debit-Queued : (n : Node) (t : TxId) → Queued t true n (queue_debit new_uuid n t)
  unfolding queue_debit blank_tx
  queue_debit-Queued n t = elim (Option-cases (get_locked_funds n.chain.funds t)) [
    | inl e ↦ rw (e, queue_debit) (Queued-refl t true n)
    | inr (lock, e) ↦ rw (e, queue_debit) (queue_tx-Queued t true n _ (λ id. (refl, refl)))
  ]

  queue_credits-Queued :
      (n : Node) (t : TxId) (credits : List PendingCredit)
      → Queued t true n (queue_credits new_uuid n t credits)
  unfolding queue_credits credit_tx blank_tx
  queue_credits-Queued n t [] = Queued-refl t true n
  queue_credits-Queued n t (credit ∷ rest) =
      let m = queue_tx new_uuid n (credit_tx t credit) in
      Queued-trans t true n m (queue_credits new_uuid m t rest)
        (queue_tx-Queued t true n (credit_tx t credit) (λ id. (refl, refl)))
        (queue_credits-Queued (queue_tx new_uuid n (credit_tx t credit)) t rest)

  queue_all_credits-Queued :
      (n : Node) (t : TxId) → Queued t true n (queue_all_credits new_uuid n t)
  unfolding queue_all_credits
  queue_all_credits-Queued n t = elim (Option-cases (lookup t n.chain.pending_credits)) [
    | inl e ↦ rw (e, queue_all_credits) (Queued-refl t true n)
    | inr (credits, e) ↦ rw (e, queue_all_credits) (queue_credits-Queued n t credits)
  ]

  queue_write_set-Queued : (n : Node) (t : TxId) → Queued t true n (queue_write_set new_uuid n t)
  unfolding queue_write_set blank_tx
  queue_write_set-Queued n t = elim (Option-cases (get_pending_call n.chain t)) [
    | inl e ↦ rw (e, queue_write_set) (Queued-refl t true n)
    | inr (call, e) ↦
        elim (Bool-cases
          (ltb 0 (length (copy_rw_set (local_rw_set n.chain.shard_id call.rw_set))))) [
            | inl z ↦ rw (e, z, queue_write_set) (queue_tx-Queued t true n _ (λ id. (refl, refl)))
            | inr z ↦ rw (e, z, queue_write_set) (Queued-refl t true n)
          ]
  ]

  queue_finalize-Queued : (n : Node) (t : TxId) → Queued t true n (queue_finalize new_uuid n t)
  unfolding queue_finalize blank_tx
  queue_finalize-Queued n t = elim (Option-cases (get_pending_rw_set n.chain t)) [
    | inl e ↦ rw (e, queue_finalize) (Queued-refl t true n)
    | inr (rw_set, e) ↦ elim (Bool-cases (ltb 0 (length rw_set))) [
      | inl z ↦ rw (e, z, queue_finalize) (queue_tx-Queued t true n _ (λ id. (refl, refl)))
      | inr z ↦ rw (e, z, queue_finalize) (Queued-refl t true n)
    ]
  ]

  queue_commit-Queued : (n : Node) (t : TxId) → Queued t true n (queue_commit new_uuid n t)
  unfolding queue_commit
  queue_commit-Queued n t =
      let n₁ = queue_debit new_uuid n t in
      let n₂ = queue_all_credits new_uuid n₁ t in
      let n₃ = queue_write_set new_uuid n₂ t in
      let n₄ = queue_finalize new_uuid n₃ t in
      Queued-trans t true n n₁ n₄ (queue_debit-Queued n t) (
        Queued-trans t true n₁ n₂ n₄ (queue_all_credits-Queued n₁ t)
          (Queued-trans t true n₂ n₃ n₄ (queue_write_set-Queued n₂ t) (queue_finalize-Queued n₃ t)))

  queue_abort-Queued : (n : Node) (t : TxId) → Queued t false n (queue_abort new_uuid n t)
  unfolding queue_abort blank_tx
  queue_abort-Queued n t = elim (Bool-cases (has_data n.chain t)) [
    | inl z ↦ rw (z, queue_abort) (queue_tx-Queued t false n _ (λ id. (refl, refl)))
    | inr z ↦ rw (z, queue_abort) (Queued-refl t false n)
  ]

  -- What a new decision queues.
  pub record Decided (t : TxId) (committed : Bool) (n m : Node) : Type 0 where
    pub txs : List Transaction
    pub unlock : Transaction
    pub queue : m.chain.current_txs ≡ (n.chain.current_txs ++ txs) ++ unlock ∷ []
    pub carried_out : All (CarriesOut t committed) txs
    pub unlocks : (unlock.tx_type ≡ TxType.unlock) × (unlock.cross_shard_tx_id ≡ t)
    pub marked : is_commit_processed m.chain t ≡ true
    pub height : m.chain.last_orchestrator_height ≡ n.chain.last_orchestrator_height

  by_decision :
      (b : Bool) (n : Node) (t : TxId)
      → Queued t b n (if b then queue_commit new_uuid n t else queue_abort new_uuid n t)
  by_decision true n t = queue_commit-Queued n t
  by_decision false n t = queue_abort-Queued n t

  pub process_result_again :
      (n : Node) (t : TxId) (committed : Bool)
      → is_commit_processed n.chain t ≡ true
      → process_result new_uuid n t committed ≡ n
  unfolding process_result
  process_result_again n t committed h =
      let v = marked_before n.chain t h in rw (process_result, v) refl

  process_result-Decided :
      (n : Node) (t : TxId) (committed : Bool)
      → is_commit_processed n.chain t ≡ false
      → Decided t committed n (process_result new_uuid n t committed)
  unfolding process_result blank_tx
  process_result-Decided n t committed h =
      let c : Chain = record n.chain {
        processed_commits = insert t true n.chain.processed_commits;
      } in
      let n₁ : Node = record n { chain = c } in
      let n₂ = if committed then queue_commit new_uuid n₁ t else queue_abort new_uuid n₁ t in
      let run : Queued t committed n₁ n₂ = by_decision committed n₁ t in
      let v = marked_now n.chain t h in
      let last = queue_tx_lem n₂ (λ id. blank_tx TxType.unlock id t) in
      rw (process_result, v)
        (record {
          txs = run.0;
          unlock = blank_tx TxType.unlock (new_uuid n₂.drawn) t;
          queue =
              last.0
              ∙ ap
                  (λ (q : List Transaction). q ++ blank_tx TxType.unlock (new_uuid n₂.drawn) t ∷ [])
                  run.1;
          carried_out = run.2;
          unlocks = (refl, refl);
          marked = ground (
            arith,
            last.1,
            run.3,
            get_or-insert false t t true n.chain.processed_commits,
            string_key.same_iff t t,
          );
          height = last.2 ∙ run.4;
        })

  -- A decision is carried out once. If it was not processed before, it queues transactions of its
  -- own only, those of a commit or those of an abort, and after them an Unlock; it marks the
  -- decision and keeps the height. After it, a decision on the same transaction changes nothing,
  -- whatever it says.
  pub process_result_once :
      (n : Node) (t : TxId) (committed : Bool)
      → (is_commit_processed n.chain t ≡ false
          → Decided t committed n (process_result new_uuid n t committed))
        × ((later : Bool)
            → process_result new_uuid (process_result new_uuid n t committed) t later
              ≡ process_result new_uuid n t committed)
  process_result_once n t committed = (
    process_result-Decided n t committed,
    λ later. elim (Bool-cases (is_commit_processed n.chain t)) [
      | inl old ↦ rw (process_result_again n t committed old) (process_result_again n t later old)
      | inr new ↦
          process_result_again (process_result new_uuid n t committed) t later
            (process_result-Decided n t committed new).marked
    ],
  )
