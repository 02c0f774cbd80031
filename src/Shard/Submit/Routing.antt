-- ===== src/Shard/Submit/Routing.antt =====
-- What becomes of a submitted transaction.
use test_v.Prelude.{
  ℕ, ◌≡◌, ◌∙◌, ◌≤◌, refl, inl, inr, Bool, true, false, not, ◌&&◌, ◌||◌, List, [], ◌∷◌, Option, none,
  some, String, nat_key, ◌==◌, if◌then◌else◌, ltb, is_some, Bool-cases, Option-cases, arith, eq→≡,
}
use test_v.Prelude.Lists.{All, length}
use test_v.Prelude.Int.{ℤ, pos, ltb_ℤ, int_key}
use test_v.Prelude.Maps.{Map, insert}
use test_v.Protocol.{Address, RwVariable, to_big_int}
use test_v.Protocol.Shards.{shard_of}
use test_v.Shard.FundLocks.{get_locked_amount}
use test_v.Shard.Evm.{can_debit}
use test_v.Shard.Chain.{add_tx}
use test_v.Shard.Node.{Node, num_shards}
use test_v.Shard.Tracking.{
  TrackingState, new_tracking, foreign_shards, address_shard, get_accessed_addresses,
  has_cross_shard_access,
}
use test_v.Shard.Submit.{
  Library, TxSubmitRequest, Outcome, queued, forwarded, Verdict, stays, fails, crosses, panics,
  panicked, variables_of, forwarded_tx, local_tx, is_definite_local_error, simulate_call, verdict,
  classify, admit_local, dispatch, handle_tx_submit, min_gas_limit, max_gas_limit,
  default_gas_limit, simulation_gas_limit,
}

-- An address is listed under its own shard.
abbrev pub Placed : RwVariable → Type 0
Placed v = shard_of v ≡ address_shard num_shards v.address

abbrev AllPlaced : Map Address ℤ → Type 0
AllPlaced m = All Placed (variables_of m)

abbrev pub IsHome : ℤ → Address → Type 0
IsHome shard_id addr = address_shard num_shards addr ≡ shard_id

-- go-ethereum's snapshots: to revert to one, after a call that started from it, restores its state.
abbrev pub Undoes : Library → Type 0
Undoes l =
    (s : l.inner.State) (shard_id : ℤ) (caller contract : Address) (input : List ℕ) (gas v : ℕ)
    → let (s', id) = l.snapshot s in
      l.revert
        (l.call (new_tracking l.inner s' shard_id num_shards) caller contract input gas v).0.inner
        id
      ≡ s

-- Whether the value of a request is beyond 256 bits
abbrev pub is_huge : Library → TxSubmitRequest → Bool
is_huge l req = elim req.value [ none ↦ false | some v ↦ not (is_some (l.db.must_from_big v)) ]

-- What the handler has done, by its outcome; `free` tells whether the sender can pay a value, and
-- `huge` whether the request's value is beyond 256 bits.
abbrev pub Handled : (Address → ℤ → Bool) → Bool → Node → Node → Outcome → Type 0
Handled free huge n n' (forwarded tx) =
    (min_gas_limit ≤ tx.gas)
    × (tx.gas ≤ max_gas_limit)
    × IsHome n.chain.shard_id tx.from
    × (tx.from_shard ≡ n.chain.shard_id)
    × All Placed tx.rw_set
    × (n'.chain ≡ n.chain)
Handled free huge n n' (queued tx) =
    (min_gas_limit ≤ tx.gas)
    × (tx.gas ≤ max_gas_limit)
    × IsHome n.chain.shard_id tx.from
    × IsHome n.chain.shard_id tx.to
    × ((not (ltb_ℤ (pos 0) (to_big_int tx.value)) || free tx.from (to_big_int tx.value)) ≡ true)
    × (n'.chain ≡ add_tx n.chain tx)
Handled free huge n n' panicked = (huge ≡ true) × (n' ≡ n)
Handled free huge n n' refused = n' ≡ n

module _ (l : Library) (new_uuid : ℕ → String) where
  insert-AllPlaced :
      (a : Address) (m : Map Address ℤ)
      → AllPlaced m
      → AllPlaced (insert a (address_shard num_shards a) m)
  unfolding insert variables_of
  insert-AllPlaced a [] h = (refl, tt)
  insert-AllPlaced a ((b, shard) ∷ m) h = elim (Bool-cases (b == a)) [
    | inl same ↦ rw same (refl, h.1)
    | inr other ↦ rw other (h.0, insert-AllPlaced a m h.1)
  ]

  foreign_shards-AllPlaced :
      (shard_id : ℤ) (addrs : List Address) (m : Map Address ℤ)
      → AllPlaced m
      → AllPlaced (foreign_shards l.inner num_shards shard_id addrs m)
  unfolding foreign_shards
  foreign_shards-AllPlaced shard_id [] m h = h
  foreign_shards-AllPlaced shard_id (a ∷ addrs) m h =
      elim (Bool-cases (address_shard num_shards a == shard_id)) [
        | inl home ↦ rw (home, foreign_shards) (foreign_shards-AllPlaced shard_id addrs m h)
        | inr away ↦
            rw (away, foreign_shards)
              (foreign_shards-AllPlaced shard_id addrs _ (insert-AllPlaced a m h))
      ]

  -- What a verdict promises
  abbrev Judged : ℤ → TxSubmitRequest → Bool → Verdict → Type 0
  Judged shard_id req huge stays = IsHome shard_id req.to
  Judged shard_id req huge (crosses addrs) = AllPlaced addrs
  Judged shard_id req huge panics = huge ≡ true
  Judged shard_id req huge other = Unit

  verdict-Judged :
      (shard_id : ℤ) (req : TxSubmitRequest) (t : TrackingState l.inner) (err : Option String)
      (huge : Bool)
      → IsHome shard_id req.to
      → Judged shard_id req huge (verdict l new_uuid shard_id req.to t err)
  unfolding verdict variables_of
  verdict-Judged shard_id req t (some err) huge home =
      elim (Bool-cases (is_definite_local_error l new_uuid err)) [
        | inl definite ↦ rw (definite, verdict) tt
        | inr unclear ↦ rw (unclear, verdict) (insert-AllPlaced req.to [] tt)
      ]
  verdict-Judged shard_id req t none huge home =
      elim (Bool-cases (has_cross_shard_access l.inner t)) [
        | inl foreign ↦
            rw (foreign, verdict)
              (foreign_shards-AllPlaced shard_id (get_accessed_addresses l.inner t) [] tt)
        | inr local ↦ rw (local, verdict) home
      ]

  classify-Judged :
      (shard_id : ℤ) (s : l.inner.State) (req : TxSubmitRequest) (value : ℤ) (gas : ℕ) (huge : Bool)
      → req.value ≡ some value
      → huge ≡ is_huge l req
      → Judged shard_id req huge (classify l new_uuid shard_id s req value gas).0
  unfolding classify variables_of simulate_call
  classify-Judged shard_id s req value gas huge given is =
      elim (Bool-cases (address_shard num_shards req.to == shard_id)) [
        | inr away ↦ rw (away, classify) (insert-AllPlaced req.to [] tt)
        | inl here ↦
            let home = eq→≡ (address_shard num_shards req.to) shard_id here in
            elim (Bool-cases (ltb 0 (length (l.get_code s req.to)) && ltb 0 (length req.payload))) [
              | inr plain ↦ rw (here, plain, classify) home
              | inl called ↦
                  let sim_gas : ℕ =
                    if ltb gas simulation_gas_limit then simulation_gas_limit else gas in
                  elim (Option-cases (l.db.must_from_big value)) [
                    | inl big ↦ rw (here, called, big, classify) (is ∙ rw (given, big) refl)
                    | inr (v, fits) ↦
                        rw (here, called, fits, classify)
                          (verdict-Judged shard_id req _ _ huge home)
                  ]
            ]
      ]

  pays : (x b : Bool) → (x && not b) ≡ false → (not x || b) ≡ true
  pays true true h = refl
  pays true false h = cc
  pays false b h = refl

  dispatch-Handled :
      (n : Node) (s : l.inner.State) (req : TxSubmitRequest) (value : ℤ) (gas : ℕ) (v : Verdict)
      (huge : Bool)
      → min_gas_limit ≤ gas
      → gas ≤ max_gas_limit
      → IsHome n.chain.shard_id req.from
      → Judged n.chain.shard_id req huge v
      → Handled
          (λ a amount. can_debit l.db (l.as_db s) a amount (get_locked_amount n.chain.funds a))
          huge
          n
          (dispatch l new_uuid n s req value gas v).1
          (dispatch l new_uuid n s req value gas v).0
  unfolding dispatch admit_local forwarded_tx local_tx to_big_int
  dispatch-Handled n s req value gas stays huge lo hi from to =
      elim (Bool-cases (
        ltb_ℤ (pos 0) value
        && not (
            can_debit l.db (l.as_db s) req.from value
              (get_locked_amount n.chain.funds req.from)))) [
                | inl poor ↦ rw (poor, dispatch) refl
                | inr able ↦
                    rw (able, dispatch) (lo, hi, from, to, pays (ltb_ℤ (pos 0) value) _ able, refl)
              ]
  dispatch-Handled n s req value gas (fails err) huge lo hi from to = refl
  dispatch-Handled n s req value gas (crosses addrs) huge lo hi from placed =
      (lo, hi, from, refl, placed, refl)
  dispatch-Handled n s req value gas panics huge lo hi from is = (is, refl)

  -- The gas limit that is checked and used
  abbrev gas_of : TxSubmitRequest → ℕ
  gas_of req = if req.gas == 0 then default_gas_limit else req.gas

  handle_tx_submit-Handled :
      (n : Node) (s : l.inner.State) (req : TxSubmitRequest) (huge : Bool)
      → huge ≡ is_huge l req
      → Handled
          (λ a amount.
            can_debit l.db
              (l.as_db (handle_tx_submit l new_uuid n s req).1)
              a
              amount
              (get_locked_amount n.chain.funds a))
          huge
          n
          (handle_tx_submit l new_uuid n s req).0.1
          (handle_tx_submit l new_uuid n s req).0.0
  unfolding handle_tx_submit
  handle_tx_submit-Handled n s req huge is = elim (Option-cases req.value) [
    | inl missing ↦ rw (missing, handle_tx_submit) refl
    | inr (value, given) ↦ elim (Bool-cases (ltb (gas_of req) min_gas_limit)) [
      | inl low ↦ rw (given, low, handle_tx_submit) refl
      | inr enough ↦ elim (Bool-cases (ltb max_gas_limit (gas_of req))) [
        | inl high ↦ rw (given, enough, high, handle_tx_submit) refl
        | inr bounded ↦ elim (Bool-cases (address_shard num_shards req.from == n.chain.shard_id)) [
          | inr away ↦ rw (given, enough, bounded, away, handle_tx_submit) refl
          | inl home ↦
              let c = classify l new_uuid n.chain.shard_id s req value (gas_of req) in
              rw (given, enough, bounded, home, handle_tx_submit)
                (dispatch-Handled n c.1 req value (gas_of req) c.0 huge (ground arith)
                  (ground arith) (eq→≡ (address_shard num_shards req.from) n.chain.shard_id home)
                  (classify-Judged n.chain.shard_id s req value (gas_of req) huge given is))
        ]
      ]
    ]
  ]

  -- The simulation leaves no trace in the accounts.
  classify_undone :
      (shard_id : ℤ) (s : l.inner.State) (req : TxSubmitRequest) (value : ℤ) (gas : ℕ)
      → Undoes l
      → (classify l new_uuid shard_id s req value gas).1 ≡ s
  unfolding classify simulate_call
  classify_undone shard_id s req value gas undoes =
      elim (Bool-cases (address_shard num_shards req.to == shard_id)) [
        | inr away ↦ rw (away, classify) refl
        | inl here ↦
            elim (Bool-cases (ltb 0 (length (l.get_code s req.to)) && ltb 0 (length req.payload))) [
              | inr plain ↦ rw (here, plain, classify) refl
              | inl called ↦ elim (Option-cases (l.db.must_from_big value)) [
                | inl huge ↦ rw (here, called, huge, classify) refl
                | inr (v, fits) ↦
                    rw (here, called, fits, classify)
                      (undoes s shard_id req.from req.to req.payload _ v)
              ]
            ]
      ]

  handle_tx_submit_undone :
      (n : Node) (s : l.inner.State) (req : TxSubmitRequest)
      → Undoes l
      → (handle_tx_submit l new_uuid n s req).1 ≡ s
  unfolding handle_tx_submit
  handle_tx_submit_undone n s req undoes = elim (Option-cases req.value) [
    | inl missing ↦ rw (missing, handle_tx_submit) refl
    | inr (value, given) ↦ elim (Bool-cases (ltb (gas_of req) min_gas_limit)) [
      | inl low ↦ rw (given, low, handle_tx_submit) refl
      | inr enough ↦ elim (Bool-cases (ltb max_gas_limit (gas_of req))) [
        | inl high ↦ rw (given, enough, high, handle_tx_submit) refl
        | inr bounded ↦ elim (Bool-cases (address_shard num_shards req.from == n.chain.shard_id)) [
          | inr away ↦ rw (given, enough, bounded, away, handle_tx_submit) refl
          | inl home ↦
              rw (given, enough, bounded, home, handle_tx_submit)
                (classify_undone n.chain.shard_id s req value (gas_of req) undoes)
        ]
      ]
    ]
  ]

  -- If a revert to a snapshot restores the state at it, a submission leaves the account state as it
  -- was, and ends in one of four ways. It is forwarded with the chain unchanged; or it is queued on the
  -- chain; or it panics, which takes a value beyond 256 bits, with the chain unchanged and no id drawn;
  -- or it is refused, with the chain unchanged and no id drawn. In the first two cases its gas is
  -- within the limits and its sender belongs to this shard. A forwarded transaction names this shard as
  -- its source, and every address in its RwSet under its own shard. A queued one has its receiver on
  -- this shard, and a positive value is covered by the sender's balance without the locked funds.
  pub handle_tx_submit_lem :
      (n : Node) (s : l.inner.State) (req : TxSubmitRequest)
      → Undoes l
      → let ((outcome, n'), s') = handle_tx_submit l new_uuid n s req in
        (s' ≡ s)
        × Handled
            (λ a amount. can_debit l.db (l.as_db s) a amount (get_locked_amount n.chain.funds a))
            (is_huge l req)
            n
            n'
            outcome
  handle_tx_submit_lem n s req undoes =
      let same = handle_tx_submit_undone n s req undoes in
      (same, rw same at (handle_tx_submit-Handled n s req (is_huge l req) refl))
