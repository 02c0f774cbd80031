-- ===== src/Shard/Submit/Local.antt =====
-- A contract call that stays on its shard touched only this shard's addresses when it was simulated.
use test_v.Prelude.{
  ℕ, ◌≡◌, refl, sym, ◌∙◌, inl, inr, Bool, true, false, ◌&&◌, List, Option, none, some, String,
  nat_key, ◌==◌, if◌then◌else◌, ltb, Bool-cases, Option-cases,
}
use test_v.Prelude.Lists.{length}
use test_v.Prelude.Int.{ℤ, int_key}
use test_v.Prelude.Maps.{Map}
use test_v.Protocol.{Address, Transaction}
use test_v.Shard.Node.{Node, num_shards}
use test_v.Shard.Tracking.{
  TrackingState, StateCall, new_tracking, has_cross_shard_access, tracked_run, address_shard,
}
use test_v.Shard.Tracking.Accesses.{touches_foreign, has_cross_shard_access_lem}
use test_v.Shard.Submit.{
  Library, TxSubmitRequest, Outcome, queued, Verdict, stays, fails, crosses, panics,
  is_definite_local_error, simulate_call, verdict, classify, dispatch, handle_tx_submit,
  min_gas_limit, max_gas_limit, default_gas_limit, simulation_gas_limit,
}

-- go-ethereum's EVM touches the state through the wrapper's methods only: a call amounts to a run of
-- them.
abbrev pub ThroughWrapper : Library → Type 0
ThroughWrapper l =
    (t : TrackingState l.inner) (caller contract : Address) (input : List ℕ) (gas v : ℕ)
    → (calls : List (StateCall l.inner.Log)) × ((l.call t caller contract input gas v).0
        ≡ (tracked_run l.inner t calls).1)

abbrev pub gas_of : TxSubmitRequest → ℕ
gas_of req = if req.gas == 0 then default_gas_limit else req.gas

abbrev pub simulated_gas : TxSubmitRequest → ℕ
simulated_gas req =
    if ltb (gas_of req) simulation_gas_limit then simulation_gas_limit else gas_of req

module _ (l : Library) (new_uuid : ℕ → String) where
  dispatch_stays :
      (n : Node) (s : l.inner.State) (req : TxSubmitRequest) (value : ℤ) (gas : ℕ) (v : Verdict)
      (tx : Transaction)
      → (dispatch l new_uuid n s req value gas v).0 ≡ queued tx
      → v ≡ stays
  unfolding dispatch
  dispatch_stays n s req value gas stays tx h = refl
  dispatch_stays n s req value gas (fails err) tx h = cc
  dispatch_stays n s req value gas (crosses addrs) tx h = cc
  dispatch_stays n s req value gas panics tx h = cc

  no_error :
      (b : Bool) (e : String) (m : Map Address ℤ) → (if b then fails e else crosses m) ≡ stays → ⊥
  no_error true e m h = cc
  no_error false e m h = cc

  no_cross : (b : Bool) (m : Map Address ℤ) → (if b then crosses m else stays) ≡ stays → b ≡ false
  no_cross true m h = cc
  no_cross false m h = refl

  verdict_stays :
      (shard_id : ℤ) (to : Address) (t : TrackingState l.inner) (err : Option String)
      → verdict l new_uuid shard_id to t err ≡ stays
      → has_cross_shard_access l.inner t ≡ false
  unfolding verdict
  verdict_stays shard_id to t (some err) h =
      elim (no_error (is_definite_local_error l new_uuid err) err _ h) [ ]
  verdict_stays shard_id to t none h = no_cross (has_cross_shard_access l.inner t) _ h

  no_panic : panics ≡ stays → ⊥
  no_panic h = cc

  no_way : (m : Map Address ℤ) → crosses m ≡ stays → ⊥
  no_way m h = cc

  -- The simulation behind a call that stays
  classify_stays :
      (shard_id : ℤ) (s : l.inner.State) (req : TxSubmitRequest) (value : ℤ) (gas : ℕ)
      → (ltb 0 (length (l.get_code s req.to)) && ltb 0 (length req.payload)) ≡ true
      → (classify l new_uuid shard_id s req value gas).0 ≡ stays
      → let sim_gas : ℕ = if ltb gas simulation_gas_limit then simulation_gas_limit else gas in
        (v : ℕ) × (l.db.must_from_big value ≡ some v)
        × (has_cross_shard_access l.inner
              (l.call
                (new_tracking l.inner (l.snapshot s).0 shard_id num_shards)
                req.from
                req.to
                req.payload
                sim_gas
                v).0
            ≡ false)
  unfolding classify simulate_call
  classify_stays shard_id s req value gas contract h =
      elim (Bool-cases (address_shard num_shards req.to == shard_id)) [
        | inr away ↦ elim (no_way _ (rw (away, classify) at h)) [ ]
        | inl here ↦ elim (Option-cases (l.db.must_from_big value)) [
          | inl big ↦ elim (no_panic (rw (contract, here, big, classify) at h)) [ ]
          | inr (v, small) ↦ (
            v,
            small,
            verdict_stays shard_id req.to _ _ (rw (contract, here, small, classify) at h),
          )
        ]
      ]

  -- The verdict on a transaction that is queued
  queued_verdict :
      (n : Node) (s : l.inner.State) (req : TxSubmitRequest) (value : ℤ) (tx : Transaction)
      → req.value ≡ some value
      → (handle_tx_submit l new_uuid n s req).0.0 ≡ queued tx
      → (classify l new_uuid n.chain.shard_id s req value (gas_of req)).0 ≡ stays
  unfolding handle_tx_submit
  queued_verdict n s req value tx given h = elim (Bool-cases (ltb (gas_of req) min_gas_limit)) [
    | inl low ↦ elim (refused _ (λ e. cc) (rw (given, low, handle_tx_submit) at h)) [ ]
    | inr enough ↦ elim (Bool-cases (ltb max_gas_limit (gas_of req))) [
      | inl high ↦ elim (refused _ (λ e. cc) (rw (given, enough, high, handle_tx_submit) at h)) [ ]
      | inr bounded ↦ elim (Bool-cases (address_shard num_shards req.from == n.chain.shard_id)) [
        | inr away ↦
            elim (refused _ (λ e. cc)
              (rw (given, enough, bounded, away, handle_tx_submit) at h)) [ ]
        | inl home ↦
            let c = classify l new_uuid n.chain.shard_id s req value (gas_of req) in
            dispatch_stays n c.1 req value (gas_of req) c.0 tx
              (rw (given, enough, bounded, home, handle_tx_submit) at h)
      ]
    ]
  ]
    where
      refused : (o : Outcome) → (o ≡ queued tx → ⊥) → o ≡ queued tx → ⊥
      refused o clash e = clash e

  -- If the EVM works through the wrapper, and a submitted call of a contract with data is queued on this
  -- shard, then none of the calls that the EVM made in its simulation touched an address of another
  -- shard.
  pub queued_call_stays :
      (n : Node) (s : l.inner.State) (req : TxSubmitRequest) (value : ℤ) (tx : Transaction)
      → ThroughWrapper l
      → req.value ≡ some value
      → (ltb 0 (length (l.get_code s req.to)) && ltb 0 (length req.payload)) ≡ true
      → (handle_tx_submit l new_uuid n s req).0.0 ≡ queued tx
      → let start = new_tracking l.inner (l.snapshot s).0 n.chain.shard_id num_shards in
        (v : ℕ) × (calls : List (StateCall l.inner.Log)) × (l.db.must_from_big value ≡ some v)
        × ((l.call start req.from req.to req.payload (simulated_gas req) v).0
            ≡ (tracked_run l.inner start calls).1)
        × (touches_foreign num_shards n.chain.shard_id calls ≡ false)
  queued_call_stays n s req value tx through given contract h =
      let shard_id = n.chain.shard_id in
      let start = new_tracking l.inner (l.snapshot s).0 shard_id num_shards in
      let (v, small, none_foreign) =
        classify_stays shard_id s req value (gas_of req) contract
          (queued_verdict n s req value tx given h) in
      let (calls, ran) = through start req.from req.to req.payload (simulated_gas req) v in
      (
        v,
        calls,
        small,
        ran,
        sym (has_cross_shard_access_lem l.inner (l.snapshot s).0 shard_id num_shards calls)
            ∙ rw (sym ran) none_foreign,
      )
