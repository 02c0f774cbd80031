-- ===== src/Shard/Submit.antt =====
-- internal/shard/server.go, `handleTxSubmit` and `forwardToOrchestrator`, and `SimulateCall` of
-- internal/shard/evm.go: how a submitted transaction is checked, and whether it runs on this shard or
-- goes to the orchestrator. The decoding of the request and the orchestrator's answer are left out.
pub mod Routing
pub mod Local
mod Tests
use test_v.Prelude.{
  ℕ, ◌+◌, Bool, true, false, not, ◌&&◌, ◌||◌, List, [], ◌∷◌, Option, none, some, String, nat_key,
  ◌==◌, if◌then◌else◌, ltb, leb,
}
use test_v.Prelude.Lists.{length}
use test_v.Prelude.Int.{ℤ, pos, ltb_ℤ, int_key}
use test_v.Prelude.Maps.{Map, insert}
use test_v.Protocol.{
  Address, TxId, RwVariable, Transaction, TxType, TxStatus, SimulationStatus, CrossShardTx,
}
use test_v.Shard.FundLocks.{get_locked_amount}
use test_v.Shard.Evm.{StateDb, can_debit}
use test_v.Shard.Chain.{add_tx}
use test_v.Shard.Node.{Node, num_shards}
use test_v.Shard.Tracking.{
  Inner, TrackingState, new_tracking, get_accessed_addresses, has_cross_shard_access,
  foreign_shards, address_shard,
}

abbrev pub min_gas_limit : ℕ
min_gas_limit = 21000

abbrev pub default_gas_limit : ℕ
default_gas_limit = 1000000

abbrev pub max_gas_limit : ℕ
max_gas_limit = 30000000

abbrev pub simulation_gas_limit : ℕ
simulation_gas_limit = 3000000

-- The request once decoded. `none` is a value that is no number; no value at all is zero.
pub record TxSubmitRequest : Type 0 where
  pub from : Address
  pub to : Address
  pub value : Option ℤ
  pub payload : List ℕ
  pub gas : ℕ

-- What the code calls of go-ethereum's state and EVM, and of the string library.
pub record Library : Type 1 where
  pub inner : Inner
  pub db : StateDb
  -- the same database, as the rest of the shard uses it
  pub as_db : inner.State → db.State
  pub get_code : inner.State → Address → List ℕ
  pub snapshot : inner.State → inner.State × ℕ
  pub revert : inner.State → ℕ → inner.State
  -- `evm.Call` on the wrapper by caller, contract, input, gas and value; an error is its text.
  pub call :
      TrackingState inner → Address → Address → List ℕ → ℕ → ℕ → TrackingState inner × Option String
  pub contains_text : String → String → Bool
  pub to_lower : String → String
  pub text_length : String → ℕ

pub data Outcome : Type 0 where
  invalid_value gas_below_minimum gas_above_maximum wrong_shard insufficient panicked : Outcome
  local_error : String → Outcome
  forwarded : CrossShardTx → Outcome
  queued : Transaction → Outcome

-- What the simulation of a contract call says
pub data Verdict : Type 0 where
  stays : Verdict
  fails : String → Verdict
  crosses : Map Address ℤ → Verdict
  panics : Verdict

-- The loop of `forwardToOrchestrator` that builds the RwSet
pub variables_of : Map Address ℤ → List RwVariable
variables_of [] = []
variables_of ((addr, shard) ∷ rest) =
    record {
      address = addr;
      reference_block = record { shard_num = shard; block_hash = 0; block_height = 0 };
      read_set = [];
      write_set = [];
    }
    ∷ variables_of rest

pub forwarded_tx : ℤ → TxId → TxSubmitRequest → ℤ → ℕ → Map Address ℤ → CrossShardTx
unfolding variables_of
forwarded_tx shard_id id req value gas addrs = record {
  id = id;
  tx_hash = 0;
  from_shard = shard_id;
  from = req.from;
  to = req.to;
  value = some value;
  gas = gas;
  payload = req.payload;
  rw_set = variables_of addrs;
  status = TxStatus.unset;
  sim_status = SimulationStatus.unset;
  sim_error = "";
}

pub local_tx : TxId → TxSubmitRequest → ℤ → ℕ → Transaction
local_tx id req value gas = record {
  id = id;
  tx_hash = 0;
  from = req.from;
  to = req.to;
  value = some value;
  gas = gas;
  payload = req.payload;
  is_cross_shard = false;
  tx_type = TxType.local;
  cross_shard_tx_id = "";
  rw_set = [];
  error = "";
}

module _ (l : Library) (new_uuid : ℕ → String) where
  contains_ignore_case : String → String → Bool
  contains_ignore_case s substr = l.contains_text (l.to_lower s) (l.to_lower substr)

  pub is_definite_local_error : String → Bool
  unfolding contains_ignore_case
  is_definite_local_error err =
      any_of
        ("insufficient balance" ∷ "insufficient funds" ∷ "nonce too low" ∷ "nonce too high" ∷ [])
    where
      any_of : List String → Bool
      any_of [] = false
      any_of (e ∷ es) =
          (leb (l.text_length e) (l.text_length err) && contains_ignore_case err e) || any_of es

  -- `SimulateCall`: the wrapper after the call, the database after the revert, and the error. `none`
  -- is the panic of a value beyond 256 bits.
  pub simulate_call :
      l.inner.State
      → Address
      → Address
      → List ℕ
      → ℤ
      → ℕ
      → ℤ
      → Option (TrackingState l.inner × (l.inner.State × Option String))
  simulate_call s caller contract input value gas shard_id = elim (l.db.must_from_big value) [
    | none ↦ none
    | some v ↦
        let (s', id) = l.snapshot s in
        let (t, err) =
          l.call (new_tracking l.inner s' shard_id num_shards) caller contract input gas v in
        some (t, (l.revert t.inner id, err))
  ]

  -- What the handler makes of it
  pub verdict : ℤ → Address → TrackingState l.inner → Option String → Verdict
  unfolding is_definite_local_error
  verdict shard_id to t (some err) =
      if is_definite_local_error err
      then fails err
      else crosses (insert to (address_shard num_shards to) [])
  verdict shard_id to t none =
      if has_cross_shard_access l.inner t
      then crosses
          (foreign_shards l.inner num_shards shard_id (get_accessed_addresses l.inner t) [])
      else stays

  -- The test whether the transaction concerns other shards, with the database after it.
  pub classify : ℤ → l.inner.State → TxSubmitRequest → ℤ → ℕ → Verdict × l.inner.State
  unfolding simulate_call verdict
  classify shard_id s req value gas =
      if not (address_shard num_shards req.to == shard_id)
      then (crosses (insert req.to (address_shard num_shards req.to) []), s)
      else if ltb 0 (length (l.get_code s req.to)) && ltb 0 (length req.payload)
      then (let sim_gas : ℕ = if ltb gas simulation_gas_limit then simulation_gas_limit else gas in
          elim (simulate_call s req.from req.to req.payload value sim_gas shard_id) [
            | none ↦ (panics, s)
            | some (t, (s', err)) ↦ (verdict shard_id req.to t err, s')
          ])
      else (stays, s)

  -- The rest of the handler for a local transaction
  pub admit_local : Node → l.inner.State → TxSubmitRequest → ℤ → ℕ → Outcome × Node
  unfolding local_tx
  admit_local n s req value gas =
      if ltb_ℤ (pos 0) value
        && not
            (can_debit l.db (l.as_db s) req.from value (get_locked_amount n.chain.funds req.from))
      then (insufficient, n)
      else (let tx = local_tx (new_uuid n.drawn) req value gas in
          (queued tx, record { chain = add_tx n.chain tx; drawn = n.drawn + 1 }))

  -- The rest of the handler, by the verdict
  pub dispatch : Node → l.inner.State → TxSubmitRequest → ℤ → ℕ → Verdict → Outcome × Node
  unfolding admit_local forwarded_tx
  dispatch n s req value gas stays = admit_local n s req value gas
  dispatch n s req value gas (fails err) = (local_error err, n)
  dispatch n s req value gas (crosses addrs) = (
    forwarded (forwarded_tx n.chain.shard_id (new_uuid n.drawn) req value gas addrs),
    record n { drawn = n.drawn + 1 },
  )
  dispatch n s req value gas panics = (panicked, n)

  -- `handleTxSubmit`
  unfoldable pub handle_tx_submit :
      Node → l.inner.State → TxSubmitRequest → (Outcome × Node) × l.inner.State
  unfolding classify dispatch
  handle_tx_submit n s req = elim req.value [
    | none ↦ ((invalid_value, n), s)
    | some value ↦
        let gas : ℕ = if req.gas == 0 then default_gas_limit else req.gas in
        if ltb gas min_gas_limit
        then ((gas_below_minimum, n), s)
        else if ltb max_gas_limit gas
        then ((gas_above_maximum, n), s)
        else if not (address_shard num_shards req.from == n.chain.shard_id)
        then ((wrong_shard, n), s)
        else (let (v, s') = classify n.chain.shard_id s req value gas in
            (dispatch n s' req value gas v, s'))
  ]
