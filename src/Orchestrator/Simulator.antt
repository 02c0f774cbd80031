-- ===== src/Orchestrator/Simulator.antt =====
-- internal/orchestrator/simulator.go: the jobs, results and callbacks of simulations. The channel
-- is a list of at most 100 jobs; times are numbers of seconds. A submission is two steps, since the
-- worker and other callers run between its first lock and its send.
mod Outcomes
mod Submitting
mod Tests
use test_v.Prelude.{
  ℕ, ◌+◌, ◌-◌, Bool, true, false, not, List, [], ◌∷◌, ◌++◌, Option, none, some, String, ltb, leb,
  u64, nat_key, string_key, ◌==◌, if◌then◌else◌,
}
use test_v.Prelude.Int.{ℤ}
use test_v.Prelude.Lists.{length}
use test_v.Prelude.Maps.{Map, lookup, insert}
use test_v.Protocol.{Address, TxId, SimulationStatus, RwVariable, CrossShardTx, to_big_int}
use test_v.Orchestrator.Simulation.{Host, SimulationState, new_simulation}
use test_v.Orchestrator.Simulation.Storage.{prepare}
use test_v.Orchestrator.Simulation.RwSets.{build_rw_set}

pub record SimulationResult : Type 0 where
  pub tx_id : TxId
  pub status : SimulationStatus
  pub rw_set : List RwVariable
  pub gas_used : ℕ
  pub error : String
  pub created_at : ℕ

-- What the code calls of go-ethereum's EVM, of uint256 and of the fetcher
pub record Machine (h : Host) : Type 0 where
  -- `evm.Call` by caller, contract, input, gas and value: the state after it, the gas left, and the
  -- error if there is one; `none` is a panic.
  pub call :
      SimulationState h
      → Address
      → Address
      → List ℕ
      → ℕ
      → ℕ
      → Option (SimulationState h × (ℕ × Option String))
  -- `uint256.FromBig`, without its overflow flag
  pub from_big : ℤ → ℕ
  pub clear_cache : h.State → TxId → h.State

pub record Simulator (h : Host) : Type 0 where
  pub fetcher : h.State
  pub queue : List CrossShardTx
  pub results : Map TxId SimulationResult
  pub has_on_error : Bool
  -- `closing`, and the channel is closed
  pub closed : Bool

-- `onSuccess` and `onError` calls
pub data Callback : Type 0 where
  succeeded : CrossShardTx → Callback
  failed : CrossShardTx → Callback

abbrev pub queue_size : ℕ
queue_size = 100

abbrev pub result_ttl : ℕ
result_ttl = 600

pub pending_result : TxId → ℕ → SimulationResult
pending_result tx_id now = record {
  tx_id = tx_id;
  status = SimulationStatus.pending;
  rw_set = [];
  gas_used = 0;
  error = "";
  created_at = now;
}

-- What `Submit` tells its caller
pub data Submitted : Type 0 where
  accepted shutting_down queue_full : Submitted

module _ (h : Host) where
  -- The first part of `Submit`: the check and the pending result. `false` is the error that the
  -- simulator is shutting down.
  unfoldable pub begin_submit : ℕ → Simulator h → CrossShardTx → Simulator h × Bool
  unfolding pending_result
  begin_submit now s tx =
      if s.closed
      then (s, false)
      else (record s { results = insert tx.id (pending_result tx.id now) s.results }, true)

  -- The select of the send and its timeout at the moment that it chooses: a full channel leaves the
  -- timeout, `false`, and `none` is the panic of a send to a closed channel.
  unfoldable pub enqueue : Simulator h → CrossShardTx → Option (Simulator h × Bool)
  enqueue s tx =
      if s.closed
      then none
      else if ltb (length s.queue) queue_size
      then some (record s { queue = s.queue ++ tx ∷ [] }, true)
      else some (s, false)

  -- The timeout of the send; `none` is a nil dereference.
  unfoldable pub time_out : Simulator h → CrossShardTx → Option (Simulator h)
  time_out s tx = elim (lookup tx.id s.results) [
    | none ↦ none
    | some r ↦ some (record s {
      results =
          insert tx.id
            (record r { status = SimulationStatus.failed; error = "simulation queue full" })
            s.results;
    })
  ]

  -- The rest of `Submit`. `waiting` is what other goroutines do to the simulator from the timeout until
  -- the lock that follows. `none` is a panic.
  unfoldable pub send_job :
      (Simulator h → Simulator h) → Simulator h → CrossShardTx → Option (Simulator h × Submitted)
  send_job waiting s tx = elim (enqueue s tx) [
    | none ↦ none
    | some (s', sent) ↦
        if sent then some (s', Submitted.accepted) else elim (time_out (waiting s') tx) [
          | none ↦ none
          | some t ↦ some (t, Submitted.queue_full)
        ]
  ]

  -- `Submit`. `meanwhile` is what other goroutines do from its first unlock until the select chooses
  -- the send or the timeout.
  unfoldable pub submit :
      ℕ
      → (Simulator h → Simulator h)
      → (Simulator h → Simulator h)
      → Simulator h
      → CrossShardTx
      → Option (Simulator h × Submitted)
  submit now meanwhile waiting s tx =
      let (begun, accepting) = begin_submit now s tx in
      if accepting
      then send_job waiting (meanwhile begun) tx
      else some (begun, Submitted.shutting_down)

  pub set_on_error : Simulator h → Bool → Simulator h
  set_on_error s given = record s { has_on_error = given }

  -- `GetResult`; the copy that it returns has the same data.
  unfoldable pub get_result : Simulator h → TxId → Option SimulationResult
  get_result s tx_id = lookup tx_id s.results

  unfoldable pub stop : Simulator h → Simulator h
  stop s = record s { closed = true }

  -- The loop of `cleanupExpiredResults`
  pub fresh_results : ℕ → Map TxId SimulationResult → Map TxId SimulationResult
  fresh_results now [] = []
  fresh_results now ((tx_id, r) ∷ rest) =
      let later = fresh_results now rest in
      if leb result_ttl (now - r.created_at) then later else (tx_id, r) ∷ later

  unfoldable pub cleanup_expired_results : ℕ → Simulator h → Simulator h
  unfolding fresh_results
  cleanup_expired_results now s = record s { results = fresh_results now s.results }

  -- The first step of `runSimulation`: the status of a result that is there.
  unfoldable pub mark_running : Simulator h → TxId → Simulator h
  mark_running s tx_id = elim (lookup tx_id s.results) [
    | none ↦ s
    | some r ↦ record s {
      results = insert tx_id (record r { status = SimulationStatus.running }) s.results;
    }
  ]

  -- The contract called: the receiver, or the first address of the RwSet if that is zero.
  unfoldable pub target_address : CrossShardTx → Address
  target_address tx =
      if tx.to == 0 then elim tx.rw_set [ [] ↦ tx.to | v ∷ vs ↦ v.address ] else tx.to

  unfoldable pub gas_limit : CrossShardTx → ℕ
  gas_limit tx =
      if tx.gas == 0 then if ltb 0 (length tx.payload) then 1000000 else 21000 else tx.gas

  -- The error of a simulation: the first fetch error before the EVM's.
  pub first_error : SimulationState h → Option String → Option String
  first_error s exec_err = elim s.fetch_errors [ [] ↦ exec_err | e ∷ es ↦ some e ]

  module _ (m : Machine h) where
    -- The simulation itself: the state after it, the gas used and the error.
    unfoldable pub simulate :
        h.State → CrossShardTx → Option (SimulationState h × (ℕ × Option String))
    unfolding first_error
    simulate fetcher tx = elim (prepare h (new_simulation h tx.id fetcher) tx.from 0 none [] []) [
      | none ↦ none
      | some s ↦
          let gas = gas_limit tx in
          elim (m.call s tx.from (target_address tx) tx.payload gas
            (m.from_big (to_big_int tx.value))) [
              | none ↦ none
              | some (s', (gas_left, exec_err)) ↦
                  some (s', (u64 (gas + 18446744073709551616 - gas_left), first_error s' exec_err))
            ]
    ]

    failed_tx : CrossShardTx → String → CrossShardTx
    failed_tx tx e = record tx { sim_status = SimulationStatus.failed; sim_error = e }

    -- The rest of `runSimulation`: the result, the cache and the callback.
    unfoldable pub finish :
        ℕ
        → Simulator h
        → CrossShardTx
        → SimulationState h
        → ℕ
        → Option String
        → Simulator h × List Callback
    unfolding failed_tx
    finish now s tx state gas_used (some e) = (
      record s {
        fetcher = m.clear_cache state.fetcher tx.id;
        results =
            insert tx.id
              (record {
                tx_id = tx.id;
                status = SimulationStatus.failed;
                rw_set = [];
                gas_used = gas_used;
                error = e;
                created_at = now;
              })
              s.results;
      },
      if s.has_on_error then failed (failed_tx tx e) ∷ [] else [],
    )
    finish now s tx state gas_used none = (
      record s {
        fetcher = m.clear_cache state.fetcher tx.id;
        results =
            insert tx.id
              (record {
                tx_id = tx.id;
                status = SimulationStatus.success;
                rw_set = build_rw_set h state;
                gas_used = gas_used;
                error = "";
                created_at = now;
              })
              s.results;
      },
      succeeded (record tx { rw_set = build_rw_set h state; gas = gas_used }) ∷ [],
    )

    -- `runSimulation`; `none` is a panic.
    unfoldable pub run_simulation :
        ℕ → Simulator h → CrossShardTx → Option (Simulator h × List Callback)
    run_simulation now s tx =
        let s' = mark_running s tx.id in
        elim (simulate s'.fetcher tx) [
          | none ↦ none
          | some (state, (gas_used, error)) ↦ some (finish now s' tx state gas_used error)
        ]

    -- One round of `worker`, on the first job of the channel
    unfoldable pub work : ℕ → Simulator h → Option (Simulator h × List Callback)
    work now s = elim s.queue [
      | [] ↦ some (s, [])
      | tx ∷ rest ↦ run_simulation now (record s { queue = rest }) tx
    ]
