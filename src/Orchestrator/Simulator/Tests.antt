-- ===== src/Orchestrator/Simulator/Tests.antt =====
-- A simulator over the shards of the tests of the simulation's state. One EVM reads slot 1 of its
-- target and writes slot 3; the other fetches an account that is not available.
use test_v.Prelude.{
  ℕ, ◌-◌, ◌≡◌, refl, inl, Option, String, true, false, List, [], ◌∷◌, none, some, nat_key,
  string_key,
}
use test_v.Prelude.Int.{pos}
use test_v.Prelude.Maps.{lookup}
use test_v.Protocol.{Address, CrossShardTx, TxStatus, SimulationStatus}
use test_v.Orchestrator.AccessList.{new_access_list, add_address}
use test_v.Orchestrator.Simulation.{
  SimulationState, new_simulation, get_or_fetch_account, cache_account,
}
use test_v.Orchestrator.Simulation.Storage.{
  Op, attempt, step, run, prepare, add_tuples, add_addresses,
}
use test_v.Orchestrator.Simulation.Tests.{shards}
use test_v.Orchestrator.Simulator.{
  Machine, Simulator, Callback, gas_limit, submit, run_simulation, pending_result,
}
use test_v.Orchestrator.Simulator.Outcomes.{Failure, run_simulation_unavailable}
use test_v.Orchestrator.Simulator.Submitting.{Ended, begun, submit_lem}

-- A contract that reads slot 1 and writes slot 3
abbrev ops_of : Address → List (Op shards)
ops_of to = Op.reading to 1 ∷ Op.writing to 3 7 ∷ []

abbrev returned :
    ℕ → Option (SimulationState shards) → Option (SimulationState shards × (ℕ × Option String))
returned left none = none
returned left (some s) = some (s, (left, none))

abbrev evm : Machine shards
evm = record {
  call = λ s from to input gas v. returned (gas - 100) (run shards s (ops_of to));
  from_big = λ v. 0;
  clear_cache = λ requests id. requests;
}

abbrev lost_evm : Machine shards
lost_evm = record {
  call = λ s from to input gas v. some ((get_or_fetch_account shards s 13).1, (gas, none));
  from_big = λ v. 0;
  clear_cache = λ requests id. requests;
}

abbrev job : CrossShardTx
job = record {
  id = "t1";
  tx_hash = 0;
  from_shard = pos 0;
  from = 256;
  to = 257;
  value = some (pos 5);
  gas = 0;
  payload = 9 ∷ [];
  rw_set = [];
  status = TxStatus.pending;
  sim_status = SimulationStatus.pending;
  sim_error = "";
}

abbrev idle : Simulator shards
idle = record { fetcher = 0; queue = []; results = []; has_on_error = true; closed = false }

abbrev prepared : SimulationState shards
prepared = record (new_simulation shards "t1" 0) {
  access_list = (add_address (add_address new_access_list 256).0 0).0;
}

run_simulation_unavailable_example :
    (s' : Simulator shards) × (calls : List Callback) × (run_simulation shards lost_evm 5 idle job
      ≡ some (s', calls))
    × Failure shards s' calls job
unfolding new_simulation prepare add_tuples add_addresses run step attempt gas_limit
    get_or_fetch_account cache_account lookup
run_simulation_unavailable_example =
    run_simulation_unavailable shards lost_evm 5 idle job prepared
      (get_or_fetch_account shards prepared 13).1 (get_or_fetch_account shards prepared 13).1
      (Op.fetching 13 ∷ []) [] 1000000 none "shard 5 is down" refl refl (inl refl) refl refl

submit_lem_example :
    Ended shards idle
      (begun shards 5 idle job)
      (begun shards 5 idle job)
      job
      (submit shards 5 (λ s. s) (λ s. s) idle job)
submit_lem_example = submit_lem shards 5 (λ s. s) (λ s. s) idle job

abbrev answered : Simulator shards
answered = record idle { results = ("t1", pending_result "t1" 5) ∷ [] }
