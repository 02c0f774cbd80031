-- ===== src/Orchestrator/Simulator/Outcomes.antt =====
-- internal/orchestrator/simulator.go, `runSimulation`: what a simulation ends in.
use test_v.Prelude.{
  ℕ, ◌+◌, ◌-◌, u64, ◌≡◌, refl, inl, inr, true, not, ◌||◌, List, [], ◌∷◌, Option, none, some, String,
  if◌then◌else◌, is_some, string_key, Option-cases,
}
use test_v.Prelude.Lists.{In}
use test_v.Prelude.Maps.{lookup, lookup-insert_self}
use test_v.Protocol.{Address, Hash, TxId, SimulationStatus, RwVariable, CrossShardTx, to_big_int}
use test_v.Orchestrator.Simulation.{Host, SimulationState, new_simulation}
use test_v.Orchestrator.Simulation.Storage.{Op, run, prepare}
use test_v.Protocol.RwSets.{read_at, written_at}
use test_v.Orchestrator.Simulation.Tracked.{IsTracked}
use test_v.Orchestrator.Simulation.Preparing.{prepare-IsTracked}
use test_v.Orchestrator.Simulation.Runs.{run-reached}
use test_v.Orchestrator.Simulator.{
  Machine, Simulator, SimulationResult, Callback, succeeded, failed, mark_running, target_address,
  gas_limit, first_error, simulate, finish, run_simulation, get_result,
}

abbrev pub state_of :
    {h : Host} → Option (SimulationState h × (ℕ × Option String)) → Option (SimulationState h)
state_of none = none
state_of (some r) = some r.0

-- go-ethereum's EVM touches the state through the `vm.StateDB` interface only, and does not panic by
-- itself: from any state a call amounts to a run of its operations, and panics if one of them does.
abbrev pub Interface : {h : Host} → Machine h → Type 0
Interface {h} m =
    (s : SimulationState h) (from to : Address) (input : List ℕ) (gas value : ℕ)
    → (ops : List (Op h)) × (run h s ops ≡ state_of (m.call s from to input gas value))

-- A simulation that has succeeded: its RwSet is filed and handed on with the transaction, and reads
-- every slot that it writes.
pub record Success (h : Host) (s : Simulator h) (calls : List Callback) (tx : CrossShardTx)
    : Type 0 where
  pub gas : ℕ
  pub rw_set : List RwVariable
  pub result : SimulationResult
  pub filed : get_result h s tx.id ≡ some result
  pub status : result.status ≡ SimulationStatus.success
  pub same_set : result.rw_set ≡ rw_set
  pub called : calls ≡ succeeded (record tx { rw_set = rw_set; gas = gas }) ∷ []
  pub locks :
      (a : Address) (t : Hash)
      → (not (is_some (written_at rw_set a t)) || is_some (read_at rw_set a t)) ≡ true

-- One that has failed: the error is filed and handed on, with no RwSet.
pub record Failure (h : Host) (s : Simulator h) (calls : List Callback) (tx : CrossShardTx)
    : Type 0 where
  pub error : String
  pub result : SimulationResult
  pub filed : get_result h s tx.id ≡ some result
  pub status : result.status ≡ SimulationStatus.failed
  pub no_set : result.rw_set ≡ []
  pub reason : result.error ≡ error
  pub called : calls ≡ (
      if s.has_on_error
      then failed (record tx { sim_status = SimulationStatus.failed; sim_error = error }) ∷ []
      else [])

module _ (h : Host) (m : Machine h) where
  mark_running-fetcher : (s : Simulator h) (id : TxId) → (mark_running h s id).fetcher ≡ s.fetcher
  unfolding mark_running
  mark_running-fetcher s id = elim (Option-cases (lookup id s.results)) [
    | inl missing ↦ rw (missing, mark_running) refl
    | inr (r, there) ↦ rw (there, mark_running) refl
  ]

  first_error-In :
      (s : SimulationState h) (error : Option String) (e : String)
      → In e s.fetch_errors
      → (x : String) × (first_error h s error ≡ some x)
  unfolding first_error
  first_error-In s error e there = go s.fetch_errors there
    where
      go :
          (es : List String)
          → In e es
          → (x : String) × (elim es [ [] ↦ error | e' ∷ rest ↦ some e' ] ≡ some x)
      go [] there = elim there [ ]
      go (x ∷ es) there = (x, refl)

  finish-Failure :
      (now : ℕ) (s : Simulator h) (tx : CrossShardTx) (state : SimulationState h) (gas : ℕ)
      (e : String)
      → let (s', calls) = finish h m now s tx state gas (some e) in Failure h s' calls tx
  unfolding finish get_result
  finish-Failure now s tx state gas e = record {
    error = e;
    result = _;
    filed = lookup-insert_self tx.id _ s.results;
    status = refl;
    no_set = refl;
    reason = refl;
    called = refl;
  }

  -- The run from a prepared state whose call ends in an error
  run_simulation-error :
      (now : ℕ) (s : Simulator h) (tx : CrossShardTx) (prepared end : SimulationState h) (left : ℕ)
      (error : Option String) (x : String)
      → prepare h (new_simulation h tx.id (mark_running h s tx.id).fetcher) tx.from 0 none [] []
        ≡ some prepared
      → m.call prepared tx.from
          (target_address h tx)
          tx.payload
          (gas_limit h tx)
          (m.from_big (to_big_int tx.value))
        ≡ some (end, (left, error))
      → first_error h end error ≡ some x
      → run_simulation h m now s tx
        ≡ some (
            finish h m now
              (mark_running h s tx.id)
              tx
              end
              (u64 (gas_limit h tx + 18446744073709551616 - left))
              (some x))
  unfolding run_simulation simulate
  run_simulation-error now s tx prepared end left error x p called first =
      rw (run_simulation, p, called, first) refl

  -- If a fetch of an account fails at any moment of the EVM's run, and its error is thus recorded in
  -- `fetchErrors`, the simulation fails: neither what the EVM does afterwards, reverts included, nor
  -- the result that it returns makes up for it. The EVM's run is one of its interface and returns.
  -- (A failed request for a slot records no error, see `get_state_lost`.)
  pub run_simulation_unavailable :
      (now : ℕ) (s : Simulator h) (tx : CrossShardTx) (prepared mid end : SimulationState h)
      (before after : List (Op h)) (left : ℕ) (error : Option String) (e : String)
      → prepare h (new_simulation h tx.id s.fetcher) tx.from 0 none [] [] ≡ some prepared
      → run h prepared before ≡ some mid
      → In e mid.fetch_errors
      → m.call prepared tx.from
          (target_address h tx)
          tx.payload
          (gas_limit h tx)
          (m.from_big (to_big_int tx.value))
        ≡ some (end, (left, error))
      → run h mid after ≡ some end
      → (s' : Simulator h) × (calls : List Callback) × (run_simulation h m now s tx
          ≡ some (s', calls))
        × Failure h s' calls tx
  run_simulation_unavailable now s tx prepared mid end before after left error e p b there called
        a =
      let (p', pe, calm, q) = prepare-IsTracked h tx.id s.fetcher tx.from 0 none [] [] in
      let is_prepared : p' ≡ prepared = same_prepared p' pe in
      let tracked : IsTracked h mid =
        (run-reached h prepared mid before (rw is_prepared at q) b).0 in
      let still : In e end.fetch_errors = (run-reached h mid end after tracked a).1 e there in
      let (x, first) = first_error-In end error e still in
      (
        _,
        _,
        run_simulation-error now s tx prepared end left error x
            (rw (mark_running-fetcher s tx.id) p) called first,
        finish-Failure now (mark_running h s tx.id) tx end _ x,
      )
    where
      same_prepared :
          (p' : SimulationState h)
          → prepare h (new_simulation h tx.id s.fetcher) tx.from 0 none [] [] ≡ some p'
          → p' ≡ prepared
      same_prepared p' pe = cc
