-- ===== src/Handover/Tests.antt =====
-- A simulation that reads slot 1 of account 6 and writes slot 3 of account 2, validated on shard 6,
-- where each slot holds its number plus one.
use test_v.Prelude.{ℕ, ◌+◌, ◌≡◌, refl, inl, List, [], ◌∷◌, some, nat_key}
use test_v.Prelude.Int.{pos}
use test_v.Prelude.Maps.{lookup, insert}
use test_v.Protocol.{Address, Hash}
use test_v.Orchestrator.Simulation.{Host, SimulationState, new_simulation, get_or_fetch_account}
use test_v.Orchestrator.Simulation.Storage.{Op, attempt, step, run, get_state, set_state}
use test_v.Orchestrator.Simulation.RwSets.{build_rw_set}
use test_v.Orchestrator.Simulation.Tests.{shards}
use test_v.Shard.SlotLocks.{SlotLocks, SlotKey, locking, lock_rw_set}
use test_v.Shard.SlotLocks.Holder.{holder}
use test_v.Shard.Node.{local_rw_set}
use test_v.Handover.{simulated_rw_set_granted}

abbrev storage : Address → Hash → Hash
storage a s = s + 1

abbrev word : List ℕ → Hash
word [] = 0
word (b ∷ bs) = b

abbrev steady : Host
steady = record shards { get_storage_at = λ requests id shard a t. (requests + 1, some (t + 1)) }

abbrev ops : List (Op steady)
ops = Op.reading 6 1 ∷ Op.writing 2 3 7 ∷ []

abbrev end : SimulationState steady
end = (set_state steady (get_state steady (new_simulation steady "t1" 0) 6 1).1 2 3 7).1

simulated_rw_set_granted_example :
    (l' : SlotLocks) × (held : List SlotKey) × (lock_rw_set storage word "t1"
        (local_rw_set (pos 6) (build_rw_set steady end))
        []
        []
      ≡ locking l' held)
unfolding run step attempt holder lookup get_state new_simulation get_or_fetch_account set_state
    insert
simulated_rw_set_granted_example =
    simulated_rw_set_granted storage word steady "t1" "t1" 0 ops end (pos 6) [] (λ v. refl)
      (λ f id shard a s. refl) refl (λ b r. inl refl)
