-- ===== src/Orchestrator/Simulation/Tests.antt =====
-- A simulation over a small set of shards: every account has a balance of 100, a slot's value is its
-- number plus one, slot 9 cannot be read and account 13 cannot be fetched.
use test_v.Prelude.{
  ℕ, ◌+◌, ◌%◌, ◌≡◌, refl, Bool, true, false, not, ◌||◌, ◌&&◌, List, [], ◌∷◌, Option, none, some,
  nat_key, ◌==◌, if◌then◌else◌, is_some, arith,
}
use test_v.Prelude.Int.{ℤ, pos, negsuc}
use test_v.Prelude.Lists.{length}
use test_v.Prelude.Maps.{lookup, insert}
use test_v.Prelude.Nested.{lookup2}
use test_v.Protocol.{Address}
use test_v.Orchestrator.AccessList.{AccessList, new_access_list, add_slot, contains_address}
use test_v.Orchestrator.AccessList.Index.{new-IsAccessList, slots_of}
use test_v.Orchestrator.AccessList.Warm.{Added, add_slot_lem}
use test_v.Orchestrator.Simulation.{
  Host, Fetched, fetched, unavailable, SimulationState, new_simulation, get_or_fetch_account,
  cache_account, fetched_account, fetched_balance,
}
use test_v.Orchestrator.Simulation.Storage.{
  Op, run, snapshot, revert_to_snapshot, get_state, set_state, read_slot,
}
use test_v.Protocol.RwSets.{read_at, written_at}
use test_v.Orchestrator.Simulation.RwSets.{build_rw_set, build_rw_set_lists}
use test_v.Orchestrator.Simulation.Slots.{set_state_get_state, get_state_lost}
use test_v.Orchestrator.Simulation.Calm.{Fit, Fits}
use test_v.Orchestrator.Simulation.Reverts.{Restored, revert_to_snapshot_restores}
use test_v.Orchestrator.Simulation.Runs.{run_new_covered}

abbrev pub amount : ℤ → Option ℕ
amount (pos n) = some n
amount (negsuc n) = none

abbrev pub answer : Address → Fetched
answer a =
    if a == 13
    then unavailable "shard 5 is down"
    else fetched (record { balance = some (pos 100); nonce = 0; code = []; code_hash = 0 })

abbrev pub shards : Host
shards = record {
  State = ℕ;
  fetch_state = λ requests id shard a. (requests + 1, answer a);
  get_storage_at = λ requests id shard a t. (requests + 1, if t == 9 then none else some (t + 1));
  address_to_shard = λ a. pos (a % 8);
  keccak = length;
  must_from_big = amount;
  hash_bytes = λ v. v ∷ [];
  Log = ℕ;
}

pub shards-Fits : Fits shards
unfolding fetched_balance
shards-Fits f id shard addr = by_address (addr == 13)
  where
    by_address :
        (lost : Bool)
        → Fit shards (
            if lost
            then unavailable "shard 5 is down"
            else fetched (record { balance = some (pos 100); nonce = 0; code = []; code_hash = 0 }))
    by_address true = tt
    by_address false = refl

abbrev fresh : SimulationState shards
fresh = new_simulation shards "t1" 0

add_slot_lem_example :
    (al' : AccessList) × (add_slot new_access_list 5 6
      ≡ some (
        al',
        (
          not (contains_address new_access_list 5),
          not (is_some (lookup 6 (slots_of new_access_list 5))),
        ),
      ))
    × Added new_access_list 5 6 al'
add_slot_lem_example = add_slot_lem new_access_list 5 6 new-IsAccessList

-- A transfer, a write and a log, with a nested call that is reverted on its own.
abbrev calls : List (Op shards)
calls =
    Op.adding 1 5
    ∷ Op.writing 2 3 7
    ∷ Op.logging 4
    ∷ Op.marking
    ∷ Op.reading 6 1
    ∷ Op.reverting 1
    ∷ Op.warming_slot 2 3
    ∷ []

revert_to_snapshot_restores_example :
    (s' : SimulationState shards) × (run shards (snapshot shards fresh).1 calls ≡ some s')
    × Restored shards fresh s' (revert_to_snapshot shards s' (snapshot shards fresh).0)
unfolding new_simulation
revert_to_snapshot_restores_example =
    revert_to_snapshot_restores shards fresh calls shards-Fits refl new-IsAccessList
      (tt, (tt, (tt, (tt, (tt, (omega arith, (tt, tt)))))))

run_new_covered_example :
    (s : SimulationState shards) × (run shards (new_simulation shards "t1" 0) calls ≡ some s)
    × ((not (is_some (written_at (build_rw_set shards s) 2 3))
          || is_some (read_at (build_rw_set shards s) 2 3))
        ≡ true)
run_new_covered_example = run_new_covered shards "t1" 0 calls 2 3 shards-Fits

abbrev same : ℕ → ℕ → Bool
same a b = a == b

-- Slot 3 of account 2 is written, after slot 1 of account 6 has been read.
abbrev seen : SimulationState shards
seen = (get_state shards fresh 6 1).1

set_state_get_state_example :
    (get_state shards (set_state shards seen 2 3 7).1 2 3 ≡ (7, (set_state shards seen 2 3 7).1))
    × (get_state shards (set_state shards seen 2 3 7).1 6 1
        ≡ (if same 2 6 && same 3 1 then 7 else 2, (set_state shards seen 2 3 7).1))
unfolding lookup insert new_simulation get_state read_slot get_or_fetch_account cache_account
    fetched_account fetched_balance
set_state_get_state_example = set_state_get_state shards seen 2 6 3 1 7 2 refl

get_state_lost_example :
    ((get_state shards fresh 6 9).0 ≡ 0)
    × (read_at (build_rw_set shards (get_state shards fresh 6 9).1) 6 9 ≡ some (0 ∷ []))
    × ((get_state shards fresh 6 9).1.fetch_errors
        ≡ (get_or_fetch_account shards fresh 6).1.fetch_errors)
unfolding lookup new_simulation
get_state_lost_example = get_state_lost shards fresh 6 9 refl refl

build_rw_set_lists_example :
    (read_at (build_rw_set shards seen) 6 1
      ≡ elim (lookup2 6 1 seen.reads) [ none ↦ none | some v ↦ some (shards.hash_bytes v) ])
    × (written_at (build_rw_set shards seen) 6 1 ≡ elim (lookup2 6 1 seen.writes) [
      | none ↦ none
      | some v ↦ some (
        shards.hash_bytes (elim (lookup2 6 1 seen.write_olds) [ none ↦ 0 | some old ↦ old ]),
        shards.hash_bytes v,
      )
    ])
build_rw_set_lists_example = build_rw_set_lists shards seen 6 1
