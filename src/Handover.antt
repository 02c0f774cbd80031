-- ===== src/Handover.antt =====
-- From the orchestrator's simulation to a shard's locks: the RwSet that a simulation builds is one that
-- the shard's validation accepts, as long as the state is what the simulation saw.
mod Tests
use test_v.Prelude.{
  ◌≡◌, refl, sym, ◌∙◌, inl, inr, ℕ, Bool, true, List, [], ◌∷◌, map, Option, none, some, nat_key,
  ◌==◌, if◌then◌else◌, Bool-cases,
}
use test_v.Prelude.Int.{ℤ, int_key}
use test_v.Prelude.Lists.{All}
use test_v.Prelude.Maps.{Map, get_or}
use test_v.Protocol.{Address, Hash, TxId, ReadSetItem, RwVariable}
use test_v.Protocol.Shards.{shard_of}
use test_v.Protocol.RwSets.{read_items, keys}
use test_v.Orchestrator.Simulation.{Host, SimulationState, new_simulation}
use test_v.Orchestrator.Simulation.Storage.{Op, run}
use test_v.Orchestrator.Simulation.RwSets.{build_rw_set, build_rw_set-All}
use test_v.Orchestrator.Simulation.Honest.{
  SlotsAgree, AllAgree, AllAgree-get_or, IsHonest, Answers, OnReturn, run-IsHonest, new-IsHonest,
}
use test_v.Shard.SlotLocks.{SlotLocks, SlotKey, locking, lock_rw_set}
use test_v.Shard.SlotLocks.Granted.{Available, Grantable, AllGrantable, lock_rw_set_granted}
use test_v.Shard.Node.{local_rw_set}

-- The entries for one shard
local_rw_set-All :
    (R : RwVariable → Type 0) (shard : ℤ) (vs : List RwVariable)
    → All R vs
    → All R (local_rw_set shard vs)
unfolding local_rw_set
local_rw_set-All R shard [] h = tt
local_rw_set-All R shard (v ∷ vs) h = elim (Bool-cases (shard_of v == shard)) [
  | inl here ↦ rw (here, local_rw_set) (h.0, local_rw_set-All R shard vs h.1)
  | inr away ↦ rw (away, local_rw_set) (local_rw_set-All R shard vs h.1)
]

module _ (storage : Address → Hash → Hash) (bytes_to_hash : List ℕ → Hash) (h : Host) where
  -- go-ethereum's `BytesToHash` undoes `Hash.Bytes`.
  abbrev pub Decodes : Type 0
  Decodes = (v : Hash) → bytes_to_hash (h.hash_bytes v) ≡ v

  read_items-Grantable :
      (t : TxId) (l : SlotLocks) (a : Address) (m : Map Hash Hash)
      → Decodes
      → ((b : Address) (s : Hash) → Available t l b s)
      → SlotsAgree storage a m
      → All (Grantable storage bytes_to_hash t l a) (read_items h.hash_bytes m)
  unfolding read_items
  read_items-Grantable t l a [] d free q = tt
  read_items-Grantable t l a ((s, v) ∷ m) d free q =
      ((q.0 ∙ sym (d v), free a s), read_items-Grantable t l a m d free q.1)

  -- Let the fetcher's shards answer every request for a slot from one storage. After any run of the EVM
  -- on a new simulation, a shard with that storage accepts its part of the RwSet: its validation takes
  -- all the locks, if no slot is locked by another transaction.
  pub simulated_rw_set_granted :
      (tx_id t : TxId) (f : h.State) (ops : List (Op h)) (s : SimulationState h) (shard : ℤ)
      (l : SlotLocks)
      → Decodes
      → Answers storage h
      → run h (new_simulation h tx_id f) ops ≡ some s
      → ((b : Address) (r : Hash) → Available t l b r)
      → (l' : SlotLocks) × (held : List SlotKey) × (lock_rw_set storage bytes_to_hash t
            (local_rw_set shard (build_rw_set h s))
            l
            []
          ≡ locking l' held)
  simulated_rw_set_granted tx_id t f ops s shard l d answers ran free =
      let q : IsHonest storage h s = rw ran at (
        run-IsHonest storage h answers (new_simulation h tx_id f) ops
          (new-IsHonest storage h answers tx_id f)) in
      let all : AllGrantable storage bytes_to_hash t l (build_rw_set h s) =
        build_rw_set-All h s (λ a items. All (Grantable storage bytes_to_hash t l a) items)
          (λ a.
            read_items-Grantable t l a (get_or [] a s.reads) d free
              (AllAgree-get_or storage a s.reads q.now)) in
      lock_rw_set_granted storage bytes_to_hash t (local_rw_set shard (build_rw_set h s)) l []
        (local_rw_set-All _ shard (build_rw_set h s) all)
