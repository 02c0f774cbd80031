-- ===== src/Orchestrator/Simulation/Preparing.antt =====
-- `Prepare` never panics: the access list that it makes is well formed.
use test_v.Prelude.{◌≡◌, refl, false, List, [], ◌∷◌, Option, none, some}
use test_v.Protocol.{Address, Hash, TxId}
use test_v.Orchestrator.AccessList.{AccessList, new_access_list, add_address}
use test_v.Orchestrator.AccessList.Index.{IsAccessList, new-IsAccessList, add_address-IsAccessList}
use test_v.Orchestrator.AccessList.Warm.{add_slot_lem}
use test_v.Orchestrator.Simulation.{Host, SimulationState, new_simulation}
use test_v.Orchestrator.Simulation.Storage.{
  AccessTuple, add_slots, add_tuples, add_addresses, prepare,
}
use test_v.Orchestrator.Simulation.Tracked.{IsTracked, new-IsTracked}

abbrev Listed : Option AccessList → Type 0
Listed r = (al : AccessList) × (r ≡ some al) × IsAccessList al

add_addresses-IsAccessList :
    (al : AccessList) (addrs : List Address)
    → IsAccessList al
    → IsAccessList (add_addresses al addrs)
unfolding add_addresses
add_addresses-IsAccessList al [] v = v
add_addresses-IsAccessList al (addr ∷ addrs) v =
    add_addresses-IsAccessList (add_address al addr).0 addrs (add_address-IsAccessList al addr v)

add_slots-Listed :
    (al : AccessList) (addr : Address) (keys : List Hash)
    → IsAccessList al
    → Listed (add_slots al addr keys)
unfolding add_slots
add_slots-Listed al addr [] v = (al, refl, v)
add_slots-Listed al addr (key ∷ keys) v =
    let (al', e, added) = add_slot_lem al addr key v in
    rw (e, add_slots) (add_slots-Listed al' addr keys added.valid)

add_tuples-Listed :
    (al : AccessList) (els : List AccessTuple) → IsAccessList al → Listed (add_tuples al els)
unfolding add_tuples
add_tuples-Listed al [] v = (al, refl, v)
add_tuples-Listed al (el ∷ els) v =
    let (al', e, v') =
      add_slots-Listed (add_address al el.address).0 el.address el.storage_keys
        (add_address-IsAccessList al el.address v) in
    rw (e, add_tuples) (add_tuples-Listed al' els v')

dest-IsAccessList :
    (al : AccessList) (dest : Option Address)
    → IsAccessList al
    → IsAccessList (elim dest [ none ↦ al | some d ↦ (add_address al d).0 ])
dest-IsAccessList al none v = v
dest-IsAccessList al (some d) v = add_address-IsAccessList al d v

module _ (h : Host) where
  -- A new simulation is prepared without a panic, and its tracking is in order.
  pub prepare-IsTracked :
      (tx_id : TxId) (f : h.State) (sender coinbase : Address) (dest : Option Address)
      (precompiles : List Address) (accesses : List AccessTuple)
      → (s : SimulationState h) × (prepare h
            (new_simulation h tx_id f)
            sender
            coinbase
            dest
            precompiles
            accesses
          ≡ some s)
        × (s.panicked ≡ false)
        × IsTracked h s
  unfolding prepare new_simulation
  prepare-IsTracked tx_id f sender coinbase dest precompiles accesses =
      let from = add_address-IsAccessList new_access_list sender new-IsAccessList in
      let to = dest-IsAccessList (add_address new_access_list sender).0 dest from in
      let (al, e, v) =
        add_tuples-Listed _ accesses
          (add_addresses-IsAccessList _ precompiles (add_address-IsAccessList _ coinbase to)) in
      let q = new-IsTracked h tx_id f in
      (
        record (new_simulation h tx_id f) { access_list = al },
        rw (e, prepare) refl,
        refl,
        record { now = q.now; saved = q.saved; warm = v },
      )
