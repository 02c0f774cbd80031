-- ===== src/Orchestrator/Simulation/Storage.antt =====
-- internal/orchestrator/statedb.go, `SimulationStateDB`: slots, transient storage, the access list,
-- snapshots, and what the EVM calls as a data type.
use test_v.Prelude.{ℕ, if◌then◌else◌, List, [], ◌∷◌, ◌++◌, Option, none, some, nat_key}
use test_v.Prelude.Lists.{length, get_elem?, take}
use test_v.Prelude.Nested.{lookup2, insert2}
use test_v.Protocol.{Address, Hash}
use test_v.Orchestrator.AccessList.{AccessList, new_access_list, add_address, add_slot}
use test_v.Protocol.RwSets.{SlotValues}
use test_v.Orchestrator.Simulation.{
  Host, Snapshot, SimulationState, get_or_fetch_account, create_account, sub_balance, add_balance,
  set_nonce, set_code, self_destruct, self_destruct6780, add_refund, sub_refund, add_log,
}

abbrev or_zero : Option Hash → Hash
or_zero none = 0
or_zero (some v) = v

-- A key of the access list with its slots, as `types.AccessTuple`
pub record AccessTuple : Type 0 where
  pub address : Address
  pub storage_keys : List Hash

unfoldable pub add_slots : AccessList → Address → List Hash → Option AccessList
add_slots al addr [] = some al
add_slots al addr (key ∷ keys) = elim (add_slot al addr key) [
  | none ↦ none
  | some (al', flags) ↦ add_slots al' addr keys
]

unfoldable pub add_tuples : AccessList → List AccessTuple → Option AccessList
unfolding add_slots
add_tuples al [] = some al
add_tuples al (el ∷ els) =
    elim (add_slots (add_address al el.address).0 el.address el.storage_keys) [
      | none ↦ none
      | some al' ↦ add_tuples al' els
    ]

unfoldable pub add_addresses : AccessList → List Address → AccessList
add_addresses al [] = al
add_addresses al (addr ∷ addrs) = add_addresses (add_address al addr).0 addrs

module _ (h : Host) where
  -- `GetState` of a slot that was neither written nor read: a failed request reads as zero.
  unfoldable pub read_slot : SimulationState h → Address → Hash → Hash × SimulationState h
  read_slot s addr slot =
      let (acct, s') = get_or_fetch_account h s addr in
      let (f, response) = h.get_storage_at s'.fetcher s'.tx_id acct.shard_id addr slot in
      let val = or_zero response in
      (val, record s' { fetcher = f; reads = insert2 addr slot val s'.reads })

  unfoldable pub get_state : SimulationState h → Address → Hash → Hash × SimulationState h
  unfolding read_slot
  get_state s addr slot = elim (lookup2 addr slot s.writes) [
    | some val ↦ (val, s)
    | none ↦ elim (lookup2 addr slot s.reads) [ some val ↦ (val, s) | none ↦ read_slot s addr slot ]
  ]

  -- The current value and the committed one
  pub get_state_and_committed_state :
      SimulationState h → Address → Hash → (Hash × Hash) × SimulationState h
  unfolding get_state
  get_state_and_committed_state s addr slot =
      let (current, s') = get_state s addr slot in
      let committed : Hash = elim (lookup2 addr slot s'.reads) [
        | none ↦ current
        | some val ↦ val
      ] in
      ((current, committed), s')

  -- The write after the read of the previous value, which is kept for the first write only.
  unfoldable pub record_write : SimulationState h → Address → Hash → Hash → Hash → SimulationState h
  record_write s addr slot prev value =
      let olds : SlotValues = elim (lookup2 addr slot s.write_olds) [
        | none ↦ insert2 addr slot prev s.write_olds
        | some old ↦ s.write_olds
      ] in
      record s { write_olds = olds; writes = insert2 addr slot value s.writes }

  -- The previous value is returned.
  unfoldable pub set_state : SimulationState h → Address → Hash → Hash → Hash × SimulationState h
  unfolding get_state record_write
  set_state s addr slot value =
      let (prev, s') = get_state s addr slot in (prev, record_write s' addr slot prev value)

  pub get_transient_state : SimulationState h → Address → Hash → Hash
  get_transient_state s addr key = or_zero (lookup2 addr key s.transient)

  unfoldable pub set_transient_state : SimulationState h → Address → Hash → Hash → SimulationState h
  set_transient_state s addr key value = record s { transient = insert2 addr key value s.transient }

  unfoldable pub add_address_to_access_list : SimulationState h → Address → SimulationState h
  add_address_to_access_list s addr = record s { access_list = (add_address s.access_list addr).0 }

  -- `none` is a panic.
  unfoldable pub add_slot_to_access_list :
      SimulationState h → Address → Hash → Option (SimulationState h)
  add_slot_to_access_list s addr slot = elim (add_slot s.access_list addr slot) [
    | none ↦ none
    | some (al, flags) ↦ some (record s { access_list = al })
  ]

  -- The access list of a new transaction: its sender, receiver if any, coinbase, precompiled
  -- contracts and declared accesses. `none` is a panic.
  unfoldable pub prepare :
      SimulationState h
      → Address
      → Address
      → Option Address
      → List Address
      → List AccessTuple
      → Option (SimulationState h)
  unfolding add_tuples add_addresses
  prepare s sender coinbase dest precompiles accesses =
      let from = (add_address new_access_list sender).0 in
      let to : AccessList = elim dest [ none ↦ from | some d ↦ (add_address from d).0 ] in
      elim (add_tuples (add_addresses (add_address to coinbase).0 precompiles) accesses) [
        | none ↦ none
        | some al ↦ some (record s { access_list = al })
      ]

  unfoldable pub snapshot_of : SimulationState h → Snapshot
  snapshot_of s = record {
    accounts = s.accounts;
    reads = s.reads;
    writes = s.writes;
    refund = s.refund;
    logs_len = length s.logs;
  }

  -- The id is the number of snapshots before.
  unfoldable pub snapshot : SimulationState h → ℕ × SimulationState h
  unfolding snapshot_of
  snapshot s = (length s.snapshots, record s { snapshots = s.snapshots ++ snapshot_of s ∷ [] })

  -- An id past the last snapshot changes nothing.
  unfoldable pub revert_to_snapshot : SimulationState h → ℕ → SimulationState h
  revert_to_snapshot s revid = elim (get_elem? s.snapshots revid) [
    | none ↦ s
    | some snap ↦ record s {
      accounts = snap.accounts;
      reads = snap.reads;
      writes = snap.writes;
      refund = snap.refund;
      logs = take snap.logs_len s.logs;
      snapshots = take revid s.snapshots;
    }
  ]

-- What the EVM calls, but for the readers that change nothing.
pub data Op (h : Host) : Type 0 where
  creating fetching : Address → Op h
  subtracting adding : Address → ℕ → Op h
  numbering : Address → ℕ → Op h
  coding : Address → List ℕ → Op h
  destructing destructing6780 : Address → Op h
  refunding unrefunding : ℕ → Op h
  reading : Address → Hash → Op h
  writing storing : Address → Hash → Hash → Op h
  warming : Address → Op h
  warming_slot : Address → Hash → Op h
  logging : h.Log → Op h
  marking : Op h
  reverting : ℕ → Op h

module _ (h : Host) where
  -- `none` is a panic. `GetBalance`, `GetNonce`, `GetCode`, `GetCodeHash`, `Exist` and `Empty` only
  -- fetch.
  unfoldable pub attempt : SimulationState h → Op h → Option (SimulationState h)
  attempt s (Op.creating addr) = some (create_account h s addr)
  attempt s (Op.fetching addr) = some (get_or_fetch_account h s addr).1
  attempt s (Op.subtracting addr amount) = some (sub_balance h s addr amount).1
  attempt s (Op.adding addr amount) = some (add_balance h s addr amount).1
  attempt s (Op.numbering addr nonce) = some (set_nonce h s addr nonce)
  attempt s (Op.coding addr code) = some (set_code h s addr code).1
  attempt s (Op.destructing addr) = some (self_destruct h s addr).1
  attempt s (Op.destructing6780 addr) = some (self_destruct6780 h s addr).1
  attempt s (Op.refunding gas) = some (add_refund h s gas)
  attempt s (Op.unrefunding gas) = some (sub_refund h s gas)
  attempt s (Op.reading addr slot) = some (get_state h s addr slot).1
  attempt s (Op.writing addr slot value) = some (set_state h s addr slot value).1
  attempt s (Op.storing addr key value) = some (set_transient_state h s addr key value)
  attempt s (Op.warming addr) = some (add_address_to_access_list h s addr)
  attempt s (Op.warming_slot addr slot) = add_slot_to_access_list h s addr slot
  attempt s (Op.logging log) = some (add_log h s log)
  attempt s Op.marking = some (snapshot h s).1
  attempt s (Op.reverting revid) = some (revert_to_snapshot h s revid)

  -- An operation; a panic of `MustFromBig` ends it like any other.
  unfoldable pub step : SimulationState h → Op h → Option (SimulationState h)
  unfolding attempt
  step s op = elim (attempt s op) [ none ↦ none | some s' ↦ if s'.panicked then none else some s' ]

  unfoldable pub run : SimulationState h → List (Op h) → Option (SimulationState h)
  unfolding step
  run s [] = some s
  run s (op ∷ ops) = elim (step s op) [ none ↦ none | some s' ↦ run s' ops ]
