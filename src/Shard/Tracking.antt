-- ===== src/Shard/Tracking.antt =====
-- internal/shard/tracking_statedb.go: the wrapper that records which addresses and slots a simulated
-- call touches, around go-ethereum's StateDB, which is a parameter.
mod Recorded
pub mod Accesses
pub mod Covered
pub mod Tests
use test_v.Prelude.{
  ℕ, ◌%◌, Bool, true, false, not, List, [], ◌∷◌, map, Option, none, some, nat_key, ◌==◌,
  if◌then◌else◌,
}
use test_v.Prelude.Int.{ℤ, pos, int_key}
use test_v.Prelude.Maps.{Map, insert, get_or}
use test_v.Prelude.Nested.{lookup2, insert2}
use test_v.Protocol.{Address, Hash, Reference, RwVariable, last_byte}
use test_v.Protocol.RwSets.{SlotValues, add_keys, keys, read_items, write_items}

-- The methods that only record an access, if any, and call a method of the inner database; a call of
-- the one is written like a call of the other.
pub data Call (Log : Type 0) : Type 0 where
  create_account create_contract get_balance get_nonce : Address → Call Log
  get_code_hash get_code get_code_size get_storage_root : Address → Call Log
  self_destruct has_self_destructed self_destruct6780 exist empty : Address → Call Log
  sub_balance add_balance set_nonce : Address → ℕ → Call Log
  set_code : Address → List ℕ → Call Log
  get_committed_state get_transient_state : Address → Hash → Call Log
  set_transient_state : Address → Hash → Hash → Call Log
  add_refund sub_refund : ℕ → Call Log
  address_in_access_list add_address_to_access_list : Address → Call Log
  slot_in_access_list add_slot_to_access_list : Address → Hash → Call Log
  prepare : Address → Address → Option Address → Call Log
  revert_to_snapshot : ℕ → Call Log
  add_log : Log → Call Log
  add_preimage : Hash → List ℕ → Call Log
  finalise : Bool → Call Log
  get_refund snapshot point_cache witness access_events : Call Log

-- The address that a method records
pub recorded : {Log : Type 0} → Call Log → Option Address
recorded (create_account addr) = some addr
recorded (create_contract addr) = some addr
recorded (get_balance addr) = some addr
recorded (get_nonce addr) = some addr
recorded (get_code_hash addr) = some addr
recorded (get_code addr) = some addr
recorded (get_code_size addr) = some addr
recorded (get_storage_root addr) = some addr
recorded (self_destruct addr) = some addr
recorded (has_self_destructed addr) = some addr
recorded (self_destruct6780 addr) = some addr
recorded (exist addr) = some addr
recorded (empty addr) = some addr
recorded (sub_balance addr amount) = some addr
recorded (add_balance addr amount) = some addr
recorded (set_nonce addr nonce) = some addr
recorded (set_code addr code) = some addr
recorded (get_committed_state addr slot) = some addr
recorded (get_transient_state addr slot) = some addr
recorded (set_transient_state addr slot value) = some addr
recorded call = none

-- The call of the inner database that the body of each method makes
pub forwarded : {Log : Type 0} → Call Log → Call Log
forwarded (create_account addr) = create_account addr
forwarded (create_contract addr) = create_contract addr
forwarded (sub_balance addr amount) = sub_balance addr amount
forwarded (add_balance addr amount) = add_balance addr amount
forwarded (get_balance addr) = get_balance addr
forwarded (get_nonce addr) = get_nonce addr
forwarded (set_nonce addr nonce) = set_nonce addr nonce
forwarded (get_code_hash addr) = get_code_hash addr
forwarded (get_code addr) = get_code addr
forwarded (set_code addr code) = set_code addr code
forwarded (get_code_size addr) = get_code_size addr
forwarded (add_refund gas) = add_refund gas
forwarded (sub_refund gas) = sub_refund gas
forwarded get_refund = get_refund
forwarded (get_committed_state addr slot) = get_committed_state addr slot
forwarded (get_storage_root addr) = get_storage_root addr
forwarded (get_transient_state addr key) = get_transient_state addr key
forwarded (set_transient_state addr key value) = set_transient_state addr key value
forwarded (self_destruct addr) = self_destruct addr
forwarded (has_self_destructed addr) = has_self_destructed addr
forwarded (self_destruct6780 addr) = self_destruct6780 addr
forwarded (exist addr) = exist addr
forwarded (empty addr) = empty addr
forwarded (address_in_access_list addr) = address_in_access_list addr
forwarded (slot_in_access_list addr slot) = slot_in_access_list addr slot
forwarded (add_address_to_access_list addr) = add_address_to_access_list addr
forwarded (add_slot_to_access_list addr slot) = add_slot_to_access_list addr slot
forwarded (prepare sender coinbase dest) = prepare sender coinbase dest
forwarded (revert_to_snapshot revid) = revert_to_snapshot revid
forwarded snapshot = snapshot
forwarded (add_log log) = add_log log
forwarded (add_preimage hash preimage) = add_preimage hash preimage
forwarded point_cache = point_cache
forwarded witness = witness
forwarded access_events = access_events
forwarded (finalise delete_empty) = finalise delete_empty

-- go-ethereum's StateDB: what it does on those calls, and its storage. A read of a slot changes
-- nothing that can be observed.
pub record Inner : Type 1 where
  pub State : Type 0
  pub Log : Type 0
  pub Answer : Type 0
  pub perform : State → Call Log → State × Answer
  pub get_state : State → Address → Hash → Hash
  pub get_committed : State → Address → Hash → Hash
  -- The previous value is returned.
  pub set_state : State → Address → Hash → Hash → State × Hash
  -- `Hash.Bytes`
  pub hash_bytes : Hash → List ℕ

pub record TrackingState (n : Inner) : Type 0 where
  pub inner : n.State
  pub accessed_addrs : Map Address Bool
  pub storage_reads : SlotValues
  pub storage_writes : SlotValues
  pub num_shards : ℕ
  pub local_shard_id : ℤ

-- `int(addr[len(addr)-1]) % numShards`
abbrev pub address_shard : ℕ → Address → ℤ
address_shard num_shards addr = pos (last_byte addr % num_shards)

module _ (n : Inner) where
  unfoldable pub new_tracking : n.State → ℤ → ℕ → TrackingState n
  new_tracking inner local_shard_id num_shards = record {
    inner = inner;
    accessed_addrs = [];
    storage_reads = [];
    storage_writes = [];
    num_shards = num_shards;
    local_shard_id = local_shard_id;
  }

  pub record_access : TrackingState n → Address → TrackingState n
  record_access t addr = record t { accessed_addrs = insert addr true t.accessed_addrs }

  -- A method of `Call`
  unfoldable pub pass_on : TrackingState n → Call n.Log → n.Answer × TrackingState n
  unfolding record_access recorded forwarded
  pass_on t call =
      let t' : TrackingState n = elim (recorded call) [
        | none ↦ t
        | some addr ↦ record_access t addr
      ] in
      let (s, answer) = n.perform t.inner (forwarded call) in (answer, record t' { inner = s })

  -- Only the first read of a slot is kept.
  pub track_read : TrackingState n → Address → Hash → Hash → TrackingState n
  track_read t addr slot value = elim (lookup2 addr slot t.storage_reads) [
    | some old ↦ t
    | none ↦ record t { storage_reads = insert2 addr slot value t.storage_reads }
  ]

  unfoldable pub get_state : TrackingState n → Address → Hash → Hash × TrackingState n
  unfolding record_access track_read
  get_state t addr slot =
      let value = n.get_state t.inner addr slot in
      (value, track_read (record_access t addr) addr slot value)

  -- The current value and the committed one
  unfoldable pub get_state_and_committed_state :
      TrackingState n → Address → Hash → (Hash × Hash) × TrackingState n
  unfolding record_access track_read
  get_state_and_committed_state t addr slot =
      let value = n.get_state t.inner addr slot in
      (
        (value, n.get_committed t.inner addr slot),
        track_read (record_access t addr) addr slot value,
      )

  unfoldable pub set_state : TrackingState n → Address → Hash → Hash → Hash × TrackingState n
  unfolding record_access track_read
  set_state t addr slot value =
      let t' = track_read (record_access t addr) addr slot (n.get_state t.inner addr slot) in
      let (s, prev) = n.set_state t.inner addr slot value in
      (prev, record t' { inner = s; storage_writes = insert2 addr slot value t'.storage_writes })

  pub get_accessed_addresses : TrackingState n → List Address
  get_accessed_addresses t = keys t.accessed_addrs

  -- The loop of `HasCrossShardAccess`
  pub any_foreign : ℕ → ℤ → List Address → Bool
  any_foreign num_shards local_shard_id [] = false
  any_foreign num_shards local_shard_id (addr ∷ rest) =
      let later = any_foreign num_shards local_shard_id rest in
      if address_shard num_shards addr == local_shard_id then later else true

  unfoldable pub has_cross_shard_access : TrackingState n → Bool
  unfolding any_foreign
  has_cross_shard_access t = any_foreign t.num_shards t.local_shard_id (keys t.accessed_addrs)

  -- The loop of `GetCrossShardAddresses`
  unfoldable pub foreign_shards : ℕ → ℤ → List Address → Map Address ℤ → Map Address ℤ
  foreign_shards num_shards local_shard_id [] result = result
  foreign_shards num_shards local_shard_id (addr ∷ rest) result =
      let shard = address_shard num_shards addr in
      let grown : Map Address ℤ =
        if shard == local_shard_id then result else insert addr shard result in
      foreign_shards num_shards local_shard_id rest grown

  pub get_cross_shard_addresses : TrackingState n → Map Address ℤ
  unfolding foreign_shards
  get_cross_shard_addresses t =
      foreign_shards t.num_shards t.local_shard_id (keys t.accessed_addrs) []

  pub tracked_variable : TrackingState n → Reference → Address → RwVariable
  tracked_variable t ref_block addr = record {
    address = addr;
    reference_block = ref_block;
    read_set = read_items n.hash_bytes (get_or [] addr t.storage_reads);
    write_set =
        write_items n.hash_bytes (get_or [] addr t.storage_reads) (get_or [] addr t.storage_writes);
  }

  unfoldable pub tracked_rw_set : TrackingState n → Reference → List RwVariable
  unfolding tracked_variable
  tracked_rw_set t ref_block =
      map (tracked_variable t ref_block)
        (keys (add_keys t.storage_writes (add_keys t.storage_reads [])))

-- What the EVM calls: a method of `Call`, or one of the three about slots
pub data StateCall (Log : Type 0) : Type 0 where
  plain : Call Log → StateCall Log
  reading : Address → Hash → StateCall Log
  reading_both : Address → Hash → StateCall Log
  writing : Address → Hash → Hash → StateCall Log

-- and what it is told.
pub data Reply (Answer : Type 0) : Type 0 where
  answered : Answer → Reply Answer
  value : Hash → Reply Answer
  values : Hash → Hash → Reply Answer

module _ (n : Inner) where
  unfoldable pub tracked_step : TrackingState n → StateCall n.Log → Reply n.Answer × TrackingState n
  tracked_step t (plain call) = let (a, t') = pass_on n t call in (answered a, t')
  tracked_step t (reading addr slot) = let (v, t') = get_state n t addr slot in (value v, t')
  tracked_step t (reading_both addr slot) =
      let ((v, c), t') = get_state_and_committed_state n t addr slot in (values v c, t')
  tracked_step t (writing addr slot new) =
      let (prev, t') = set_state n t addr slot new in (value prev, t')

  unfoldable pub tracked_run :
      TrackingState n → List (StateCall n.Log) → List (Reply n.Answer) × TrackingState n
  tracked_run t [] = ([], t)
  tracked_run t (call ∷ calls) =
      let (r, t') = tracked_step t call in let (rs, t'') = tracked_run t' calls in (r ∷ rs, t'')
