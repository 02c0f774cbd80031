-- ===== src/Shard/Tracking/Recorded.antt =====
-- Method by method: the account that a call is about, what the wrapper records, and what it calls.
use test_v.Prelude.{◌≡◌, refl, Option, none, some}
use test_v.Protocol.{Address}
use test_v.Shard.Tracking.{
  Call, recorded, forwarded, access_events, add_address_to_access_list, add_balance, add_log,
  add_preimage, add_refund, add_slot_to_access_list, address_in_access_list, create_account,
  create_contract, empty, exist, finalise, get_balance, get_code, get_code_hash, get_code_size,
  get_committed_state, get_nonce, get_refund, get_storage_root, get_transient_state,
  has_self_destructed, point_cache, prepare, revert_to_snapshot, self_destruct, self_destruct6780,
  set_code, set_nonce, set_transient_state, slot_in_access_list, snapshot, sub_balance, sub_refund,
  witness,
}

-- The account whose balance, nonce, code, storage or transient storage a call reads or changes, or
-- which it creates or destructs. The access list, the refund, logs, preimages and snapshots belong to
-- the transaction and to no account.
abbrev pub account_of : {Log : Type 0} → Call Log → Option Address
account_of (create_account addr) = some addr
account_of (create_contract addr) = some addr
account_of (get_balance addr) = some addr
account_of (get_nonce addr) = some addr
account_of (get_code_hash addr) = some addr
account_of (get_code addr) = some addr
account_of (get_code_size addr) = some addr
account_of (get_storage_root addr) = some addr
account_of (self_destruct addr) = some addr
account_of (has_self_destructed addr) = some addr
account_of (self_destruct6780 addr) = some addr
account_of (exist addr) = some addr
account_of (empty addr) = some addr
account_of (sub_balance addr x) = some addr
account_of (add_balance addr x) = some addr
account_of (set_nonce addr x) = some addr
account_of (set_code addr x) = some addr
account_of (get_committed_state addr x) = some addr
account_of (get_transient_state addr x) = some addr
account_of (set_transient_state addr x y) = some addr
account_of (add_refund x) = none
account_of (sub_refund x) = none
account_of (address_in_access_list addr) = none
account_of (add_address_to_access_list addr) = none
account_of (slot_in_access_list addr x) = none
account_of (add_slot_to_access_list addr x) = none
account_of (prepare x y z) = none
account_of (revert_to_snapshot x) = none
account_of (add_log x) = none
account_of (add_preimage x y) = none
account_of (finalise x) = none
account_of get_refund = none
account_of snapshot = none
account_of point_cache = none
account_of witness = none
account_of access_events = none

-- The wrapper records it for every method,
pub recorded_all : {Log : Type 0} (call : Call Log) → recorded call ≡ account_of call
unfolding recorded
recorded_all (create_account addr) = refl
recorded_all (create_contract addr) = refl
recorded_all (get_balance addr) = refl
recorded_all (get_nonce addr) = refl
recorded_all (get_code_hash addr) = refl
recorded_all (get_code addr) = refl
recorded_all (get_code_size addr) = refl
recorded_all (get_storage_root addr) = refl
recorded_all (self_destruct addr) = refl
recorded_all (has_self_destructed addr) = refl
recorded_all (self_destruct6780 addr) = refl
recorded_all (exist addr) = refl
recorded_all (empty addr) = refl
recorded_all (sub_balance addr x) = refl
recorded_all (add_balance addr x) = refl
recorded_all (set_nonce addr x) = refl
recorded_all (set_code addr x) = refl
recorded_all (get_committed_state addr x) = refl
recorded_all (get_transient_state addr x) = refl
recorded_all (set_transient_state addr x y) = refl
recorded_all (add_refund x) = refl
recorded_all (sub_refund x) = refl
recorded_all (address_in_access_list addr) = refl
recorded_all (add_address_to_access_list addr) = refl
recorded_all (slot_in_access_list addr x) = refl
recorded_all (add_slot_to_access_list addr x) = refl
recorded_all (prepare x y z) = refl
recorded_all (revert_to_snapshot x) = refl
recorded_all (add_log x) = refl
recorded_all (add_preimage x y) = refl
recorded_all (finalise x) = refl
recorded_all get_refund = refl
recorded_all snapshot = refl
recorded_all point_cache = refl
recorded_all witness = refl
recorded_all access_events = refl

-- and makes the call of the same name with the same arguments.
forwarded_all : {Log : Type 0} (call : Call Log) → forwarded call ≡ call
unfolding forwarded
forwarded_all (create_account addr) = refl
forwarded_all (create_contract addr) = refl
forwarded_all (get_balance addr) = refl
forwarded_all (get_nonce addr) = refl
forwarded_all (get_code_hash addr) = refl
forwarded_all (get_code addr) = refl
forwarded_all (get_code_size addr) = refl
forwarded_all (get_storage_root addr) = refl
forwarded_all (self_destruct addr) = refl
forwarded_all (has_self_destructed addr) = refl
forwarded_all (self_destruct6780 addr) = refl
forwarded_all (exist addr) = refl
forwarded_all (empty addr) = refl
forwarded_all (sub_balance addr x) = refl
forwarded_all (add_balance addr x) = refl
forwarded_all (set_nonce addr x) = refl
forwarded_all (set_code addr x) = refl
forwarded_all (get_committed_state addr x) = refl
forwarded_all (get_transient_state addr x) = refl
forwarded_all (set_transient_state addr x y) = refl
forwarded_all (add_refund x) = refl
forwarded_all (sub_refund x) = refl
forwarded_all (address_in_access_list addr) = refl
forwarded_all (add_address_to_access_list addr) = refl
forwarded_all (slot_in_access_list addr x) = refl
forwarded_all (add_slot_to_access_list addr x) = refl
forwarded_all (prepare x y z) = refl
forwarded_all (revert_to_snapshot x) = refl
forwarded_all (add_log x) = refl
forwarded_all (add_preimage x y) = refl
forwarded_all (finalise x) = refl
forwarded_all get_refund = refl
forwarded_all snapshot = refl
forwarded_all point_cache = refl
forwarded_all witness = refl
forwarded_all access_events = refl
