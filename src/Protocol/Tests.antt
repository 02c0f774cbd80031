-- ===== src/Protocol/Tests.antt =====
-- A transaction from shard 0 that reads in shards 1 and 0.
use test_v.Prelude.{true, ◌≡◌, ◌⊎◌, ◌↔◌, [], ◌∷◌, some}
use test_v.Prelude.Int.{ℤ, pos}
use test_v.Prelude.Lists.{In, Distinct}
use test_v.Protocol.{RwVariable, Transaction, TxType, CrossShardTx, TxStatus, SimulationStatus}
use test_v.Protocol.Shards.{involved_shards, rw_shards, involved_shards_lem}

abbrev variable_in : ℤ → RwVariable
variable_in shard = record {
  address = 257;
  reference_block = record { shard_num = shard; block_hash = 0; block_height = 0 };
  read_set = record { slot = 3; value = 1 ∷ 2 ∷ []; proof = (5 ∷ []) ∷ [] } ∷ [];
  write_set = record { slot = 3; old_value = 1 ∷ []; new_value = 2 ∷ [] } ∷ [];
}

abbrev cross : CrossShardTx
cross = record {
  id = "t1";
  tx_hash = 0;
  from_shard = pos 0;
  from = 256;
  to = 257;
  value = some (pos 5);
  gas = 21000;
  payload = 9 ∷ [];
  rw_set = variable_in (pos 1) ∷ variable_in (pos 0) ∷ variable_in (pos 1) ∷ [];
  status = TxStatus.pending;
  sim_status = SimulationStatus.success;
  sim_error = "";
}

abbrev lock_tx : Transaction
lock_tx = record {
  id = "u1";
  tx_hash = 0;
  from = 256;
  to = 257;
  value = some (pos 5);
  gas = 0;
  payload = [];
  is_cross_shard = true;
  tx_type = TxType.lock;
  cross_shard_tx_id = "t1";
  rw_set = variable_in (pos 1) ∷ [];
  error = "";
}

involved_shards_example :
    Distinct (involved_shards cross)
    × ((s : ℤ) → In s (involved_shards cross) ↔ ((s ≡ pos 0) ⊎ In s (rw_shards cross)))
involved_shards_example = involved_shards_lem cross
