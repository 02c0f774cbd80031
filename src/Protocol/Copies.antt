-- ===== src/Protocol/Copies.antt =====
-- internal/protocol/types.go, the `DeepCopy` methods. A value has no aliases here, so what is left
-- of a copy is that it holds the same data, field by field and element by element.
use test_v.Prelude.{ℕ, ◌≡◌, refl, ap, Option, none, some, List, [], ◌∷◌, map}
use test_v.Prelude.Int.{ℤ}
use test_v.Protocol.{ReadSetItem, WriteSetItem, RwVariable, Transaction, CrossShardTx}

-- `copy(dst, src)` into a new slice of the same length
copy_bytes : List ℕ → List ℕ
copy_bytes [] = []
copy_bytes (b ∷ bs) = b ∷ copy_bytes bs

copy_proof : List (List ℕ) → List (List ℕ)
copy_proof = map copy_bytes

-- `BigInt.DeepCopy`
copy_value : Option ℤ → Option ℤ
copy_value none = none
copy_value (some v) = some v

copy_read : ReadSetItem → ReadSetItem
copy_read r = record { slot = r.slot; value = copy_bytes r.value; proof = copy_proof r.proof }

copy_write : WriteSetItem → WriteSetItem
copy_write w = record {
  slot = w.slot;
  old_value = copy_bytes w.old_value;
  new_value = copy_bytes w.new_value;
}

copy_rw : RwVariable → RwVariable
copy_rw rw = record {
  address = rw.address;
  reference_block = rw.reference_block;
  read_set = map copy_read rw.read_set;
  write_set = map copy_write rw.write_set;
}

pub copy_rw_set : List RwVariable → List RwVariable
copy_rw_set = map copy_rw

-- `Transaction.DeepCopy`
pub copy_tx : Transaction → Transaction
copy_tx tx = record {
  id = tx.id;
  tx_hash = tx.tx_hash;
  from = tx.from;
  to = tx.to;
  value = copy_value tx.value;
  gas = tx.gas;
  payload = copy_bytes tx.payload;
  is_cross_shard = tx.is_cross_shard;
  tx_type = tx.tx_type;
  cross_shard_tx_id = tx.cross_shard_tx_id;
  rw_set = copy_rw_set tx.rw_set;
  error = tx.error;
}

-- `CrossShardTx.DeepCopy`
pub copy_cross : CrossShardTx → CrossShardTx
copy_cross tx = record {
  id = tx.id;
  tx_hash = tx.tx_hash;
  from_shard = tx.from_shard;
  from = tx.from;
  to = tx.to;
  value = copy_value tx.value;
  gas = tx.gas;
  payload = copy_bytes tx.payload;
  rw_set = copy_rw_set tx.rw_set;
  status = tx.status;
  sim_status = tx.sim_status;
  sim_error = tx.sim_error;
}

pub map_same : {A : Type 0} (f : A → A) → ((a : A) → f a ≡ a) → (xs : List A) → map f xs ≡ xs
map_same f h [] = refl
map_same f h (x ∷ xs) = cc (h x, map_same f h xs)

copy_bytes-same : (bs : List ℕ) → copy_bytes bs ≡ bs
unfolding copy_bytes
copy_bytes-same [] = refl
copy_bytes-same (b ∷ bs) = ap (◌∷◌ b) (copy_bytes-same bs)

copy_value-same : (v : Option ℤ) → copy_value v ≡ v
unfolding copy_value
copy_value-same none = refl
copy_value-same (some v) = refl

copy_read-same : (r : ReadSetItem) → copy_read r ≡ r
unfolding copy_read copy_proof
copy_read-same r = rw (copy_bytes-same r.value, map_same copy_bytes copy_bytes-same r.proof)

copy_write-same : (w : WriteSetItem) → copy_write w ≡ w
unfolding copy_write
copy_write-same w = rw (copy_bytes-same w.old_value, copy_bytes-same w.new_value)

copy_rw-same : (r : RwVariable) → copy_rw r ≡ r
unfolding copy_rw
copy_rw-same r =
    rw (
      map_same copy_read copy_read-same r.read_set,
      map_same copy_write copy_write-same r.write_set,
    )

pub copy_rw_set-same : (rs : List RwVariable) → copy_rw_set rs ≡ rs
unfolding copy_rw_set
copy_rw_set-same rs = map_same copy_rw copy_rw-same rs

pub copy_tx-same : (tx : Transaction) → copy_tx tx ≡ tx
unfolding copy_tx
copy_tx-same tx =
    rw (copy_value-same tx.value, copy_bytes-same tx.payload, copy_rw_set-same tx.rw_set)

pub copy_cross-same : (tx : CrossShardTx) → copy_cross tx ≡ tx
unfolding copy_cross
copy_cross-same tx =
    rw (copy_value-same tx.value, copy_bytes-same tx.payload, copy_rw_set-same tx.rw_set)

-- A deep copy of a queued transaction, of either kind, holds exactly the data of the original.
pub copies_same : (tx : Transaction) (ct : CrossShardTx) → (copy_tx tx ≡ tx) × (copy_cross ct ≡ ct)
copies_same tx ct = (copy_tx-same tx, copy_cross-same ct)
