-- ===== src/Shard/Receipts.antt =====
-- internal/shard/receipt.go: the receipts of executed transactions. A pointer or a slice that may
-- be nil is an Option. `copy` into a slice made with the same length fills it, so the copy of a
-- slice that is not nil is the same list.
use test_v.Prelude.{
  ◌≡◌, refl, ℕ, List, Option, none, some, map, arith, nat_key, ◌==◌, if◌then◌else◌,
}
use test_v.Prelude.Int.{ℤ}
use test_v.Prelude.Maps.{Map, lookup, insert, lookup-insert}
use test_v.Protocol.{Address, Hash, BlockHash}
use test_v.Protocol.Copies.{map_same}

-- `if x != nil { y = copy of x }`, where y is nil before
copy_opt : {A : Type 0} → (A → A) → Option A → Option A
copy_opt f none = none
copy_opt f (some x) = some (f x)

copy_opt_same : {A : Type 0} (f : A → A) → ((x : A) → f x ≡ x) → (o : Option A) → copy_opt f o ≡ o
unfolding copy_opt
copy_opt_same f h none = refl
copy_opt_same f h (some x) = rw (h x) refl

copy_word : {A : Type 0} → A → A
copy_word x = x

copy_word_same : {A : Type 0} (x : A) → copy_word x ≡ x
unfolding copy_word
copy_word_same x = refl

-- go-ethereum's `types.Log`, of which the code touches two fields; `Fields` are the others.
module _ (Fields : Type 0) where
  record Log : Type 0 where
    topics : Option (List Hash)
    data_bytes : Option (List ℕ)
    fields : Fields

  record Receipt : Type 0 where
    tx_hash : Hash
    transaction_index : ℕ
    block_hash : BlockHash
    block_number : Option ℤ
    from : Address
    to : Option Address
    cumulative_gas_used : ℕ
    gas_used : ℕ
    contract_address : Option Address
    logs : Option (List (Option Log))
    logs_bloom : List ℕ
    status : ℕ
    return_data : Option (List ℕ)

  -- The loop over the logs of `DeepCopy`: `logCopy := *log`, then its slices
  copy_log : Log → Log
  copy_log log = record log {
    topics = copy_opt copy_word log.topics;
    data_bytes = copy_opt copy_word log.data_bytes;
  }

  copy_logs : List (Option Log) → List (Option Log)
  copy_logs = map (copy_opt copy_log)

  -- `DeepCopy` of a receipt that is not nil
  deep_copy : Receipt → Receipt
  deep_copy r = record {
    tx_hash = r.tx_hash;
    transaction_index = r.transaction_index;
    block_hash = r.block_hash;
    block_number = copy_opt copy_word r.block_number;
    from = r.from;
    to = copy_opt copy_word r.to;
    cumulative_gas_used = r.cumulative_gas_used;
    gas_used = r.gas_used;
    contract_address = copy_opt copy_word r.contract_address;
    logs = copy_opt copy_logs r.logs;
    logs_bloom = r.logs_bloom;
    status = r.status;
    return_data = copy_opt copy_word r.return_data;
  }

  abbrev ReceiptStore : Type 0
  ReceiptStore = Map Hash Receipt

  add_receipt : ReceiptStore → Receipt → ReceiptStore
  add_receipt receipts r = insert r.tx_hash (deep_copy r) receipts

  -- `none` is nil.
  get_receipt : ReceiptStore → Hash → Option Receipt
  get_receipt receipts hash = copy_opt deep_copy (lookup hash receipts)

  copy_log_same : (log : Log) → copy_log log ≡ log
  unfolding copy_log
  copy_log_same log =
      rw
        (
          copy_opt_same copy_word copy_word_same log.topics,
          copy_opt_same copy_word copy_word_same log.data_bytes,
        )
        refl

  copy_logs_same : (logs : List (Option Log)) → copy_logs logs ≡ logs
  unfolding copy_logs
  copy_logs_same logs = map_same (copy_opt copy_log) (copy_opt_same copy_log copy_log_same) logs

  deep_copy_same : (r : Receipt) → deep_copy r ≡ r
  unfolding deep_copy
  deep_copy_same r =
      rw
        (
          copy_opt_same copy_word copy_word_same r.block_number,
          copy_opt_same copy_word copy_word_same r.to,
          copy_opt_same copy_word copy_word_same r.contract_address,
          copy_opt_same copy_logs copy_logs_same r.logs,
          copy_opt_same copy_word copy_word_same r.return_data,
        )
        refl

  -- A receipt that is added is what a query of its hash gives, every field of it, and queries of
  -- other hashes are as before.
  get_receipt-add_receipt :
      (receipts : ReceiptStore) (r : Receipt) (hash : Hash)
      → get_receipt (add_receipt receipts r) hash
        ≡ (if r.tx_hash == hash then some r else get_receipt receipts hash)
  unfolding get_receipt add_receipt copy_opt
  get_receipt-add_receipt receipts r hash = ground (
    arith,
    lookup-insert r.tx_hash hash (deep_copy r) receipts,
    deep_copy_same r,
    deep_copy_same (deep_copy r),
  )
