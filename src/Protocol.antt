-- ===== src/Protocol.antt =====
-- internal/protocol: the transactions and blocks that shards and orchestrator exchange.
-- An address or hash is the number that its bytes spell, most significant byte first; Go's `int`
-- is an integer; a nil pointer is `none`; a slice is the list of its elements.
pub mod Copies
pub mod Shards
pub mod RwSets
mod Tests
use test_v.Prelude.{ℕ, ◌%◌, Bool, List, Option, none, some, String}
use test_v.Prelude.Int.{ℤ, pos}
use test_v.Prelude.Maps.{Map}

abbrev pub Address : Type 0
Address = ℕ

abbrev pub Hash : Type 0
Hash = ℕ

abbrev pub BlockHash : Type 0
BlockHash = ℕ

abbrev pub TxId : Type 0
TxId = String

pub record Reference : Type 0 where
  pub shard_num : ℤ
  pub block_hash : Hash
  pub block_height : ℕ

pub record ReadSetItem : Type 0 where
  pub slot : Hash
  pub value : List ℕ
  pub proof : List (List ℕ)

pub record WriteSetItem : Type 0 where
  pub slot : Hash
  pub old_value : List ℕ
  pub new_value : List ℕ

pub record RwVariable : Type 0 where
  pub address : Address
  pub reference_block : Reference
  pub read_set : List ReadSetItem
  pub write_set : List WriteSetItem

-- `TxType` is a string: the named constants, and any other text.
pub data TxType : Type 0 where
  local cross_debit cross_credit cross_writeset cross_abort : TxType
  prepare_debit prepare_credit prepare_writeset : TxType
  lock unlock sim_error finalize : TxType
  unknown : String → TxType

-- `TxType.Priority`: lower numbers execute first in a block.
unfoldable pub priority : TxType → ℕ
priority TxType.cross_debit = 1
priority TxType.cross_credit = 1
priority TxType.cross_writeset = 1
priority TxType.finalize = 1
priority TxType.unlock = 2
priority TxType.lock = 3
priority TxType.sim_error = 5
priority other = 4

pub record Transaction : Type 0 where
  pub id : TxId
  pub tx_hash : Hash
  pub from : Address
  pub to : Address
  pub value : Option ℤ
  pub gas : ℕ
  pub payload : List ℕ
  pub is_cross_shard : Bool
  pub tx_type : TxType
  pub cross_shard_tx_id : TxId
  pub rw_set : List RwVariable
  pub error : String

pub data TxStatus : Type 0 where
  unset pending prepared committed aborted : TxStatus

pub data SimulationStatus : Type 0 where
  unset pending running success failed : SimulationStatus

pub record CrossShardTx : Type 0 where
  pub id : TxId
  pub tx_hash : Hash
  pub from_shard : ℤ
  pub from : Address
  pub to : Address
  pub value : Option ℤ
  pub gas : ℕ
  pub payload : List ℕ
  pub rw_set : List RwVariable
  pub status : TxStatus
  pub sim_status : SimulationStatus
  pub sim_error : String

-- `BigInt.ToBigInt`: nil reads as zero.
unfoldable pub to_big_int : Option ℤ → ℤ
to_big_int none = pos 0
to_big_int (some v) = v

-- `addr[len(addr)-1]`, the byte that assigns an address to a shard.
abbrev pub last_byte : Address → ℕ
last_byte a = a % 256

pub record OrchestratorShardBlock : Type 0 where
  pub height : ℕ
  pub prev_hash : BlockHash
  pub timestamp : ℕ
  pub tpc_result : Map TxId Bool
  pub ct_to_order : List CrossShardTx

pub record StateShardBlock : Type 0 where
  pub shard_id : ℤ
  pub height : ℕ
  pub prev_hash : BlockHash
  pub timestamp : ℕ
  pub state_root : Hash
  pub tx_ordering : List Transaction
  pub prepare_txs : List Transaction
  pub tpc_prepare : Map TxId Bool
