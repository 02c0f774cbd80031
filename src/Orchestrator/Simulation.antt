-- ===== src/Orchestrator/Simulation.antt =====
-- internal/orchestrator/statedb.go, `SimulationStateDB`: the state that a simulation runs on. It
-- fetches accounts and slots from their shards when they are first used, and tracks the reads and
-- writes for the RwSet. This file has the data and the operations on accounts; Storage has those on
-- slots and snapshots, RwSets the construction of the RwSet.
-- A nil slice is the empty list; a value read through a pointer is the value.
pub mod Storage
pub mod Kept
pub mod Calm
pub mod Reverts
pub mod RwSets
pub mod Slots
pub mod Tracked
pub mod Preparing
pub mod Honest
pub mod Runs
pub mod Tests
use test_v.Prelude.{
  ℕ, ◌+◌, ◌-◌, ◌%◌, Bool, true, false, ◌&&◌, ◌||◌, List, [], ◌∷◌, ◌++◌, Option, none, some, ltb,
  String, u64, nat_key, ◌==◌, if◌then◌else◌,
}
use test_v.Prelude.Int.{ℤ}
use test_v.Prelude.Lists.{length}
use test_v.Prelude.Maps.{Map, lookup, insert}
use test_v.Protocol.{Address, Hash, TxId}
use test_v.Protocol.RwSets.{SlotValues}
use test_v.Orchestrator.AccessList.{
  AccessList, new_access_list, add_address, add_slot, contains_address, contains_slot,
}

-- `FetchStateResponse`, as the fetcher hands it on
pub record FetchStateResponse : Type 0 where
  pub balance : Option ℤ
  pub nonce : ℕ
  pub code : List ℕ
  pub code_hash : Hash

pub data Fetched : Type 0 where
  fetched : FetchStateResponse → Fetched
  unavailable : String → Fetched

-- The fetcher, whose requests may change its own state, and what the code calls of go-ethereum.
pub record Host : Type 1 where
  pub State : Type 0
  pub fetch_state : State → TxId → ℤ → Address → State × Fetched
  -- `none` is an error.
  pub get_storage_at : State → TxId → ℤ → Address → Hash → State × Option Hash
  pub address_to_shard : Address → ℤ
  pub keccak : List ℕ → Hash
  -- `uint256.MustFromBig`; `none` is its panic, on a number that is not within 256 bits.
  pub must_from_big : ℤ → Option ℕ
  -- `Hash.Bytes`
  pub hash_bytes : Hash → List ℕ
  pub Log : Type 0

pub record AccountState : Type 0 where
  pub balance : ℕ
  pub original_balance : ℕ
  pub nonce : ℕ
  pub code : List ℕ
  pub code_hash : Hash
  pub shard_id : ℤ
  pub destructed : Bool
  pub created : Bool

pub record Snapshot : Type 0 where
  pub accounts : Map Address AccountState
  pub reads : SlotValues
  pub writes : SlotValues
  pub refund : ℕ
  pub logs_len : ℕ

pub record SimulationState (h : Host) : Type 0 where
  pub tx_id : TxId
  pub fetcher : h.State
  pub accounts : Map Address AccountState
  pub reads : SlotValues
  pub writes : SlotValues
  pub write_olds : SlotValues
  pub access_list : AccessList
  pub logs : List h.Log
  pub refund : ℕ
  pub snapshots : List Snapshot
  pub transient : SlotValues
  pub fetch_errors : List String
  -- `MustFromBig` has panicked. The call of the EVM ends with the operation that sets this (see `step`),
  -- so nothing else of such a state is ever looked at.
  pub panicked : Bool

-- An account with nothing in it
pub empty_account : ℤ → Bool → AccountState
empty_account shard created = record {
  balance = 0;
  original_balance = 0;
  nonce = 0;
  code = [];
  code_hash = 0;
  shard_id = shard;
  destructed = false;
  created = created;
}

-- uint256's arithmetic wraps modulo 2 ^ 256.
abbrev pub word : ℕ
word = 115792089237316195423570985008687907853269984665640564039457584007913129639936

module _ (h : Host) where
  unfoldable pub new_simulation : TxId → h.State → SimulationState h
  new_simulation tx_id fetcher = record {
    tx_id = tx_id;
    fetcher = fetcher;
    accounts = [];
    reads = [];
    writes = [];
    write_olds = [];
    access_list = new_access_list;
    logs = [];
    refund = 0;
    snapshots = [];
    transient = [];
    fetch_errors = [];
    panicked = false;
  }

  -- The balance of a response; `none` is a panic.
  pub fetched_balance : FetchStateResponse → Option ℕ
  fetched_balance resp = elim resp.balance [ none ↦ some 0 | some b ↦ h.must_from_big b ]

  -- The account of a response with its balance
  pub fetched_account : ℤ → FetchStateResponse → ℕ → AccountState
  fetched_account shard resp balance = record {
    balance = balance;
    original_balance = balance;
    nonce = resp.nonce;
    code = resp.code;
    code_hash =
        if length resp.code == 0
        then 0
        else if resp.code_hash == 0
        then h.keccak resp.code
        else resp.code_hash;
    shard_id = shard;
    destructed = false;
    created = false;
  }

  -- `getOrFetchAccount` after the request: an error is recorded, and its account is not cached.
  unfoldable pub cache_account :
      SimulationState h → Address → ℤ → h.State × Fetched → AccountState × SimulationState h
  unfolding fetched_balance fetched_account empty_account
  cache_account s addr shard (f, unavailable e) =
      (empty_account shard false, record s { fetcher = f; fetch_errors = s.fetch_errors ++ e ∷ [] })
  cache_account s addr shard (f, fetched resp) = elim (fetched_balance resp) [
    | none ↦ (empty_account shard false, record s { fetcher = f; panicked = true })
    | some balance ↦
        let acct = fetched_account shard resp balance in
        (acct, record s { fetcher = f; accounts = insert addr acct s.accounts })
  ]

  unfoldable pub get_or_fetch_account :
      SimulationState h → Address → AccountState × SimulationState h
  unfolding cache_account
  get_or_fetch_account s addr = elim (lookup addr s.accounts) [
    | some acct ↦ (acct, s)
    | none ↦
        let shard = h.address_to_shard addr in
        cache_account s addr shard (h.fetch_state s.fetcher s.tx_id shard addr)
  ]

  -- A write through the pointer that `getOrFetchAccount` returned: it lasts if the account is
  -- cached.
  pub change : SimulationState h → Address → (AccountState → AccountState) → SimulationState h
  change s addr f = elim (lookup addr s.accounts) [
    | none ↦ s
    | some acct ↦ record s { accounts = insert addr (f acct) s.accounts }
  ]

  -- `CreateAccount`, and `CreateContract`, which only calls it
  pub create_account : SimulationState h → Address → SimulationState h
  unfolding empty_account
  create_account s addr = record s {
    accounts = insert addr (empty_account (h.address_to_shard addr) true) s.accounts;
  }

  -- What an operation that needs the account returns, with the account fetched, and changed.
  abbrev pub with_account :
      {A : Type 0}
      → SimulationState h
      → Address
      → (AccountState → A)
      → (AccountState → AccountState)
      → A × SimulationState h
  with_account s addr result f =
      let (acct, s') = get_or_fetch_account s addr in (result acct, change s' addr f)

  pub get_balance : SimulationState h → Address → ℕ × SimulationState h
  get_balance s addr = let (acct, s') = get_or_fetch_account s addr in (acct.balance, s')

  -- The balance before is returned.
  pub sub_balance : SimulationState h → Address → ℕ → ℕ × SimulationState h
  sub_balance s addr amount =
      with_account s addr (λ a. a.balance)
        (λ a. record a { balance = (a.balance + word - amount % word) % word })

  pub add_balance : SimulationState h → Address → ℕ → ℕ × SimulationState h
  add_balance s addr amount =
      with_account s addr (λ a. a.balance) (λ a. record a { balance = (a.balance + amount) % word })

  pub get_nonce : SimulationState h → Address → ℕ × SimulationState h
  get_nonce s addr = let (acct, s') = get_or_fetch_account s addr in (acct.nonce, s')

  pub set_nonce : SimulationState h → Address → ℕ → SimulationState h
  set_nonce s addr nonce = (with_account s addr (λ a. tt) (λ a. record a { nonce = nonce })).1

  pub get_code_hash : SimulationState h → Address → Hash × SimulationState h
  get_code_hash s addr =
      let (acct, s') = get_or_fetch_account s addr in
      (if length acct.code == 0 then 0 else acct.code_hash, s')

  pub get_code : SimulationState h → Address → List ℕ × SimulationState h
  get_code s addr = let (acct, s') = get_or_fetch_account s addr in (acct.code, s')

  pub get_code_size : SimulationState h → Address → ℕ × SimulationState h
  unfolding get_code
  get_code_size s addr = let (code, s') = get_code s addr in (length code, s')

  -- The code before is returned.
  pub set_code : SimulationState h → Address → List ℕ → List ℕ × SimulationState h
  set_code s addr code =
      with_account s addr (λ a. a.code)
        (λ a. record a {
          code = code;
          code_hash = if ltb 0 (length code) then h.keccak code else 0;
        })

  -- The balance before is returned.
  pub self_destruct : SimulationState h → Address → ℕ × SimulationState h
  self_destruct s addr =
      with_account s addr (λ a. a.balance) (λ a. record a { balance = 0; destructed = true })

  pub has_self_destructed : SimulationState h → Address → Bool
  has_self_destructed s addr = elim (lookup addr s.accounts) [
    | none ↦ false
    | some acct ↦ acct.destructed
  ]

  -- Only what the transaction created is destructed.
  pub self_destruct6780 : SimulationState h → Address → (ℕ × Bool) × SimulationState h
  self_destruct6780 s addr =
      with_account s addr (λ a. (a.balance, a.created))
        (λ a. if a.created then record a { balance = 0; destructed = true } else a)

  pub exist : SimulationState h → Address → Bool × SimulationState h
  exist s addr =
      let (acct, s') = get_or_fetch_account s addr in
      (ltb 0 acct.nonce || ltb 0 acct.balance || ltb 0 (length acct.code), s')

  pub empty : SimulationState h → Address → Bool × SimulationState h
  empty s addr =
      let (acct, s') = get_or_fetch_account s addr in
      (acct.nonce == 0 && acct.balance == 0 && length acct.code == 0, s')

  pub add_refund : SimulationState h → ℕ → SimulationState h
  add_refund s gas = record s { refund = u64 (s.refund + gas) }

  -- The refund stops at 0.
  pub sub_refund : SimulationState h → ℕ → SimulationState h
  sub_refund s gas = record s { refund = if ltb s.refund gas then 0 else s.refund - gas }

  pub add_log : SimulationState h → h.Log → SimulationState h
  add_log s log = record s { logs = s.logs ++ log ∷ [] }

  pub has_fetch_errors : SimulationState h → Bool
  has_fetch_errors s = ltb 0 (length s.fetch_errors)
