-- ===== src/Orchestrator/Proofs.antt =====
-- internal/orchestrator/statefetcher.go, `VerifyStorageProof`: whether Merkle proofs show the value
-- of a slot under a state root. A Go string is the list of its bytes.
mod Shown
pub mod Sound
mod Tests
use test_v.Prelude.{
  ℕ, Bool, true, false, not, ◌&&◌, ◌||◌, List, [], ◌∷◌, Option, none, some, nat_key, ◌==◌,
  if◌then◌else◌, ltb,
}
use test_v.Prelude.Lists.{length}
use test_v.Prelude.Maps.{Map, lookup, insert, contains}
use test_v.Protocol.{Address, Hash}

-- `proofDB`, as go-ethereum's `trie.VerifyProof` reads it: its `Has`, and its `Get`, where `none` is
-- an error
pub record ProofReader : Type 0 where
  pub has : List ℕ → Bool
  pub get : List ℕ → Option (List ℕ)

-- What the code calls of go-ethereum and the standard library; `none` is an error.
pub record Tries : Type 0 where
  pub keccak : List ℕ → List ℕ
  pub address_bytes : Address → List ℕ
  pub hash_bytes : Hash → List ℕ
  pub bytes_to_hash : List ℕ → Hash
  pub empty_root_hash : Hash
  pub decode_hex : List ℕ → Option (List ℕ)
  -- The value that the key has under the root: empty if the proof shows that it has none
  pub verify_proof : Hash → List ℕ → ProofReader → Option (List ℕ)
  -- `rlp.DecodeBytes` into the account, of which the storage root is used, and into bytes
  pub decode_account : List ℕ → Option Hash
  pub decode_bytes : List ℕ → Option (List ℕ)

pub data ProofError : Type 0 where
  account_proof_too_large storage_proof_too_large : ProofError
  empty_state_root empty_account_proof empty_storage_root : ProofError
  invalid_account_format invalid_storage_format : ProofError
  account_proof_failed storage_proof_failed : ProofError
  undecodable_account undecodable_value : ProofError
  value_mismatch : ProofError

abbrev pub max_proof_nodes : ℕ
max_proof_nodes = 128

-- The checks for a value that is shown to be zero; `none` is success, here and below.
pub must_be_zero : Hash → ProofError → Option ProofError
must_be_zero value err = if not (value == 0) then some err else none

-- `parseProof`: without the prefix "0x", each node is read as hexadecimal digits.
pub without_prefix : List ℕ → List ℕ
without_prefix (a ∷ b ∷ rest) = if (a == 48) && (b == 120) then rest else a ∷ b ∷ rest
without_prefix other = other

module _ (t : Tries) where
  pub parse_proof : List (List ℕ) → Option (List (List ℕ))
  parse_proof [] = some []
  parse_proof (hex_str ∷ rest) = elim (t.decode_hex (without_prefix hex_str)) [
    | none ↦ none
    | some node ↦ elim (parse_proof rest) [ none ↦ none | some nodes ↦ some (node ∷ nodes) ]
  ]

  -- `newProofDB`
  pub add_nodes : Map Hash (List ℕ) → List (List ℕ) → Map Hash (List ℕ)
  add_nodes nodes [] = nodes
  add_nodes nodes (node ∷ rest) =
      add_nodes (insert (t.bytes_to_hash (t.keccak node)) node nodes) rest

  pub has_node : Map Hash (List ℕ) → List ℕ → Bool
  has_node nodes key =
      if not (length key == 32) then false else contains (t.bytes_to_hash key) nodes

  pub get_node : Map Hash (List ℕ) → List ℕ → Option (List ℕ)
  get_node nodes key = if not (length key == 32) then none else lookup (t.bytes_to_hash key) nodes

  pub new_proof_db : List (List ℕ) → ProofReader
  new_proof_db proof = record {
    has = has_node (add_nodes [] proof);
    get = get_node (add_nodes [] proof);
  }

  -- Steps 3 and 4: under the storage root, from the value's encoding
  pub decode_value : List ℕ → Option Hash
  decode_value value_rlp =
      if ltb 0 (length value_rlp)
      then elim (t.decode_bytes value_rlp) [
        | none ↦ none
        | some raw ↦ some (if ltb 0 (length raw) then t.bytes_to_hash raw else 0)
      ]
      else some 0

  pub check_value : Hash → Option Hash → Option ProofError
  check_value value none = some undecodable_value
  check_value value (some stored) = if not (stored == value) then some value_mismatch else none

  pub check_slot : Hash → Option (List ℕ) → Option ProofError
  check_slot value none = some storage_proof_failed
  check_slot value (some value_rlp) = check_value value (decode_value value_rlp)

  pub is_empty_root : Hash → Bool
  is_empty_root root = (root == t.empty_root_hash) || (root == 0)

  pub check_storage : Hash → Hash → List (List ℕ) → Option Hash → Option ProofError
  check_storage slot value storage_nodes none = some undecodable_account
  check_storage slot value storage_nodes (some root) =
      if is_empty_root root
      then must_be_zero value empty_storage_root
      else check_slot value
          (t.verify_proof root (t.keccak (t.hash_bytes slot)) (new_proof_db storage_nodes))

  -- Steps 1 and 2: the storage root of the account
  pub storage_root : List ℕ → Option Hash
  storage_root account_rlp =
      if ltb 0 (length account_rlp) then t.decode_account account_rlp else some t.empty_root_hash

  pub check_account : Hash → Hash → List (List ℕ) → Option (List ℕ) → Option ProofError
  check_account slot value storage_nodes none = some account_proof_failed
  check_account slot value storage_nodes (some account_rlp) =
      check_storage slot value storage_nodes (storage_root account_rlp)

  pub check_parsed :
      Hash
      → Address
      → Hash
      → Hash
      → Option (List (List ℕ))
      → Option (List (List ℕ))
      → Option ProofError
  check_parsed state_root addr slot value none storage = some invalid_account_format
  check_parsed state_root addr slot value (some nodes) none = some invalid_storage_format
  check_parsed state_root addr slot value (some nodes) (some storage_nodes) =
      if length nodes == 0
      then must_be_zero value empty_account_proof
      else check_account slot value storage_nodes
          (t.verify_proof state_root (t.keccak (t.address_bytes addr)) (new_proof_db nodes))

  pub verify_storage_proof :
      Hash → Address → Hash → Hash → List (List ℕ) → List (List ℕ) → Option ProofError
  verify_storage_proof state_root addr slot value account_proof storage_proof =
      if ltb max_proof_nodes (length account_proof)
      then some account_proof_too_large
      else if ltb max_proof_nodes (length storage_proof)
      then some storage_proof_too_large
      else if is_empty_root state_root
      then must_be_zero value empty_state_root
      else check_parsed state_root addr slot value (parse_proof account_proof)
          (parse_proof storage_proof)
