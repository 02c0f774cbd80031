-- ===== src/Orchestrator/Proofs/Tests.antt =====
-- Runs of the proof verification, on tries of one node: a node is its hash, then its value.
use test_v.Prelude.{◌≡◌, refl, ◌↔◌, ℕ, true, List, [], ◌∷◌, ◌++◌, Option, none, some, arith}
use test_v.Prelude.Maps.{lookup, insert}
use test_v.Orchestrator.Proofs.{
  Tries, value_mismatch, parse_proof, without_prefix, decode_value, check_value, check_slot,
  is_empty_root, check_storage, storage_root, check_account, check_parsed, add_nodes, has_node,
  get_node, new_proof_db, verify_storage_proof,
}
use test_v.Orchestrator.Proofs.Sound.{Shown, verify_storage_proof_lem}

abbrev head_or_zero : List ℕ → ℕ
head_or_zero [] = 0
head_or_zero (x ∷ rest) = x

abbrev after_hash : Option (List ℕ) → Option (List ℕ)
after_hash (some (here ∷ content)) = some content
after_hash other = none

abbrev four_zeros : List ℕ
four_zeros = 0 ∷ 0 ∷ 0 ∷ 0 ∷ []

-- The 32 bytes of a node's hash
abbrev hash_of : ℕ → List ℕ
hash_of n =
    n ∷ 0 ∷ 0 ∷ 0 ∷ four_zeros
    ++ four_zeros
    ++ four_zeros
    ++ four_zeros
    ++ four_zeros
    ++ four_zeros
    ++ four_zeros

abbrev tiny_tries : Tries
tiny_tries = record {
  keccak = λ bytes. hash_of (head_or_zero bytes);
  address_bytes = λ addr. addr ∷ [];
  hash_bytes = λ hash. hash ∷ [];
  bytes_to_hash = head_or_zero;
  empty_root_hash = 1;
  decode_hex = some;
  verify_proof = λ root key reader. after_hash (reader.get (hash_of root));
  decode_account = λ bytes. some (head_or_zero bytes);
  decode_bytes = some;
}

-- Under state root 7 the account has storage root 9, under which the slot has the value 5.
abbrev account_proof : List (List ℕ)
account_proof = (48 ∷ 120 ∷ 7 ∷ 9 ∷ []) ∷ []

abbrev storage_proof : List (List ℕ)
storage_proof = (9 ∷ 5 ∷ []) ∷ []

accepts : verify_storage_proof tiny_tries 7 3 4 5 account_proof storage_proof ≡ none
unfolding verify_storage_proof parse_proof without_prefix check_parsed check_account storage_root
    check_storage check_slot check_value decode_value is_empty_root new_proof_db get_node add_nodes
    lookup insert
accepts = refl

refuses : verify_storage_proof tiny_tries 7 3 4 6 account_proof storage_proof ≡ some value_mismatch
unfolding verify_storage_proof parse_proof without_prefix check_parsed check_account storage_root
    check_storage check_slot check_value decode_value is_empty_root new_proof_db get_node add_nodes
    lookup insert
refuses = refl

present : (new_proof_db tiny_tries storage_proof).has (hash_of 9) ≡ true
unfolding new_proof_db has_node add_nodes lookup insert
present = refl

verify_storage_proof_lem_example :
    (verify_storage_proof tiny_tries 7 3 4 5 account_proof storage_proof ≡ none)
    ↔ Shown tiny_tries 7 3 4 5 account_proof storage_proof
verify_storage_proof_lem_example =
    verify_storage_proof_lem tiny_tries 7 3 4 5 account_proof storage_proof (λ e. omega (arith, e))
