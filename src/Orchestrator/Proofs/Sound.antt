-- ===== src/Orchestrator/Proofs/Sound.antt =====
-- What a storage proof that is accepted shows.
use test_v.Prelude.{
  ◌≡◌, ◌≢◌, ◌↔◌, inl, inr, ℕ, ◌≤◌, false, List, [], Option, none, some, arith, nat_key, Bool-cases,
  Option-cases,
}
use test_v.Prelude.Lists.{length}
use test_v.Protocol.{Address, Hash}
use test_v.Orchestrator.Proofs.{
  Tries, empty_state_root, max_proof_nodes, must_be_zero, parse_proof, is_empty_root, check_parsed,
  verify_storage_proof,
}
use test_v.Orchestrator.Proofs.Shown.{
  AccountShown, must_be_zero_refuses, check_parsed-AccountShown, AccountShown-check_parsed,
}

module _ (t : Tries) where
  pub record Shown (state_root : Hash) (addr : Address) (slot value : Hash)
      (account_proof storage_proof : List (List ℕ)) : Type 0 where
    pub nodes : List (List ℕ)
    pub storage_nodes : List (List ℕ)
    pub small : length account_proof ≤ max_proof_nodes
    pub storage_small : length storage_proof ≤ max_proof_nodes
    pub not_empty : is_empty_root t state_root ≡ false
    pub parsed : parse_proof t account_proof ≡ some nodes
    pub storage_parsed : parse_proof t storage_proof ≡ some storage_nodes
    pub shown : AccountShown t state_root addr slot value nodes storage_nodes

  unparsed_account :
      (state_root : Hash) (addr : Address) (slot value : Hash) (storage : Option (List (List ℕ)))
      → check_parsed t state_root addr slot value none storage ≢ none
  unfolding check_parsed
  unparsed_account state_root addr slot value storage e = cc

  unparsed_storage :
      (state_root : Hash) (addr : Address) (slot value : Hash) (nodes : List (List ℕ))
      → check_parsed t state_root addr slot value (some nodes) none ≢ none
  unfolding check_parsed
  unparsed_storage state_root addr slot value nodes e = cc

  -- The checks of sizes and of the state root
  accepted_size :
      (state_root : Hash) (addr : Address) (slot value : Hash)
      (account_proof storage_proof : List (List ℕ))
      → value ≢ 0
      → verify_storage_proof t state_root addr slot value account_proof storage_proof ≡ none
      → (length account_proof ≤ max_proof_nodes)
        × (length storage_proof ≤ max_proof_nodes)
        × (is_empty_root t state_root ≡ false)
        × (check_parsed t state_root addr slot value
              (parse_proof t account_proof)
              (parse_proof t storage_proof)
            ≡ none)
  unfolding verify_storage_proof
  accepted_size state_root addr slot value account_proof storage_proof n e =
      elim (Bool-cases (is_empty_root t state_root)) [
        | inl empty ↦
            absurd (must_be_zero_refuses t value empty_state_root n (ground (arith, empty, e)))
        | inr full ↦ (ground (arith, e), ground (arith, e), full, ground (arith, full, e))
      ]

  verify_storage_proof-Shown :
      (state_root : Hash) (addr : Address) (slot value : Hash)
      (account_proof storage_proof : List (List ℕ))
      → value ≢ 0
      → verify_storage_proof t state_root addr slot value account_proof storage_proof ≡ none
      → Shown state_root addr slot value account_proof storage_proof
  verify_storage_proof-Shown state_root addr slot value account_proof storage_proof n e =
      let (small, storage_small, full, rest) =
        accepted_size state_root addr slot value account_proof storage_proof n e in
      elim (Option-cases (parse_proof t account_proof)) [
        | inl bad ↦ absurd (
            unparsed_account state_root addr slot value (parse_proof t storage_proof)
              (rw bad at rest))
        | inr (nodes, parsed) ↦ elim (Option-cases (parse_proof t storage_proof)) [
          | inl bad ↦
              absurd (unparsed_storage state_root addr slot value nodes (rw (parsed, bad) at rest))
          | inr (storage_nodes, storage_parsed) ↦ record {
            nodes = nodes;
            storage_nodes = storage_nodes;
            small = small;
            storage_small = storage_small;
            not_empty = full;
            parsed = parsed;
            storage_parsed = storage_parsed;
            shown =
                check_parsed-AccountShown t state_root addr slot value nodes storage_nodes n
                  (rw (parsed, storage_parsed) at rest);
          }
        ]
      ]

  Shown-verify_storage_proof :
      (state_root : Hash) (addr : Address) (slot value : Hash)
      (account_proof storage_proof : List (List ℕ))
      → Shown state_root addr slot value account_proof storage_proof
      → verify_storage_proof t state_root addr slot value account_proof storage_proof ≡ none
  unfolding verify_storage_proof
  Shown-verify_storage_proof state_root addr slot value account_proof storage_proof q =
      let checks =
        AccountShown-check_parsed t state_root addr slot value q.nodes q.storage_nodes q.shown in
      let parsed_checks : check_parsed t state_root addr slot value (parse_proof t account_proof)
            (parse_proof t storage_proof)
          ≡ none =
        rw (q.parsed, q.storage_parsed) checks in
      ground (arith, q.small, q.storage_small, q.not_empty, parsed_checks)

  -- A value that is not zero is accepted exactly if both proofs have at most 128 nodes and parse, the
  -- account proof shows an account under a state root that is not the empty one, and the storage
  -- proof shows this value in the slot under the storage root of that account.
  pub verify_storage_proof_lem :
      (state_root : Hash) (addr : Address) (slot value : Hash)
      (account_proof storage_proof : List (List ℕ))
      → value ≢ 0
      → (verify_storage_proof t state_root addr slot value account_proof storage_proof ≡ none)
        ↔ Shown state_root addr slot value account_proof storage_proof
  verify_storage_proof_lem state_root addr slot value account_proof storage_proof n = (
    verify_storage_proof-Shown state_root addr slot value account_proof storage_proof n,
    Shown-verify_storage_proof state_root addr slot value account_proof storage_proof,
  )

  -- With an empty account proof the value zero is accepted under every state root.
  zero_unproved :
      (state_root : Hash) (addr : Address) (slot : Hash) (storage_proof nodes : List (List ℕ))
      → length storage_proof ≤ max_proof_nodes
      → parse_proof t storage_proof ≡ some nodes
      → verify_storage_proof t state_root addr slot 0 [] storage_proof ≡ none
  unfolding verify_storage_proof parse_proof check_parsed must_be_zero
  zero_unproved state_root addr slot storage_proof nodes small parsed =
      ground (arith, small, parsed)
