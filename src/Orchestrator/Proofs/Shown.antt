-- ===== src/Orchestrator/Proofs/Shown.antt =====
-- What parsed storage proofs that are accepted show, from the slot up to the account.
use test_v.Prelude.{
  ◌≡◌, refl, ◌≢◌, inl, inr, ℕ, true, false, List, none, some, arith, nat_key, ◌==◌, ltb, Bool-cases,
  Option-cases, eq_refl,
}
use test_v.Prelude.Lists.{length}
use test_v.Protocol.{Address, Hash}
use test_v.Orchestrator.Proofs.{
  Tries, ProofError, empty_storage_root, empty_account_proof, must_be_zero, new_proof_db,
  decode_value, check_value, check_slot, is_empty_root, check_storage, storage_root, check_account,
  check_parsed,
}

module _ (t : Tries) where
  -- The slot has the value under the storage root.
  pub record SlotShown (slot value : Hash) (nodes : List (List ℕ)) (root : Hash) : Type 0 where
    pub value_rlp : List ℕ
    pub raw : List ℕ
    pub not_empty : is_empty_root t root ≡ false
    pub proved :
        t.verify_proof root (t.keccak (t.hash_bytes slot)) (new_proof_db t nodes) ≡ some value_rlp
    pub has_value : ltb 0 (length value_rlp) ≡ true
    pub decoded : t.decode_bytes value_rlp ≡ some raw
    pub has_bytes : ltb 0 (length raw) ≡ true
    pub same : t.bytes_to_hash raw ≡ value

  -- The account is under the state root, and the slot has the value under the account's root.
  pub record AccountShown (state_root : Hash) (addr : Address) (slot value : Hash)
      (nodes storage_nodes : List (List ℕ)) : Type 0 where
    pub account_rlp : List ℕ
    pub root : Hash
    pub has_nodes : (length nodes == 0) ≡ false
    pub account :
        t.verify_proof state_root (t.keccak (t.address_bytes addr)) (new_proof_db t nodes)
        ≡ some account_rlp
    pub exists : ltb 0 (length account_rlp) ≡ true
    pub has_root : t.decode_account account_rlp ≡ some root
    pub slot_shown : SlotShown slot value storage_nodes root

  pub must_be_zero_refuses :
      (value : Hash) (err : ProofError) → value ≢ 0 → must_be_zero value err ≢ none
  unfolding must_be_zero
  must_be_zero_refuses value err n e = ground arith

  check_value_shown :
      (value : Hash) (value_rlp : List ℕ)
      → value ≢ 0
      → check_value t value (decode_value t value_rlp) ≡ none
      → (raw : List ℕ) × (ltb 0 (length value_rlp) ≡ true)
        × (t.decode_bytes value_rlp ≡ some raw)
        × (ltb 0 (length raw) ≡ true)
        × (t.bytes_to_hash raw ≡ value)
  unfolding decode_value check_value
  check_value_shown value value_rlp n e = elim (Bool-cases (ltb 0 (length value_rlp))) [
    | inr absent ↦ absurd (ground arith)
    | inl present ↦ elim (Option-cases (t.decode_bytes value_rlp)) [
      | inl failed ↦ absurd (ground (arith, failed))
      | inr (raw, decoded) ↦
          (raw, present, decoded, ground (arith, decoded), ground (arith, decoded))
    ]
  ]

  check_storage-SlotShown :
      (slot value : Hash) (nodes : List (List ℕ)) (root : Hash)
      → value ≢ 0
      → check_storage t slot value nodes (some root) ≡ none
      → SlotShown slot value nodes root
  unfolding check_storage check_slot
  check_storage-SlotShown slot value nodes root n e = elim (Bool-cases (is_empty_root t root)) [
    | inl empty ↦ absurd (must_be_zero_refuses value empty_storage_root n (ground (arith, empty)))
    | inr full ↦
        (let key = t.keccak (t.hash_bytes slot) in
          elim (Option-cases (t.verify_proof root key (new_proof_db t nodes))) [
            | inl failed ↦ absurd (ground (arith, full, failed))
            | inr (value_rlp, proved) ↦
                (let (raw, present, decoded, bytes, same) =
                    check_value_shown value value_rlp n (ground (arith, full, proved)) in
                  record {
                    value_rlp = value_rlp;
                    raw = raw;
                    not_empty = full;
                    proved = proved;
                    has_value = present;
                    decoded = decoded;
                    has_bytes = bytes;
                    same = same;
                  })
          ])
  ]

  empty_root_hash_empty : is_empty_root t t.empty_root_hash ≢ false
  unfolding is_empty_root
  empty_root_hash_empty e = ground (arith, eq_refl t.empty_root_hash, e)

  undecodable :
      (slot value : Hash) (nodes : List (List ℕ)) → check_storage t slot value nodes none ≢ none
  unfolding check_storage
  undecodable slot value nodes e = cc

  no_account :
      (slot value : Hash) (nodes : List (List ℕ)) → check_account t slot value nodes none ≢ none
  unfolding check_account
  no_account slot value nodes e = cc

  -- An account that does not exist has the empty storage root.
  absent_account :
      (slot value : Hash) (nodes : List (List ℕ))
      → value ≢ 0
      → check_storage t slot value nodes (some t.empty_root_hash) ≢ none
  absent_account slot value nodes n e =
      let q = check_storage-SlotShown slot value nodes t.empty_root_hash n e in
      empty_root_hash_empty q.not_empty

  read_account :
      (slot value : Hash) (storage_nodes : List (List ℕ)) (account_rlp : List ℕ)
      → value ≢ 0
      → check_account t slot value storage_nodes (some account_rlp) ≡ none
      → (root : Hash) × (ltb 0 (length account_rlp) ≡ true)
        × (t.decode_account account_rlp ≡ some root)
        × SlotShown slot value storage_nodes root
  unfolding check_account storage_root
  read_account slot value storage_nodes account_rlp n e =
      elim (Bool-cases (ltb 0 (length account_rlp))) [
        | inr absent ↦ absurd (
            absent_account slot value storage_nodes n
              (rw (absent, check_account, storage_root) at e))
        | inl present ↦ elim (Option-cases (t.decode_account account_rlp)) [
          | inl failed ↦ absurd (undecodable slot value storage_nodes (rw (present, failed) at e))
          | inr (root, decoded) ↦ (
            root,
            present,
            decoded,
            check_storage-SlotShown slot value storage_nodes root n (rw (present, decoded) at e),
          )
        ]
      ]

  pub check_parsed-AccountShown :
      (state_root : Hash) (addr : Address) (slot value : Hash) (nodes storage_nodes : List (List ℕ))
      → value ≢ 0
      → check_parsed t state_root addr slot value (some nodes) (some storage_nodes) ≡ none
      → AccountShown state_root addr slot value nodes storage_nodes
  unfolding check_parsed
  check_parsed-AccountShown state_root addr slot value nodes storage_nodes n e =
      elim (Bool-cases (length nodes == 0)) [
        | inl empty ↦
            absurd (must_be_zero_refuses value empty_account_proof n (ground (arith, empty)))
        | inr full ↦
            (let key = t.keccak (t.address_bytes addr) in
              elim (Option-cases (t.verify_proof state_root key (new_proof_db t nodes))) [
                | inl failed ↦ absurd (no_account slot value storage_nodes (rw (full, failed) at e))
                | inr (account_rlp, proved) ↦
                    (let (root, exists, decoded, slot_shown) =
                        read_account slot value storage_nodes account_rlp n
                          (rw (full, proved) at e) in
                      record {
                        account_rlp = account_rlp;
                        root = root;
                        has_nodes = full;
                        account = proved;
                        exists = exists;
                        has_root = decoded;
                        slot_shown = slot_shown;
                      })
              ])
      ]

  SlotShown-check_storage :
      (slot value : Hash) (nodes : List (List ℕ)) (root : Hash)
      → SlotShown slot value nodes root
      → check_storage t slot value nodes (some root) ≡ none
  unfolding check_storage check_slot check_value decode_value
  SlotShown-check_storage slot value nodes root q =
      rw
        (
          q.not_empty,
          q.proved,
          check_slot,
          q.has_value,
          q.decoded,
          q.has_bytes,
          check_value,
          q.same,
          eq_refl value,
        )
        refl

  pub AccountShown-check_parsed :
      (state_root : Hash) (addr : Address) (slot value : Hash) (nodes storage_nodes : List (List ℕ))
      → AccountShown state_root addr slot value nodes storage_nodes
      → check_parsed t state_root addr slot value (some nodes) (some storage_nodes) ≡ none
  unfolding check_parsed check_account storage_root
  AccountShown-check_parsed state_root addr slot value nodes storage_nodes q =
      rw
        (
          q.has_nodes,
          q.account,
          check_account,
          q.exists,
          q.has_root,
          SlotShown-check_storage slot value storage_nodes q.root q.slot_shown,
        )
        refl
