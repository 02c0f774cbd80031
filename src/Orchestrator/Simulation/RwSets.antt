-- ===== src/Orchestrator/Simulation/RwSets.antt =====
-- internal/orchestrator/statedb.go, `BuildRwSet`, and what can be looked up in its result.
use test_v.Prelude.{
  ◌≡◌, refl, inl, inr, Bool, true, List, [], ◌∷◌, map, none, some, nat_key, ◌==◌, if◌then◌else◌,
  Option-cases, Bool-cases, arith,
}
use test_v.Protocol.RwSets.{
  add_keys, keys, read_items, write_items, find_variable, read_at, written_at, contains-add_keys,
  find_variable-map, find_read-items, find_write-items,
}
use test_v.Prelude.Lists.{All}
use test_v.Prelude.Maps.{Map, lookup, insert, contains, get_or, lookup-insert}
use test_v.Prelude.Nested.{lookup2}
use test_v.Protocol.{ReadSetItem, Address, Hash, RwVariable}
use test_v.Orchestrator.Simulation.{Host, AccountState, SimulationState}

add_changed : Map Address AccountState → Map Address Bool → Map Address Bool
add_changed [] addr_set = addr_set
add_changed ((addr, acct) ∷ rest) addr_set =
    let grown : Map Address Bool =
      if acct.balance == acct.original_balance then addr_set else insert addr true addr_set in
    add_changed rest grown

module _ (h : Host) where
  rw_variable : SimulationState h → Address → RwVariable
  rw_variable s addr = record {
    address = addr;
    reference_block = record {
      shard_num = elim (lookup addr s.accounts) [
        | none ↦ h.address_to_shard addr
        | some acct ↦ acct.shard_id
      ];
      block_hash = 0;
      block_height = 0;
    };
    read_set = read_items h.hash_bytes (get_or [] addr s.reads);
    write_set = write_items h.hash_bytes (get_or [] addr s.write_olds) (get_or [] addr s.writes);
  }

  pub build_rw_set : SimulationState h → List RwVariable
  unfolding add_keys add_changed keys rw_variable
  build_rw_set s =
      map (rw_variable s) (keys (add_changed s.accounts (add_keys s.writes (add_keys s.reads []))))

-- The accounts only add addresses.
contains-add_changed :
    (accounts : Map Address AccountState) (m : Map Address Bool) (b : Address)
    → contains b m ≡ true
    → contains b (add_changed accounts m) ≡ true
unfolding add_changed
contains-add_changed [] m b c = c
contains-add_changed ((a, acct) ∷ rest) m b c =
    elim (Bool-cases (acct.balance == acct.original_balance)) [
      | inl same ↦ rw (same, add_changed) (contains-add_changed rest m b c)
      | inr other ↦
          rw (other, add_changed)
            (contains-add_changed rest (insert a true m) b
              (ground (arith, lookup-insert a b true m)))
    ]

module _ (h : Host) where
  rw_variable-address : (s : SimulationState h) (a : Address) → (rw_variable h s a).address ≡ a
  unfolding rw_variable
  rw_variable-address s a = refl

  -- The addresses of the RwSet
  listed : SimulationState h → Map Address Bool
  unfolding add_keys add_changed
  listed s = add_changed s.accounts (add_keys s.writes (add_keys s.reads []))

  find_variable-build :
      (s : SimulationState h) (a : Address)
      → find_variable a (build_rw_set h s)
        ≡ (if contains a (listed s) then some (rw_variable h s a) else none)
  unfolding build_rw_set listed
  find_variable-build s a = find_variable-map (rw_variable h s) (rw_variable-address s) (listed s) a

  reads-listed :
      (s : SimulationState h) (a : Address)
      → contains a s.reads ≡ true
      → contains a (listed s) ≡ true
  unfolding listed
  reads-listed s a c = contains-add_changed s.accounts _ a (
      ground
        (arith, contains-add_keys s.writes (add_keys s.reads []) a, contains-add_keys s.reads [] a))

  writes-listed :
      (s : SimulationState h) (a : Address)
      → contains a s.writes ≡ true
      → contains a (listed s) ≡ true
  unfolding listed
  writes-listed s a c =
      contains-add_changed s.accounts _ a
        (ground (arith, contains-add_keys s.writes (add_keys s.reads []) a))

  pub read_at-build :
      (s : SimulationState h) (a : Address) (t : Hash)
      → read_at (build_rw_set h s) a t
        ≡ elim (lookup2 a t s.reads) [ none ↦ none | some v ↦ some (h.hash_bytes v) ]
  unfolding read_at rw_variable lookup
  read_at-build s a t = elim (Bool-cases (contains a (listed s))) [
    | inl there ↦
        rw (read_at, find_variable-build s a, there)
          (find_read-items h.hash_bytes (get_or [] a s.reads) t)
    | inr absent ↦ elim (Option-cases (lookup a s.reads)) [
      | inl unread ↦ rw (read_at, find_variable-build s a, absent, unread) refl
      | inr (m, r) ↦ ground (arith, reads-listed s a)
    ]
  ]

  pub written_at-build :
      (s : SimulationState h) (a : Address) (t : Hash)
      → written_at (build_rw_set h s) a t ≡ elim (lookup2 a t s.writes) [
        | none ↦ none
        | some v ↦ some (
          h.hash_bytes (elim (lookup2 a t s.write_olds) [ none ↦ 0 | some old ↦ old ]),
          h.hash_bytes v,
        )
      ]
  unfolding written_at rw_variable lookup
  written_at-build s a t = elim (Bool-cases (contains a (listed s))) [
    | inl there ↦
        rw (written_at, find_variable-build s a, there)
          (find_write-items h.hash_bytes (get_or [] a s.write_olds) (get_or [] a s.writes) t)
    | inr absent ↦ elim (Option-cases (lookup a s.writes)) [
      | inl unwritten ↦ rw (written_at, find_variable-build s a, absent, unwritten) refl
      | inr (m, w) ↦ ground (arith, writes-listed s a)
    ]
  ]

  -- The RwSet has, under every address and slot, exactly the value that the simulation has tracked as
  -- read there, and exactly the value written, with the old value kept for it, or zero.
  pub build_rw_set_lists :
      (s : SimulationState h) (a : Address) (t : Hash)
      → (read_at (build_rw_set h s) a t
          ≡ elim (lookup2 a t s.reads) [ none ↦ none | some v ↦ some (h.hash_bytes v) ])
        × (written_at (build_rw_set h s) a t ≡ elim (lookup2 a t s.writes) [
          | none ↦ none
          | some v ↦ some (
            h.hash_bytes (elim (lookup2 a t s.write_olds) [ none ↦ 0 | some old ↦ old ]),
            h.hash_bytes v,
          )
        ])
  build_rw_set_lists s a t = (read_at-build s a t, written_at-build s a t)

  variables-All :
      (s : SimulationState h) (R : Address → List ReadSetItem → Type 0) (m : Map Address Bool)
      → ((a : Address) → R a (read_items h.hash_bytes (get_or [] a s.reads)))
      → All (λ v. R v.address v.read_set) (map (rw_variable h s) (keys m))
  unfolding keys rw_variable
  variables-All s R [] q = tt
  variables-All s R ((a, flag) ∷ m) q = (q a, variables-All s R m q)

  -- What holds of the read set of every address holds of every variable.
  pub build_rw_set-All :
      (s : SimulationState h) (R : Address → List ReadSetItem → Type 0)
      → ((a : Address) → R a (read_items h.hash_bytes (get_or [] a s.reads)))
      → All (λ v. R v.address v.read_set) (build_rw_set h s)
  unfolding build_rw_set
  build_rw_set-All s R q = variables-All s R _ q
