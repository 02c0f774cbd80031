-- ===== src/Protocol/RwSets.antt =====
-- What the two constructions of an RwSet share (`BuildRwSet` of internal/orchestrator/statedb.go and
-- of internal/shard/tracking_statedb.go), and what can be looked up in an RwSet.
use test_v.Prelude.{
  ℕ, ◌≡◌, refl, sym, ◌∙◌, inl, inr, Bool, true, false, ◌||◌, List, [], ◌∷◌, map, Option, none, some,
  nat_key, ◌==◌, if◌then◌else◌, Bool-cases, arith, eq→≡, ap,
}
use test_v.Prelude.Maps.{Map, lookup, insert, contains, get_or, lookup-insert}
use test_v.Protocol.{Address, Hash, ReadSetItem, WriteSetItem, RwVariable}

-- Values by address and slot
abbrev pub SlotValues : Type 0
SlotValues = Map Address (Map Hash Hash)

-- The loop that collects the addresses of a storage
unfoldable pub add_keys : SlotValues → Map Address Bool → Map Address Bool
add_keys [] addr_set = addr_set
add_keys ((addr, slots) ∷ rest) addr_set = add_keys rest (insert addr true addr_set)

unfoldable pub keys : Map Address Bool → List Address
keys [] = []
keys ((addr, flag) ∷ rest) = addr ∷ keys rest

-- `Hash.Bytes` is a parameter.
module _ (hash_bytes : Hash → List ℕ) where
  unfoldable pub read_items : Map Hash Hash → List ReadSetItem
  read_items [] = []
  read_items ((slot, value) ∷ rest) =
      record { slot = slot; value = hash_bytes value; proof = [] } ∷ read_items rest

  -- A slot with no old value has the old value zero.
  pub write_items : Map Hash Hash → Map Hash Hash → List WriteSetItem
  write_items olds [] = []
  write_items olds ((slot, new_val) ∷ rest) =
      record {
        slot = slot;
        old_value = hash_bytes (get_or 0 slot olds);
        new_value = hash_bytes new_val;
      }
      ∷ write_items olds rest

-- What a reader of an RwSet finds under an address and a slot.
pub find_variable : Address → List RwVariable → Option RwVariable
find_variable a [] = none
find_variable a (v ∷ vs) = if v.address == a then some v else find_variable a vs

pub find_read : Hash → List ReadSetItem → Option (List ℕ)
find_read t [] = none
find_read t (item ∷ items) = if item.slot == t then some item.value else find_read t items

pub find_write : Hash → List WriteSetItem → Option (List ℕ × List ℕ)
find_write t [] = none
find_write t (item ∷ items) =
    if item.slot == t then some (item.old_value, item.new_value) else find_write t items

unfoldable pub read_at : List RwVariable → Address → Hash → Option (List ℕ)
unfolding find_variable find_read
read_at vs a t = elim (find_variable a vs) [ none ↦ none | some v ↦ find_read t v.read_set ]

unfoldable pub written_at : List RwVariable → Address → Hash → Option (List ℕ × List ℕ)
unfolding find_variable find_write
written_at vs a t = elim (find_variable a vs) [ none ↦ none | some v ↦ find_write t v.write_set ]

pub contains-add_keys :
    (st : SlotValues) (m : Map Address Bool) (b : Address)
    → contains b (add_keys st m) ≡ (contains b st || contains b m)
unfolding add_keys lookup
contains-add_keys [] m b = refl
contains-add_keys ((a, slots) ∷ st) m b =
    ground (arith, contains-add_keys st (insert a true m) b, lookup-insert a b true m)

-- In an RwSet that is built address by address, the variable of an address is found.
module _ (var : Address → RwVariable) (addressed : (a : Address) → (var a).address ≡ a) where
  pub find_variable-map :
      (m : Map Address Bool) (a : Address)
      → find_variable a (map var (keys m)) ≡ (if contains a m then some (var a) else none)
  unfolding find_variable keys lookup
  find_variable-map [] a = refl
  find_variable-map ((b, flag) ∷ m) a =
      let e : ((var b).address == a) ≡ (b == a) = ap (λ x. x == a) (addressed b) in
      elim (Bool-cases ((var b).address == a)) [
        | inl same ↦
            let here : (b == a) ≡ true = sym e ∙ same in
            rw (same, here) (ap (λ c. some (var c)) (eq→≡ b a here))
        | inr other ↦
            let away : (b == a) ≡ false = sym e ∙ other in rw (other, away) (find_variable-map m a)
      ]

module _ (hash_bytes : Hash → List ℕ) where
  pub find_read-items :
      (m : Map Hash Hash) (t : Hash)
      → find_read t (read_items hash_bytes m)
        ≡ elim (lookup t m) [ none ↦ none | some v ↦ some (hash_bytes v) ]
  unfolding find_read read_items lookup
  find_read-items [] t = refl
  find_read-items ((u, v) ∷ m) t = ground (arith, find_read-items m t)

  pub find_write-items :
      (olds m : Map Hash Hash) (t : Hash)
      → find_write t (write_items hash_bytes olds m) ≡ elim (lookup t m) [
        | none ↦ none
        | some v ↦ some (hash_bytes (get_or 0 t olds), hash_bytes v)
      ]
  unfolding find_write write_items lookup
  find_write-items olds [] t = refl
  find_write-items olds ((u, v) ∷ m) t =
      ground (arith, find_write-items olds m t, nat_key.same_iff u t)
