-- ===== src/Orchestrator/AccessList/Index.antt =====
-- internal/orchestrator/statedb.go, `accessList`: the index into the sets of slots is exact, and
-- stays so when an address is added.
use test_v.Prelude.{
  ℕ, zero, suc, ◌<◌, ◌≡◌, refl, ◌⊎◌, inl, inr, ◌||◌, List, [], ◌∷◌, ◌++◌, Option, none, some,
  nat_key, ◌==◌, if◌then◌else◌, Option-cases, arith,
}
use test_v.Prelude.Int.{ℤ, pos, negsuc, int_key}
use test_v.Prelude.Lists.{length, get_elem?, get_elem?-snoc_old, get_elem?-append_at, get_elem?-lt}
use test_v.Prelude.Maps.{lookup, insert, contains, lookup-nil, lookup-insert}
use test_v.Protocol.{Address, Hash}
use test_v.Orchestrator.AccessList.{AccessList, SlotSet, new_access_list, add_address, set_elem}

-- The slots under an index
abbrev pub set_of : List SlotSet → Option ℤ → SlotSet
set_of sets none = []
set_of sets (some (negsuc i)) = []
set_of sets (some (pos i)) = elim (get_elem? sets i) [ none ↦ [] | some set ↦ set ]

abbrev pub slots_of : AccessList → Address → SlotSet
slots_of al a = set_of al.slots (lookup a al.addresses)

-- An index that stands for no set, or for one that is there
abbrev pub Placed : ℕ → ℤ → Type 0
Placed n idx = (idx ≡ negsuc 0) ⊎ ((i : ℕ) × (idx ≡ pos i) × (i < n))

pub record IsAccessList (al : AccessList) : Type 0 where
  pub placed :
      (a : Address) (idx : ℤ) → lookup a al.addresses ≡ some idx → Placed (length al.slots) idx
  pub apart :
      (a b : Address) (i : ℕ)
      → lookup a al.addresses ≡ some (pos i)
      → lookup b al.addresses ≡ some (pos i)
      → a ≡ b

pub new-IsAccessList : IsAccessList new_access_list
unfolding new_access_list
new-IsAccessList = record {
  placed = λ a idx h. elim (is_none (lookup-nil a) h) [ ];
  apart = λ a b i h g. elim (is_none (lookup-nil a) h) [ ];
}
  where
    is_none : {o : Option ℤ} {idx : ℤ} → o ≡ none → o ≡ some idx → ⊥
    is_none e h = cc

pub add_address-IsAccessList :
    (al : AccessList) (a : Address) → IsAccessList al → IsAccessList (add_address al a).0
unfolding add_address
add_address-IsAccessList al a v = elim (Option-cases (lookup a al.addresses)) [
  | inr (idx, old) ↦ rw (old, add_address) v
  | inl new ↦
      rw (new, add_address)
        (record {
          placed =
              λ b idx h. ground (arith, lookup-insert a b (negsuc 0) al.addresses, v.placed b idx);
          apart = λ b c i h g. ground (
            arith,
            lookup-insert a b (negsuc 0) al.addresses,
            lookup-insert a c (negsuc 0) al.addresses,
            v.apart b c i,
          );
        })
]

pub length-set_elem :
    (sets : List SlotSet) (i : ℕ) (set : SlotSet) → length (set_elem sets i set) ≡ length sets
unfolding set_elem
length-set_elem [] i set = refl
length-set_elem (x ∷ sets) zero set = refl
length-set_elem (x ∷ sets) (suc i) set = omega (arith, length-set_elem sets i set)

pub get_elem?-set_elem :
    (sets : List SlotSet) (i j : ℕ) (set : SlotSet)
    → i < length sets
    → get_elem? (set_elem sets i set) j ≡ (if i == j then some set else get_elem? sets j)
unfolding set_elem
get_elem?-set_elem [] i j set h = elim h [ ]
get_elem?-set_elem (x ∷ sets) zero zero set h = refl
get_elem?-set_elem (x ∷ sets) zero (suc j) set h = ground arith
get_elem?-set_elem (x ∷ sets) (suc i) zero set h = ground arith
get_elem?-set_elem (x ∷ sets) (suc i) (suc j) set h =
    ground (arith, get_elem?-set_elem sets i j set)

pub contains-insert :
    (s t : Hash) (set : SlotSet) → contains t (insert s tt set) ≡ (s == t || contains t set)
contains-insert s t set = ground (arith, lookup-insert s t tt set)

pub set_of-new :
    (sets : List SlotSet) (x : SlotSet) → set_of (sets ++ x ∷ []) (some (pos (length sets))) ≡ x
set_of-new sets x = rw (get_elem?-append_at sets x, set_of) refl

pub Placed-grow : (m n : ℕ) (idx : ℤ) → m < n → Placed m idx → Placed n idx
Placed-grow m n idx h (inl e) = inl e
Placed-grow m n idx h (inr (i, e, l)) = inr (i, e, omega arith)

-- A new set leaves the sets of the other addresses.
pub set_of-grow :
    (sets : List SlotSet) (x : SlotSet) (idx : ℤ)
    → Placed (length sets) idx
    → set_of (sets ++ x ∷ []) (some idx) ≡ set_of sets (some idx)
set_of-grow sets x idx (inl e) = rw (e) refl
set_of-grow sets x idx (inr (i, e, h)) =
    let (set, found) = get_elem?-lt sets i h in
    rw (e, found, get_elem?-snoc_old sets x set i found) refl
