-- ===== src/Orchestrator/AccessList/Warm.antt =====
-- internal/orchestrator/statedb.go, `accessList`: the list stands for a set of addresses and
-- a set of slots.
use test_v.Prelude.{
  ℕ, suc, ◌<◌, ◌≡◌, refl, sym, ◌∙◌, ◌⊎◌, inl, inr, true, false, not, ◌&&◌, ◌||◌, [], ◌∷◌, ◌++◌,
  Option, none, some, nat_key, ◌==◌, eq_refl, eq→≡, Option-cases, Bool-cases, arith, ap,
}
use test_v.Prelude.Int.{ℤ, pos, negsuc, int_key}
use test_v.Prelude.Lists.{length, get_elem?, length-append, get_elem?-lt}
use test_v.Prelude.Maps.{lookup, insert, contains, lookup-nil, lookup-insert}
use test_v.Protocol.{Address, Hash}
use test_v.Orchestrator.AccessList.{
  AccessList, SlotSet, slots_at, set_elem, set_at, new_slots, add_slot, contains_address,
  contains_slot,
}
use test_v.Orchestrator.AccessList.Index.{
  set_of, slots_of, IsAccessList, length-set_elem, get_elem?-set_elem, contains-insert, set_of-new,
  set_of-grow, Placed-grow,
}

-- What `AddSlot` has done.
pub record Added (al : AccessList) (a : Address) (s : Hash) (al' : AccessList) : Type 0 where
  pub valid : IsAccessList al'
  pub addresses : (b : Address) → contains_address al' b ≡ (a == b || contains_address al b)
  pub slots :
      (b : Address) (t : Hash)
      → contains t (slots_of al' b) ≡ (a == b && s == t || contains t (slots_of al b))

-- The old addresses under an index in range keep it; the new index is no other's.
module _ (al : AccessList) (a : Address) (s : Hash) (v : IsAccessList al) where
  new_index :
      (b : Address) (idx : ℤ)
      → lookup b (new_slots al a s).addresses ≡ some idx
      → ((a ≡ b) × (idx ≡ pos (length al.slots)))
        ⊎ (((a == b) ≡ false) × (lookup b al.addresses ≡ some idx))
  unfolding new_slots
  new_index b idx h =
      let q = lookup-insert a b (pos (length al.slots)) al.addresses in
      elim (Bool-cases (a == b)) [
        | inl same ↦ inl (eq→≡ a b same, ground arith)
        | inr other ↦ inr (other, ground arith)
      ]

  old_index : (b : Address) (i : ℕ) → lookup b al.addresses ≡ some (pos i) → i < length al.slots
  old_index b i h = elim (v.placed b (pos i) h) [
    | inl e ↦ ground arith
    | inr (j, e, l) ↦ ground arith
  ]

  new_slots-IsAccessList : IsAccessList (new_slots al a s)
  unfolding new_slots
  new_slots-IsAccessList = record {
    placed = λ b idx h. elim (new_index b idx h) [
      | inl (same, e) ↦ inr (length al.slots, e, omega (arith, grown))
      | inr (other, old) ↦ Placed-grow _ _ idx (omega (arith, grown)) (v.placed b idx old)
    ];
    apart = λ b c i h g. elim (new_index b (pos i) h) [
      | inl (same, e) ↦ elim (new_index c (pos i) g) [
        | inl (same', e') ↦ sym same ∙ same'
        | inr (other', old') ↦ ground (arith, old_index c i old')
      ]
      | inr (other, old) ↦ elim (new_index c (pos i) g) [
        | inl (same', e') ↦ ground (arith, old_index b i old)
        | inr (other', old') ↦ v.apart b c i old old'
      ]
    ];
  }
    where
      grown : length (al.slots ++ insert s tt [] ∷ []) ≡ suc (length al.slots)
      grown = omega (arith, length-append al.slots (insert s tt [] ∷ []))

  -- An index that is there already stands for the set it stood for.
  grown_set :
      (b : Address) (o : Option ℤ) (x : SlotSet)
      → lookup b al.addresses ≡ o
      → set_of (al.slots ++ x ∷ []) o ≡ set_of al.slots o
  grown_set b none x h = refl
  grown_set b (some idx) x h = set_of-grow al.slots x idx (v.placed b idx h)

  new_slots-Added : slots_of al a ≡ [] → Added al a s (new_slots al a s)
  unfolding new_slots contains_address
  new_slots-Added none_yet = record {
    valid = new_slots-IsAccessList;
    addresses = λ b. ground (arith, lookup-insert a b (pos (length al.slots)) al.addresses);
    slots = λ b t. elim (Bool-cases (a == b)) [
      | inl same ↦
          let before : slots_of al b ≡ [] = rw (sym (eq→≡ a b same)) none_yet in
          let after : slots_of (new_slots al a s) b ≡ insert s tt [] =
            rw (lookup-insert a b (pos (length al.slots)) al.addresses, same)
              (set_of-new al.slots (insert s tt [])) in
          rw (after, before, same) (contains-insert s t [])
      | inr other ↦
          rw
            (
              lookup-insert a b (pos (length al.slots)) al.addresses,
              other,
              grown_set b (lookup b al.addresses) (insert s tt []) refl,
            )
            refl
    ];
  }

  -- A slot written into the set of an address that has one.
  module _ (i : ℕ) (set : SlotSet) (at : lookup a al.addresses ≡ some (pos i))
      (found : get_elem? al.slots i ≡ some set) where
    written_set :
        (b : Address) (t : Hash) (o : Option ℤ)
        → lookup b al.addresses ≡ o
        → contains t (set_of (set_elem al.slots i (insert s tt set)) o)
          ≡ (a == b && s == t || contains t (set_of al.slots o))
    written_set b t none h = ground (arith, nat_key.same_iff a b)
    written_set b t (some (negsuc k)) h = ground (arith, nat_key.same_iff a b)
    written_set b t (some (pos j)) h =
        let write = get_elem?-set_elem al.slots i j (insert s tt set) (old_index a i at) in
        elim (Bool-cases (i == j)) [
          | inl same ↦
              let owner : a ≡ b =
                v.apart a b i at (h ∙ ap (λ k. some (pos k)) (sym (eq→≡ i j same))) in
              let before : get_elem? al.slots j ≡ some set = rw (sym (eq→≡ i j same)) found in
              rw (set_of, write, same, before, owner, eq_refl b) (contains-insert s t set)
          | inr other ↦
              rw (set_of, write, other) (ground (arith, nat_key.same_iff a b, nat_key.same_iff i j))
        ]

    write-Added : Added al a s (record al { slots = set_elem al.slots i (insert s tt set) })
    unfolding contains_address
    write-Added = record {
      valid = record {
        placed = λ b idx h. rw (length-set_elem al.slots i (insert s tt set)) (v.placed b idx h);
        apart = v.apart;
      };
      addresses = λ b. ground (arith, nat_key.same_iff a b);
      slots = λ b t. written_set b t (lookup b al.addresses) refl;
    }

    same-Added : contains s set ≡ true → Added al a s al
    unfolding contains_address
    same-Added old = record {
      valid = v;
      addresses = λ b. ground (arith, nat_key.same_iff a b);
      slots = λ b t. ground (arith, nat_key.same_iff a b, nat_key.same_iff s t);
    }

index_apart : (i : ℕ) → (pos i == negsuc 0) ≡ false
index_apart i = ground arith

-- Adding a slot to a well-formed access list never panics. The flags tell whether the address and
-- the slot are new, and the list that results is well formed and has that address and that slot
-- besides those it had, and no others.
pub add_slot_lem :
    (al : AccessList) (a : Address) (s : Hash)
    → IsAccessList al
    → (al' : AccessList) × (add_slot al a s
        ≡ some (al', (not (contains_address al a), not (contains s (slots_of al a)))))
      × Added al a s al'
unfolding add_slot contains_address slots_at set_at
add_slot_lem al a s v = elim (Option-cases (lookup a al.addresses)) [
  | inl new ↦ (
    new_slots al a s,
    rw (new, add_slot, lookup-nil s) refl,
    new_slots-Added al a s v (rw new refl),
  )
  | inr (idx, old) ↦ elim (v.placed a idx old) [
    | inl unset ↦ (
      new_slots al a s,
      rw (old, unset, add_slot, lookup-nil s) refl,
      new_slots-Added al a s v (rw (old, unset) refl),
    )
    | inr (i, e, l) ↦
        let (set, found) = get_elem?-lt al.slots i l in
        let at : lookup a al.addresses ≡ some (pos i) = old ∙ ap (λ k. some k) e in
        elim (Option-cases (lookup s set)) [
          | inr (t, there) ↦ (
            al,
            rw (at, set_of, index_apart i, found, there, add_slot) refl,
            same-Added al a s v i set at found (rw there refl),
          )
          | inl absent ↦ (
            _,
            rw (at, set_of, index_apart i, found, absent, add_slot) refl,
            write-Added al a s v i set at found,
          )
        ]
  ]
]

-- In a well-formed access list no question panics.
pub contains_slot_lem :
    (al : AccessList) (a : Address) (s : Hash)
    → IsAccessList al
    → contains_slot al a s ≡ some (contains_address al a, contains s (slots_of al a))
unfolding contains_slot contains_address slots_at
contains_slot_lem al a s v = elim (Option-cases (lookup a al.addresses)) [
  | inl new ↦ rw (new, contains_slot, lookup-nil s) refl
  | inr (idx, old) ↦ elim (v.placed a idx old) [
    | inl unset ↦ rw (old, unset, contains_slot, lookup-nil s) refl
    | inr (i, e, l) ↦
        let (set, found) = get_elem?-lt al.slots i l in
        let at : lookup a al.addresses ≡ some (pos i) = old ∙ ap (λ k. some k) e in
        rw (at, set_of, index_apart i, found, contains_slot) refl
  ]
]
