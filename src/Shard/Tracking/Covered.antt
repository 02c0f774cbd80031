-- ===== src/Shard/Tracking/Covered.antt =====
-- The RwSet of a tracked call: a slot's first read is kept, and every slot written has been read, so
-- that its old value is the value read.
use test_v.Prelude.{
  ◌≡◌, refl, ◌⊎◌, inl, inr, ℕ, Bool, true, false, ◌||◌, List, [], ◌∷◌, Option, none, some, is_some,
  eq_refl, nat_key, if◌then◌else◌, Option-cases, Bool-cases, arith,
}
use test_v.Prelude.Int.{ℤ}
use test_v.Prelude.Maps.{Map, lookup, contains, get_or}
use test_v.Prelude.Nested.{lookup2, lookup2-insert2}
use test_v.Protocol.{Address, Hash, Reference}
use test_v.Protocol.RwSets.{
  add_keys, read_at, written_at, find_variable, contains-add_keys, find_variable-map,
  find_read-items, find_write-items,
}
use test_v.Shard.Tracking.{
  Inner, TrackingState, new_tracking, StateCall, plain, reading, reading_both, writing,
  record_access, track_read, pass_on, get_state, get_state_and_committed_state, set_state,
  tracked_variable, tracked_rw_set, tracked_step, tracked_run, recorded,
}

abbrev IsCovered : {n : Inner} → TrackingState n → Type 0
IsCovered t =
    (a : Address) (s : Hash)
    → is_some (lookup2 a s t.storage_writes) ≡ true
    → is_some (lookup2 a s t.storage_reads) ≡ true

module _ (n : Inner) where
  track_read-IsCovered :
      (t : TrackingState n) (addr : Address) (slot v : Hash)
      → IsCovered t
      → IsCovered (track_read n t addr slot v)
  unfolding track_read
  track_read-IsCovered t addr slot v q = elim (Option-cases (lookup2 addr slot t.storage_reads)) [
    | inr (old, known) ↦ rw (known, track_read) q
    | inl first ↦
        rw (first, track_read)
          (λ b u w. ground (arith, q b u w, lookup2-insert2 addr b slot u v t.storage_reads))
  ]

  track_read-known :
      (t : TrackingState n) (addr : Address) (slot v : Hash)
      → is_some (lookup2 addr slot (track_read n t addr slot v).storage_reads) ≡ true
  unfolding track_read
  track_read-known t addr slot v = elim (Option-cases (lookup2 addr slot t.storage_reads)) [
    | inr (old, known) ↦ rw (known, track_read) (rw known refl)
    | inl first ↦
        rw (first, track_read)
          (rw (lookup2-insert2 addr addr slot slot v t.storage_reads, eq_refl addr, eq_refl slot)
            refl)
  ]

  tracked_step-IsCovered :
      (t : TrackingState n) (call : StateCall n.Log)
      → IsCovered t
      → IsCovered (tracked_step n t call).1
  unfolding tracked_step pass_on get_state get_state_and_committed_state set_state record_access
  tracked_step-IsCovered t (plain call) q = go (recorded call)
    where
      go :
          (o : Option Address)
          → IsCovered {n = n} (elim o [ none ↦ t | some addr ↦ record_access n t addr ])
      go none = q
      go (some addr) = q
  tracked_step-IsCovered t (reading addr slot) q =
      track_read-IsCovered (record_access n t addr) addr slot _ q
  tracked_step-IsCovered t (reading_both addr slot) q =
      track_read-IsCovered (record_access n t addr) addr slot _ q
  tracked_step-IsCovered t (writing addr slot new) q =
      let old = n.get_state t.inner addr slot in
      let t' = track_read n (record_access n t addr) addr slot old in
      let q' = track_read-IsCovered (record_access n t addr) addr slot old q in
      let known = track_read-known (record_access n t addr) addr slot old in
      λ b u w. ground (
        arith,
        q' b u,
        known,
        lookup2-insert2 addr b slot u new t'.storage_writes,
        nat_key.same_iff addr b,
        nat_key.same_iff slot u,
      )

  tracked_run-IsCovered :
      (t : TrackingState n) (calls : List (StateCall n.Log))
      → IsCovered t
      → IsCovered (tracked_run n t calls).1
  unfolding tracked_run
  tracked_run-IsCovered t [] q = q
  tracked_run-IsCovered t (call ∷ calls) q =
      tracked_run-IsCovered (tracked_step n t call).1 calls (tracked_step-IsCovered t call q)

  listed : TrackingState n → Map Address Bool
  listed t = add_keys t.storage_writes (add_keys t.storage_reads [])

  is_listed :
      (t : TrackingState n) (a : Address)
      → contains a (listed t)
        ≡ (contains a t.storage_writes || (contains a t.storage_reads || false))
  unfolding listed lookup
  is_listed t a = ground (
    arith,
    contains-add_keys t.storage_writes (add_keys t.storage_reads []) a,
    contains-add_keys t.storage_reads [] a,
  )

  variable-found :
      (t : TrackingState n) (ref : Reference) (a : Address)
      → find_variable a (tracked_rw_set n t ref)
        ≡ (if contains a (listed t) then some (tracked_variable n t ref a) else none)
  unfolding tracked_rw_set listed tracked_variable
  variable-found t ref a = find_variable-map (tracked_variable n t ref) (λ b. refl) (listed t) a

  read_at-tracked :
      (t : TrackingState n) (ref : Reference) (a : Address) (s : Hash)
      → read_at (tracked_rw_set n t ref) a s
        ≡ elim (lookup2 a s t.storage_reads) [ none ↦ none | some v ↦ some (n.hash_bytes v) ]
  unfolding read_at tracked_variable lookup
  read_at-tracked t ref a s = elim (Bool-cases (contains a (listed t))) [
    | inl there ↦
        rw (read_at, variable-found t ref a, there)
          (find_read-items n.hash_bytes (get_or [] a t.storage_reads) s)
    | inr absent ↦ elim (Option-cases (lookup a t.storage_reads)) [
      | inl unread ↦ rw (read_at, variable-found t ref a, absent, unread) refl
      | inr (m, r) ↦ ground (arith, is_listed t a)
    ]
  ]

  written_at-tracked :
      (t : TrackingState n) (ref : Reference) (a : Address) (s : Hash)
      → written_at (tracked_rw_set n t ref) a s ≡ elim (lookup2 a s t.storage_writes) [
        | none ↦ none
        | some v ↦ some (
          n.hash_bytes (elim (lookup2 a s t.storage_reads) [ none ↦ 0 | some old ↦ old ]),
          n.hash_bytes v,
        )
      ]
  unfolding written_at tracked_variable lookup
  written_at-tracked t ref a s = elim (Bool-cases (contains a (listed t))) [
    | inl there ↦
        rw (written_at, variable-found t ref a, there)
          (find_write-items n.hash_bytes (get_or [] a t.storage_reads)
            (get_or [] a t.storage_writes) s)
    | inr absent ↦ elim (Option-cases (lookup a t.storage_writes)) [
      | inl unwritten ↦ rw (written_at, variable-found t ref a, absent, unwritten) refl
      | inr (m, w) ↦ ground (arith, is_listed t a)
    ]
  ]

  -- Of a simulation on a new wrapper, whatever the EVM calls, a slot that the RwSet writes is one
  -- that it reads, and the old value of the write is the value of the read.
  pub tracked_rw_set_covered :
      (inner : n.State) (local : ℤ) (num_shards : ℕ) (calls : List (StateCall n.Log))
      (ref : Reference) (a : Address) (s : Hash)
      → let rw_set =
          tracked_rw_set n (tracked_run n (new_tracking n inner local num_shards) calls).1 ref in
        (written_at rw_set a s ≡ none)
        ⊎ ((old : List ℕ) × (new : List ℕ) × (written_at rw_set a s ≡ some (old, new))
            × (read_at rw_set a s ≡ some old))
  unfolding new_tracking lookup
  tracked_rw_set_covered inner local num_shards calls ref a s =
      let start = new_tracking n inner local num_shards in
      let t = (tracked_run n start calls).1 in
      let q = tracked_run-IsCovered start calls (λ b u w. ground (arith, w)) in
      elim (Option-cases (lookup2 a s t.storage_writes)) [
        | inl unwritten ↦ inl (rw (written_at-tracked t ref a s, unwritten) refl)
        | inr (v, w) ↦ elim (Option-cases (lookup2 a s t.storage_reads)) [
          | inl unread ↦ ground (arith, q a s)
          | inr (old, r) ↦ inr (
            n.hash_bytes old,
            n.hash_bytes v,
            rw (written_at-tracked t ref a s, w, r) refl,
            rw (read_at-tracked t ref a s, r) refl,
          )
        ]
      ]
