-- ===== src/Shard/Tracking/Accesses.antt =====
-- A call is taken for a cross-shard one exactly if it touches an address of another shard.
use test_v.Prelude.{
  ℕ, ◌≡◌, refl, ◌∙◌, inl, inr, Bool, true, false, not, ◌||◌, List, [], ◌∷◌, Option, none, some,
  ◌==◌, nat_key, if◌then◌else◌, Option-cases, Bool-cases, eq→≡,
}
use test_v.Prelude.Int.{ℤ, int_key}
use test_v.Prelude.Maps.{Map, insert}
use test_v.Prelude.Nested.{lookup2}
use test_v.Protocol.{Address, Hash}
use test_v.Protocol.RwSets.{keys}
use test_v.Shard.Tracking.{
  recorded, forwarded, Inner, TrackingState, address_shard, new_tracking, StateCall, plain, reading,
  reading_both, writing, record_access, track_read, pass_on, get_state,
  get_state_and_committed_state, set_state, any_foreign, has_cross_shard_access, tracked_step,
  tracked_run,
}
use test_v.Shard.Tracking.Recorded.{account_of, recorded_all}

-- The address of the account that a call touches
abbrev pub touched : {Log : Type 0} → StateCall Log → Option Address
touched (plain call) = account_of call
touched (reading addr slot) = some addr
touched (reading_both addr slot) = some addr
touched (writing addr slot new) = some addr

abbrev pub is_foreign : ℕ → ℤ → Option Address → Bool
is_foreign num_shards local none = false
is_foreign num_shards local (some addr) = not (address_shard num_shards addr == local)

abbrev pub touches_foreign : {Log : Type 0} → ℕ → ℤ → List (StateCall Log) → Bool
touches_foreign num_shards local [] = false
touches_foreign num_shards local (call ∷ calls) =
    is_foreign num_shards local (touched call) || touches_foreign num_shards local calls

module _ (n : Inner) where
  -- One more address, new or not
  any_foreign-insert :
      (num_shards : ℕ) (local : ℤ) (addr : Address) (m : Map Address Bool)
      → any_foreign n num_shards local (keys (insert addr true m))
        ≡ (is_foreign num_shards local (some addr) || any_foreign n num_shards local (keys m))
  unfolding any_foreign keys insert
  any_foreign-insert num_shards local addr [] =
      elim (Bool-cases (address_shard num_shards addr == local)) [
        | inl home ↦ rw home refl
        | inr away ↦ rw away refl
      ]
  any_foreign-insert num_shards local addr ((b, flag) ∷ m) = elim (Bool-cases (b == addr)) [
    | inl same ↦ rw (same, eq→≡ b addr same) (again (address_shard num_shards addr == local) _)
    | inr other ↦
        rw (other, any_foreign-insert num_shards local addr m)
          (swap (address_shard num_shards b == local) (address_shard num_shards addr == local) _)
  ]
    where
      again :
          (home rest : Bool)
          → (if home then rest else true) ≡ (not home || (if home then rest else true))
      again true rest = refl
      again false rest = refl

      swap :
          (home home' rest : Bool)
          → (if home then not home' || rest else true)
            ≡ (not home' || (if home then rest else true))
      swap true home' rest = refl
      swap false true rest = refl
      swap false false rest = refl

  -- A state that has recorded one address more, at the same shard
  record Recorded (t t' : TrackingState n) (o : Option Address) : Type 0 where
    foreign :
        has_cross_shard_access n t'
        ≡ (is_foreign t.num_shards t.local_shard_id o || has_cross_shard_access n t)
    shards : t'.num_shards ≡ t.num_shards
    local : t'.local_shard_id ≡ t.local_shard_id

  record_access-Recorded :
      (t : TrackingState n) (addr : Address) → Recorded t (record_access n t addr) (some addr)
  unfolding record_access has_cross_shard_access
  record_access-Recorded t addr = record {
    foreign = any_foreign-insert t.num_shards t.local_shard_id addr t.accessed_addrs;
    shards = refl;
    local = refl;
  }

  track_read-Recorded :
      (t u : TrackingState n) (addr : Address) (slot v : Hash) (o : Option Address)
      → Recorded t u o
      → Recorded t (track_read n u addr slot v) o
  unfolding track_read has_cross_shard_access
  track_read-Recorded t u addr slot v o r =
      elim (Option-cases (lookup2 addr slot u.storage_reads)) [
        | inl first ↦
            rw (first, track_read)
              (record { foreign = r.foreign; shards = r.shards; local = r.local })
        | inr (old, known) ↦ rw (known, track_read) r
      ]

  tracked_step-Recorded :
      (t : TrackingState n) (call : StateCall n.Log)
      → Recorded t (tracked_step n t call).1 (touched call)
  unfolding tracked_step pass_on get_state get_state_and_committed_state set_state
      has_cross_shard_access
  tracked_step-Recorded t (plain call) = rw (← recorded_all call) (go (recorded call))
    where
      go :
          (o : Option Address)
          → Recorded t
              (record (elim o [ none ↦ t | some addr ↦ record_access n t addr ]) {
                inner = (n.perform t.inner (forwarded call)).0;
              })
              o
      go none = record { foreign = refl; shards = refl; local = refl }
      go (some addr) =
          let r = record_access-Recorded t addr in
          record { foreign = r.foreign; shards = r.shards; local = r.local }
  tracked_step-Recorded t (reading addr slot) =
      track_read-Recorded t _ addr slot _ (some addr) (record_access-Recorded t addr)
  tracked_step-Recorded t (reading_both addr slot) =
      track_read-Recorded t _ addr slot _ (some addr) (record_access-Recorded t addr)
  tracked_step-Recorded t (writing addr slot new) =
      let r = track_read-Recorded t _ addr slot _ (some addr) (record_access-Recorded t addr) in
      record { foreign = r.foreign; shards = r.shards; local = r.local }

  tracked_run-foreign :
      (t : TrackingState n) (calls : List (StateCall n.Log))
      → has_cross_shard_access n (tracked_run n t calls).1
        ≡ (touches_foreign t.num_shards t.local_shard_id calls || has_cross_shard_access n t)
  unfolding tracked_run
  tracked_run-foreign t [] = refl
  tracked_run-foreign t (call ∷ calls) =
      let r = tracked_step-Recorded t call in
      let rest = tracked_run-foreign (tracked_step n t call).1 calls in
      rest
      ∙ rw (r.shards, r.local, r.foreign)
          (flip (touches_foreign t.num_shards t.local_shard_id calls)
            (is_foreign t.num_shards t.local_shard_id (touched call)) (has_cross_shard_access n t))
    where
      flip : (a b c : Bool) → (a || (b || c)) ≡ ((b || a) || c)
      flip true true c = refl
      flip true false c = refl
      flip false true c = refl
      flip false false c = refl

  -- Of a simulation on a new wrapper, whatever the EVM calls, the verdict is cross-shard exactly if
  -- one of the calls touches an address of another shard.
  pub has_cross_shard_access_lem :
      (s : n.State) (local : ℤ) (num_shards : ℕ) (calls : List (StateCall n.Log))
      → has_cross_shard_access n (tracked_run n (new_tracking n s local num_shards) calls).1
        ≡ touches_foreign num_shards local calls
  unfolding new_tracking has_cross_shard_access keys
  has_cross_shard_access_lem s local num_shards calls =
      tracked_run-foreign (new_tracking n s local num_shards) calls
      ∙ nothing (touches_foreign num_shards local calls)
    where
      nothing : (b : Bool) → (b || false) ≡ b
      nothing true = refl
      nothing false = refl
