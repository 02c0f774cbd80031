-- ===== src/Orchestrator/Simulation/Slots.antt =====
-- What the reads and writes of a simulation's slots answer: a read is repeatable, a write is seen,
-- and a failed read passes for a zero.
use test_v.Prelude.{
  ◌≡◌, refl, ◌∙◌, ◌⊎◌, inl, inr, ◌&&◌, Option, none, some, nat_key, ◌==◌, if◌then◌else◌,
  Option-cases, arith, eq_refl,
}
use test_v.Prelude.Nested.{lookup2, insert2, lookup2-insert2}
use test_v.Protocol.{Address, Hash}
use test_v.Orchestrator.Simulation.{Host, SimulationState, get_or_fetch_account}
use test_v.Orchestrator.Simulation.Storage.{read_slot, get_state, set_state, record_write}
use test_v.Orchestrator.Simulation.Kept.{fetch-Same}
use test_v.Protocol.RwSets.{read_at}
use test_v.Orchestrator.Simulation.RwSets.{build_rw_set, read_at-build}

abbrev first_of : Option Hash → Option Hash → Option Hash
first_of (some v) o = some v
first_of none o = o

-- What `GetState` answers without a request: the value written, or else the value read.
abbrev pub known : {h : Host} → SimulationState h → Address → Hash → Option Hash
known s a t = first_of (lookup2 a t s.writes) (lookup2 a t s.reads)

module _ (h : Host) where
  pub read_slot-reads :
      (s : SimulationState h) (a : Address) (t : Hash)
      → (read_slot h s a t).1.reads ≡ insert2 a t (read_slot h s a t).0 s.reads
  unfolding read_slot
  read_slot-reads s a t = rw (fetch-Same h s a).reads refl

  read_slot-writes :
      (s : SimulationState h) (a : Address) (t : Hash) → (read_slot h s a t).1.writes ≡ s.writes
  unfolding read_slot
  read_slot-writes s a t = (fetch-Same h s a).writes

  read_slot-olds :
      (s : SimulationState h) (a : Address) (t : Hash)
      → (read_slot h s a t).1.write_olds ≡ s.write_olds
  unfolding read_slot
  read_slot-olds s a t = (fetch-Same h s a).write_olds

  read_slot-known :
      (s : SimulationState h) (a b : Address) (t u : Hash)
      → lookup2 a t s.writes ≡ none
      → known (read_slot h s a t).1 b u
        ≡ (if a == b && t == u then some (read_slot h s a t).0 else known s b u)
  read_slot-known s a b t u e =
      let w : lookup2 b u (read_slot h s a t).1.writes ≡ lookup2 b u s.writes =
        rw (read_slot-writes s a t) refl in
      let r : lookup2 b u (read_slot h s a t).1.reads
          ≡ (if a == b && t == u then some (read_slot h s a t).0 else lookup2 b u s.reads) =
        rw (read_slot-reads s a t) (lookup2-insert2 a b t u (read_slot h s a t).0 s.reads) in
      rw (known, w, r) (ground (arith, e, nat_key.same_iff a b, nat_key.same_iff t u))

  -- How `GetState` ends: with a known value and nothing changed, or with a request.
  pub get_state-cases :
      (s : SimulationState h) (a : Address) (t : Hash)
      → ((v : Hash) × (known s a t ≡ some v) × (get_state h s a t ≡ (v, s)))
        ⊎ ((lookup2 a t s.writes ≡ none)
            × (lookup2 a t s.reads ≡ none)
            × (get_state h s a t ≡ read_slot h s a t))
  unfolding get_state
  get_state-cases s a t = elim (Option-cases (lookup2 a t s.writes)) [
    | inr (v, written) ↦ inl (v, rw (known, written) refl, rw (written, get_state) refl)
    | inl unwritten ↦ elim (Option-cases (lookup2 a t s.reads)) [
      | inr (v, seen) ↦
          inl (v, rw (known, unwritten, seen) refl, rw (unwritten, seen, get_state) refl)
      | inl unseen ↦ inr (unwritten, unseen, rw (unwritten, unseen, get_state) refl)
    ]
  ]

  pub get_state-known :
      (s : SimulationState h) (a b : Address) (t u : Hash)
      → known (get_state h s a t).1 b u
        ≡ (if a == b && t == u then some (get_state h s a t).0 else known s b u)
  get_state-known s a b t u = elim (get_state-cases s a t) [
    | inl (v, k, e) ↦ rw e (ground (arith, k, nat_key.same_iff a b, nat_key.same_iff t u))
    | inr (w, r, e) ↦ rw e (read_slot-known s a b t u w)
  ]

  -- A known value is the answer, without any change.
  pub known-get_state :
      (s : SimulationState h) (a : Address) (t v : Hash)
      → known s a t ≡ some v
      → get_state h s a t ≡ (v, s)
  known-get_state s a t v k = elim (get_state-cases s a t) [
    | inl (v', k', e) ↦ cc
    | inr (w, r, e) ↦ ground (arith, w, r, k)
  ]

  pub set_state-known :
      (s : SimulationState h) (a b : Address) (t u v : Hash)
      → known (set_state h s a t v).1 b u ≡ (if a == b && t == u then some v else known s b u)
  unfolding set_state record_write
  set_state-known s a b t u v =
      ground
        (arith, lookup2-insert2 a b t u v (get_state h s a t).1.writes, get_state-known s a b t u)

  -- A slot reads back what was last written to it, and every other slot whose value is known reads
  -- as before the write; neither question changes the state.
  pub set_state_get_state :
      (s : SimulationState h) (a b : Address) (t u v w : Hash)
      → known s b u ≡ some w
      → (get_state h (set_state h s a t v).1 a t ≡ (v, (set_state h s a t v).1))
        × (get_state h (set_state h s a t v).1 b u
            ≡ (if a == b && t == u then v else w, (set_state h s a t v).1))
  set_state_get_state s a b t u v w k = (
    known-get_state (set_state h s a t v).1 a t v
        (set_state-known s a a t t v ∙ rw (eq_refl a, eq_refl t) refl),
    known-get_state (set_state h s a t v).1 b u (if a == b && t == u then v else w)
        (ground (arith, set_state-known s a b t u v, k)),
  )

  read_slot-listed :
      (s : SimulationState h) (a : Address) (t : Hash)
      → read_at (build_rw_set h (read_slot h s a t).1) a t
        ≡ some (h.hash_bytes (read_slot h s a t).0)
  read_slot-listed s a t =
      rw
        (
          read_at-build h (read_slot h s a t).1 a t,
          read_slot-reads s a t,
          lookup2-insert2 a a t t (read_slot h s a t).0 s.reads,
          eq_refl a,
          eq_refl t,
        )
        refl

  read_slot-lost :
      (s : SimulationState h) (a : Address) (t : Hash)
      → (h.get_storage_at
          (get_or_fetch_account h s a).1.fetcher
          (get_or_fetch_account h s a).1.tx_id
          (get_or_fetch_account h s a).0.shard_id
          a
          t).1
        ≡ none
      → (read_slot h s a t).0 ≡ 0
  unfolding read_slot
  read_slot-lost s a t e = rw e refl

  read_slot-errors :
      (s : SimulationState h) (a : Address) (t : Hash)
      → (read_slot h s a t).1.fetch_errors ≡ (get_or_fetch_account h s a).1.fetch_errors
  unfolding read_slot
  read_slot-errors s a t = refl

  -- If the request for the value of a slot fails that is neither read nor written yet, the answer is
  -- zero, the RwSet claims that zero was read, and no error is recorded but what fetching the
  -- account has recorded.
  pub get_state_lost :
      (s : SimulationState h) (a : Address) (t : Hash)
      → known s a t ≡ none
      → (h.get_storage_at
          (get_or_fetch_account h s a).1.fetcher
          (get_or_fetch_account h s a).1.tx_id
          (get_or_fetch_account h s a).0.shard_id
          a
          t).1
        ≡ none
      → ((get_state h s a t).0 ≡ 0)
        × (read_at (build_rw_set h (get_state h s a t).1) a t ≡ some (h.hash_bytes 0))
        × ((get_state h s a t).1.fetch_errors ≡ (get_or_fetch_account h s a).1.fetch_errors)
  get_state_lost s a t k e = elim (get_state-cases s a t) [
    | inl (v, k', e') ↦ ground (arith, k, k')
    | inr (w, r, e') ↦
        let zero = read_slot-lost s a t e in
        rw e' (zero, rw zero at (read_slot-listed s a t), read_slot-errors s a t)
  ]
