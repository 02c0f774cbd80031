-- ===== src/Orchestrator/Simulation/Tracked.antt =====
-- The invariant of a simulation's tracking: every slot written has been read.
use test_v.Prelude.{
  ℕ, ◌≡◌, refl, sym, ◌∙◌, inl, inr, true, some, nat_key, is_some, Option-cases, arith, eq_refl,
}
use test_v.Prelude.Lists.{get_elem?, get_elem?-snoc, get_elem?-take}
use test_v.Prelude.Nested.{lookup2, insert2, lookup2-insert2}
use test_v.Protocol.{Address, Hash, TxId}
use test_v.Orchestrator.AccessList.Index.{IsAccessList, new-IsAccessList}
use test_v.Protocol.RwSets.{SlotValues}
use test_v.Orchestrator.Simulation.{Host, Snapshot, SimulationState, new_simulation}
use test_v.Orchestrator.Simulation.Storage.{
  snapshot, snapshot_of, revert_to_snapshot, read_slot, get_state, set_state, record_write,
}
use test_v.Orchestrator.Simulation.Kept.{Same, fetch-Same}
use test_v.Orchestrator.Simulation.Slots.{read_slot-reads, get_state-cases}

-- Every slot written has been read, and its old value kept.
abbrev pub Covered : SlotValues → SlotValues → SlotValues → Type 0
Covered reads writes olds =
    (a : Address) (t : Hash)
    → is_some (lookup2 a t writes) ≡ true
    → (is_some (lookup2 a t reads) ≡ true) × (is_some (lookup2 a t olds) ≡ true)

pub record IsTracked (h : Host) (s : SimulationState h) : Type 0 where
  pub now : Covered s.reads s.writes s.write_olds
  pub saved :
      (i : ℕ) (snap : Snapshot)
      → get_elem? s.snapshots i ≡ some snap
      → Covered snap.reads snap.writes s.write_olds
  pub warm : IsAccessList s.access_list

module _ (h : Host) where
  -- A read adds to the reads, a write to all three.
  Covered-read :
      (reads writes olds : SlotValues) (a : Address) (t v : Hash)
      → Covered reads writes olds
      → Covered (insert2 a t v reads) writes olds
  Covered-read reads writes olds a t v c b u w =
      ground (arith, c b u w, lookup2-insert2 a b t u v reads)

  Covered-olds :
      (reads writes olds : SlotValues) (a : Address) (t v : Hash)
      → Covered reads writes olds
      → Covered reads writes (insert2 a t v olds)
  Covered-olds reads writes olds a t v c b u w =
      ground (arith, c b u w, lookup2-insert2 a b t u v olds)

  Covered-write :
      (reads writes olds : SlotValues) (a : Address) (t v : Hash)
      → is_some (lookup2 a t reads) ≡ true
      → is_some (lookup2 a t olds) ≡ true
      → Covered reads writes olds
      → Covered reads (insert2 a t v writes) olds
  Covered-write reads writes olds a t v r o c b u w =
      ground
        (arith, c b u, lookup2-insert2 a b t u v writes, nat_key.same_iff a b, nat_key.same_iff t u)

  pub Same-IsTracked : (s s' : SimulationState h) → Same h s s' → IsTracked h s → IsTracked h s'
  Same-IsTracked s s' k q = record {
    now = rw (k.reads, k.writes, k.write_olds) q.now;
    saved = λ i snap at. rw k.write_olds (q.saved i snap (sym (rw k.kept.snapshots refl) ∙ at));
    warm = rw k.kept.access_list q.warm;
  }

  read_slot-IsTracked :
      (s : SimulationState h) (a : Address) (t : Hash)
      → IsTracked h s
      → IsTracked h (read_slot h s a t).1
  unfolding read_slot
  read_slot-IsTracked s a t q =
      let q' = Same-IsTracked s _ (fetch-Same h s a) q in
      record { now = Covered-read _ _ _ a t _ q'.now; saved = q'.saved; warm = q'.warm }

  pub get_state-IsTracked :
      (s : SimulationState h) (a : Address) (t : Hash)
      → IsTracked h s
      → IsTracked h (get_state h s a t).1
  get_state-IsTracked s a t q = elim (get_state-cases h s a t) [
    | inl (v, k, e) ↦ rw e q
    | inr (w, r, e) ↦ rw e (read_slot-IsTracked s a t q)
  ]

  -- A slot that was asked for has been read, or had been when it was written.
  get_state-read :
      (s : SimulationState h) (a : Address) (t : Hash)
      → IsTracked h s
      → is_some (lookup2 a t (get_state h s a t).1.reads) ≡ true
  get_state-read s a t q = elim (get_state-cases h s a t) [
    | inl (v, k, e) ↦ rw e (ground (arith, k, q.now a t))
    | inr (w, r, e) ↦
        rw
          (
            e,
            read_slot-reads h s a t,
            lookup2-insert2 a a t t (read_slot h s a t).0 s.reads,
            eq_refl a,
            eq_refl t,
          )
          refl
  ]

  record_write-IsTracked :
      (s : SimulationState h) (a : Address) (t prev v : Hash)
      → is_some (lookup2 a t s.reads) ≡ true
      → IsTracked h s
      → IsTracked h (record_write h s a t prev v)
  unfolding record_write
  record_write-IsTracked s a t prev v r q = elim (Option-cases (lookup2 a t s.write_olds)) [
    | inr (old, kept) ↦
        rw (kept, record_write)
          (record {
            now = Covered-write _ _ _ a t v r (rw kept refl) q.now;
            saved = q.saved;
            warm = q.warm;
          })
    | inl first ↦
        rw (first, record_write)
          (record {
            now =
                Covered-write _ _ _ a t v r
                  (rw (lookup2-insert2 a a t t prev s.write_olds, eq_refl a, eq_refl t) refl)
                  (Covered-olds _ _ _ a t prev q.now);
            saved = λ i snap at. Covered-olds _ _ _ a t prev (q.saved i snap at);
            warm = q.warm;
          })
  ]

  pub set_state-IsTracked :
      (s : SimulationState h) (a : Address) (t v : Hash)
      → IsTracked h s
      → IsTracked h (set_state h s a t v).1
  unfolding set_state
  set_state-IsTracked s a t v q =
      record_write-IsTracked (get_state h s a t).1 a t _ v (get_state-read s a t q)
        (get_state-IsTracked s a t q)

  pub snapshot-IsTracked : (s : SimulationState h) → IsTracked h s → IsTracked h (snapshot h s).1
  unfolding snapshot snapshot_of
  snapshot-IsTracked s q = record {
    now = q.now;
    saved = λ i snap at. elim (get_elem?-snoc s.snapshots (snapshot_of h s) snap i at) [
      | inl old ↦ q.saved i snap old
      | inr (e, new) ↦ rw new q.now
    ];
    warm = q.warm;
  }

  pub revert-IsTracked :
      (s : SimulationState h) (revid : ℕ)
      → IsTracked h s
      → IsTracked h (revert_to_snapshot h s revid)
  unfolding revert_to_snapshot
  revert-IsTracked s revid q = elim (Option-cases (get_elem? s.snapshots revid)) [
    | inl missing ↦ rw (missing, revert_to_snapshot) q
    | inr (snap, at) ↦
        rw (at, revert_to_snapshot)
          (record {
            now = q.saved revid snap at;
            saved = λ i snap' at'. q.saved i snap' (get_elem?-take revid i snap' s.snapshots at').1;
            warm = q.warm;
          })
  ]

  pub new-IsTracked : (tx_id : TxId) (f : h.State) → IsTracked h (new_simulation h tx_id f)
  unfolding new_simulation
  new-IsTracked tx_id f = record {
    now = λ a t w. ground (arith, w);
    saved = λ i snap at. cc;
    warm = new-IsAccessList;
  }
