-- ===== src/Orchestrator/Simulation/Runs.antt =====
-- What holds of a simulation whatever the EVM calls: nothing panics but `MustFromBig`, every slot
-- written has been read, and no fetch error is forgotten.
use test_v.Prelude.{
  String, ℕ, ◌≡◌, refl, sym, ◌∙◌, inl, inr, true, false, not, ◌||◌, List, [], ◌∷◌, Option, some,
  nat_key, is_some, Option-cases, arith,
}
use test_v.Prelude.Lists.{In, get_elem?}
use test_v.Protocol.{Address, Hash, TxId}
use test_v.Orchestrator.AccessList.Index.{IsAccessList, add_address-IsAccessList}
use test_v.Orchestrator.AccessList.Warm.{add_slot_lem}
use test_v.Orchestrator.Simulation.{
  Host, SimulationState, new_simulation, create_account, sub_balance, add_balance, set_nonce,
  set_code, self_destruct, self_destruct6780, add_refund, sub_refund, add_log,
}
use test_v.Orchestrator.Simulation.Storage.{
  Op, attempt, step, run, snapshot, revert_to_snapshot, add_slot_to_access_list,
  add_address_to_access_list, set_transient_state,
}
use test_v.Orchestrator.Simulation.Calm.{Fits, step-attempt, attempt-step, attempt-calm}
use test_v.Orchestrator.Simulation.Kept.{
  Same, get_state-Kept, set_state-Kept, fetch-Same, account-Same,
}
use test_v.Protocol.RwSets.{read_at, written_at}
use test_v.Orchestrator.Simulation.RwSets.{build_rw_set, read_at-build, written_at-build}
use test_v.Orchestrator.Simulation.Tracked.{
  IsTracked, Same-IsTracked, get_state-IsTracked, set_state-IsTracked, snapshot-IsTracked,
  revert-IsTracked, new-IsTracked,
}

module _ (h : Host) where
  -- Every fetch error recorded in `s` is still there in `t`.
  abbrev pub Remembers : SimulationState h → SimulationState h → Type 0
  Remembers s t = (e : String) → In e s.fetch_errors → In e t.fetch_errors

  -- A call of the EVM from `s` that does not panic, leaves the state tracked and forgets no error.
  abbrev pub Tracks : SimulationState h → Option (SimulationState h) → Type 0
  Tracks s r = (t : SimulationState h) × (r ≡ some t) × IsTracked h t × Remembers s t

  revert-Remembers :
      (s : SimulationState h) (revid : ℕ) → Remembers s (revert_to_snapshot h s revid)
  unfolding revert_to_snapshot
  revert-Remembers s revid e m = elim (Option-cases (get_elem? s.snapshots revid)) [
    | inl missing ↦ rw (missing, revert_to_snapshot) m
    | inr (snap, at) ↦ rw (at, revert_to_snapshot) m
  ]

  attempt-Tracks : (s : SimulationState h) (op : Op h) → IsTracked h s → Tracks s (attempt h s op)
  unfolding attempt snapshot create_account sub_balance add_balance set_nonce set_code self_destruct
      self_destruct6780 add_refund sub_refund add_log set_transient_state add_address_to_access_list
      add_slot_to_access_list
  attempt-Tracks s op q = go op
    where
      same : (t : SimulationState h) → Same h s t → Tracks s (some t)
      same t k = (t, refl, Same-IsTracked h s t k q, k.kept.errors)

      like :
          (t : SimulationState h)
          → t.reads ≡ s.reads
          → t.writes ≡ s.writes
          → t.write_olds ≡ s.write_olds
          → t.snapshots ≡ s.snapshots
          → t.fetch_errors ≡ s.fetch_errors
          → IsAccessList t.access_list
          → Tracks s (some t)
      like t r w o n x v = (
        t,
        refl,
        record {
          now = rw (r, w, o) q.now;
          saved = λ i snap at. rw o (q.saved i snap (sym (rw n refl) ∙ at));
          warm = v;
        },
        λ e m. rw x m,
      )

      go : (op : Op h) → Tracks s (attempt h s op)
      go (Op.creating addr) = like _ refl refl refl refl refl q.warm
      go (Op.fetching addr) = same _ (fetch-Same h s addr)
      go (Op.subtracting addr amount) = same _ (account-Same h s addr _)
      go (Op.adding addr amount) = same _ (account-Same h s addr _)
      go (Op.numbering addr nonce) = same _ (account-Same h s addr _)
      go (Op.coding addr code) = same _ (account-Same h s addr _)
      go (Op.destructing addr) = same _ (account-Same h s addr _)
      go (Op.destructing6780 addr) = same _ (account-Same h s addr _)
      go (Op.refunding gas) = like _ refl refl refl refl refl q.warm
      go (Op.unrefunding gas) = like _ refl refl refl refl refl q.warm
      go (Op.reading addr slot) =
          (_, refl, get_state-IsTracked h s addr slot q, (get_state-Kept h s addr slot).errors)
      go (Op.writing addr slot value) = (
        _,
        refl,
        set_state-IsTracked h s addr slot value q,
        (set_state-Kept h s addr slot value).errors,
      )
      go (Op.storing addr key value) = like _ refl refl refl refl refl q.warm
      go (Op.warming addr) =
          like _ refl refl refl refl refl (add_address-IsAccessList s.access_list addr q.warm)
      go (Op.warming_slot addr slot) =
          let (al, e, added) = add_slot_lem s.access_list addr slot q.warm in
          let (t, e', q', r) =
            like (record s { access_list = al }) refl refl refl refl refl added.valid in
          (t, rw (e, add_slot_to_access_list) e', q', r)
      go (Op.logging log) = like _ refl refl refl refl refl q.warm
      go Op.marking = (_, refl, snapshot-IsTracked h s q, λ e m. m)
      go (Op.reverting revid) = (_, refl, revert-IsTracked h s revid q, revert-Remembers s revid)

  some_inj :
      {o : Option (SimulationState h)} {x y : SimulationState h} → o ≡ some x → o ≡ some y → x ≡ y
  some_inj p q = cc

  step-reached :
      (s t : SimulationState h) (op : Op h)
      → IsTracked h s
      → step h s op ≡ some t
      → IsTracked h t × Remembers s t
  step-reached s t op q e =
      let (u, tried, q', r) = attempt-Tracks s op q in
      let same : u ≡ t = some_inj tried (step-attempt h s t op e).0 in (rw same at q', rw same at r)

  -- What a run reaches is tracked, and forgets no error.
  pub run-reached :
      (s t : SimulationState h) (ops : List (Op h))
      → IsTracked h s
      → run h s ops ≡ some t
      → IsTracked h t × Remembers s t
  unfolding run
  run-reached s t [] q e = let same : s ≡ t = cc (e) in rw same (rw same at q, λ x m. m)
  run-reached s t (op ∷ ops) q e = elim (Option-cases (step h s op)) [
    | inl panic ↦ cc (rw (run, panic) at e)
    | inr (u, first) ↦
        let (q', r) = step-reached s u op q first in
        let (q'', r') = run-reached u t ops q' (rw (run, first) at e) in (q'', λ x m. r' x (r x m))
  ]

  -- A run does not panic if no balance that a shard answers is beyond 256 bits.
  pub run-Tracks :
      (s : SimulationState h) (ops : List (Op h))
      → Fits h
      → s.panicked ≡ false
      → IsTracked h s
      → Tracks s (run h s ops)
  unfolding run
  run-Tracks s [] fits calm q = (s, refl, q, λ e m. m)
  run-Tracks s (op ∷ ops) fits calm q =
      let (t, tried, q', r) = attempt-Tracks s op q in
      let calm' = attempt-calm h fits s t op calm tried in
      let e = attempt-step h s t op tried calm' in
      let (u, e', q'', r') = run-Tracks t ops fits calm' q' in
      (u, rw (e, run) e', q'', λ x m. r' x (r x m))

  -- In a tracked state the RwSet reads every slot that it writes.
  pub covered :
      (s : SimulationState h) (a : Address) (t : Hash)
      → IsTracked h s
      → (not (is_some (written_at (build_rw_set h s) a t))
          || is_some (read_at (build_rw_set h s) a t))
        ≡ true
  covered s a t q = rw (read_at-build h s a t, written_at-build h s a t) (ground (arith, q.now a t))

  -- If no shard answers a balance beyond 256 bits, then whatever the EVM calls on a new simulation,
  -- nothing panics, and every slot that the RwSet built from it writes is among the slots that it reads,
  -- under the same address. So a shard that locks the slots read has locked the slots written.
  pub run_new_covered :
      (tx_id : TxId) (f : h.State) (ops : List (Op h)) (a : Address) (t : Hash)
      → Fits h
      → (s : SimulationState h) × (run h (new_simulation h tx_id f) ops ≡ some s)
        × ((not (is_some (written_at (build_rw_set h s) a t))
              || is_some (read_at (build_rw_set h s) a t))
            ≡ true)
  unfolding new_simulation
  run_new_covered tx_id f ops a t fits =
      let (s, e, q, r) =
        run-Tracks (new_simulation h tx_id f) ops fits refl (new-IsTracked h tx_id f) in
      (s, e, covered s a t q)
