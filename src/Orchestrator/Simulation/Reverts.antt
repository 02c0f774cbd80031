-- ===== src/Orchestrator/Simulation/Reverts.antt =====
-- What a revert restores of the state at its snapshot, whatever the EVM called since, nested
-- snapshots and their reverts included.
use test_v.Prelude.{
  ℕ, ◌<◌, ◌≤◌, ◌≡◌, refl, sym, ◌∙◌, inl, inr, false, List, [], ◌∷◌, ◌++◌, Option, some,
  Option-cases, arith, nat_key,
}
use test_v.Prelude.Lists.{
  All, length, get_elem?, take, length-append, get_elem?-snoc, get_elem?-snoc_old,
  get_elem?-append_at, take-append, take-length, take-append_le, take-take_le, length-take_le,
  get_elem?-take, get_elem?-take_lt, get_elem?-bound,
}
use test_v.Orchestrator.AccessList.{AccessList}
use test_v.Orchestrator.AccessList.Index.{IsAccessList, add_address-IsAccessList}
use test_v.Orchestrator.AccessList.Warm.{add_slot_lem}
use test_v.Orchestrator.Simulation.{
  Host, Snapshot, SimulationState, create_account, sub_balance, add_balance, set_nonce, set_code,
  self_destruct, self_destruct6780, add_refund, sub_refund, add_log,
}
use test_v.Orchestrator.Simulation.Storage.{
  Op, attempt, run, snapshot, snapshot_of, revert_to_snapshot, add_slot_to_access_list,
  add_address_to_access_list, set_transient_state,
}
use test_v.Orchestrator.Simulation.Calm.{Fits, attempt-step, attempt-calm}
use test_v.Orchestrator.Simulation.Kept.{
  Kept, fetch-Same, account-Same, get_state-Kept, set_state-Kept,
}

-- The state `s` is one that follows a snapshot of `s₀` that still stands.
pub record Above (h : Host) (s₀ s : SimulationState h) : Type 0 where
  saved : get_elem? s.snapshots (length s₀.snapshots) ≡ some (snapshot_of h s₀)
  below : take (length s₀.snapshots) s.snapshots ≡ s₀.snapshots
  later :
      (i : ℕ) (snap : Snapshot)
      → length s₀.snapshots < i
      → get_elem? s.snapshots i ≡ some snap
      → length s₀.logs ≤ snap.logs_len
  logged : take (length s₀.logs) s.logs ≡ s₀.logs
  warm : IsAccessList s.access_list

-- A call of the EVM reverts to no snapshot but its own, which are later ones.
abbrev pub Inside : (h : Host) → ℕ → Op h → Type 0
Inside h n (Op.reverting revid) = n < revid
Inside h n op = Unit

module _ (h : Host) where
  snapshot-Above : (s : SimulationState h) → IsAccessList s.access_list → Above h s (snapshot h s).1
  unfolding snapshot
  snapshot-Above s v = record {
    saved = get_elem?-append_at s.snapshots (snapshot_of h s);
    below = take-append s.snapshots (snapshot_of h s ∷ []);
    later = λ i snap l at. omega (
      arith,
      get_elem?-bound (s.snapshots ++ snapshot_of h s ∷ []) snap i at,
      length-append s.snapshots (snapshot_of h s ∷ []),
    );
    logged = take-length s.logs;
    warm = v;
  }

  -- There are as many logs as at the snapshot, or more, and a snapshot above its.
  logs_le : (s₀ s : SimulationState h) → Above h s₀ s → length s₀.logs ≤ length s.logs
  logs_le s₀ s q = rw (sym q.logged) (length-take_le (length s₀.logs) s.logs)

  snapshots_lt :
      (s₀ s : SimulationState h) → Above h s₀ s → length s₀.snapshots < length s.snapshots
  snapshots_lt s₀ s q = get_elem?-bound s.snapshots _ (length s₀.snapshots) q.saved

  Kept-Above : (s₀ s s' : SimulationState h) → Kept h s s' → Above h s₀ s → Above h s₀ s'
  Kept-Above s₀ s s' k q = record {
    saved = rw k.snapshots q.saved;
    below = rw k.snapshots q.below;
    later = λ i snap l at. q.later i snap l (sym (rw k.snapshots refl) ∙ at);
    logged = rw k.logs q.logged;
    warm = rw k.access_list q.warm;
  }

  add_log-Above :
      (s₀ s : SimulationState h) (log : h.Log) → Above h s₀ s → Above h s₀ (add_log h s log)
  unfolding add_log
  add_log-Above s₀ s log q = record {
    saved = q.saved;
    below = q.below;
    later = q.later;
    logged = take-append_le (length s₀.logs) s.logs (log ∷ []) (logs_le s₀ s q) ∙ q.logged;
    warm = q.warm;
  }

  mark-Above : (s₀ s : SimulationState h) → Above h s₀ s → Above h s₀ (snapshot h s).1
  unfolding snapshot
  mark-Above s₀ s q =
      let more = snapshots_lt s₀ s q in
      record {
        saved = get_elem?-snoc_old s.snapshots _ _ (length s₀.snapshots) q.saved;
        below = take-append_le (length s₀.snapshots) s.snapshots _ (omega arith) ∙ q.below;
        later = λ i snap l at. elim (get_elem?-snoc s.snapshots (snapshot_of h s) snap i at) [
          | inl old ↦ q.later i snap l old
          | inr (e, new) ↦ rw new (logs_le s₀ s q)
        ];
        logged = q.logged;
        warm = q.warm;
      }

  revert-Above :
      (s₀ s : SimulationState h) (revid : ℕ)
      → length s₀.snapshots < revid
      → Above h s₀ s
      → Above h s₀ (revert_to_snapshot h s revid)
  unfolding revert_to_snapshot
  revert-Above s₀ s revid l q = elim (Option-cases (get_elem? s.snapshots revid)) [
    | inl missing ↦ rw (missing, revert_to_snapshot) q
    | inr (snap, at) ↦
        rw (at, revert_to_snapshot)
          (record {
            saved = get_elem?-take_lt revid (length s₀.snapshots) s.snapshots l ∙ q.saved;
            below = take-take_le (length s₀.snapshots) revid s.snapshots (omega arith) ∙ q.below;
            later = λ i snap' l' at'.
                q.later i snap' l' (get_elem?-take revid i snap' s.snapshots at').1;
            logged =
                take-take_le (length s₀.logs) snap.logs_len s.logs (q.later revid snap l at)
                ∙ q.logged;
            warm = q.warm;
          })
  ]

  -- Another access list, as long as it is well formed.
  warm-Above :
      (s₀ s : SimulationState h) (al : AccessList)
      → IsAccessList al
      → Above h s₀ s
      → Above h s₀ (record s { access_list = al })
  warm-Above s₀ s al v q = record {
    saved = q.saved;
    below = q.below;
    later = q.later;
    logged = q.logged;
    warm = v;
  }

  -- No operation panics but by `MustFromBig`, and each leaves the snapshot standing.
  abbrev Stands : SimulationState h → Option (SimulationState h) → Type 0
  Stands s₀ r = (s : SimulationState h) × (r ≡ some s) × Above h s₀ s

  attempt-Stands :
      (s₀ s : SimulationState h) (op : Op h)
      → Inside h (length s₀.snapshots) op
      → Above h s₀ s
      → Stands s₀ (attempt h s op)
  unfolding attempt create_account sub_balance add_balance set_nonce set_code self_destruct
      self_destruct6780 add_refund sub_refund set_transient_state add_address_to_access_list
      add_slot_to_access_list
  attempt-Stands s₀ s op i q = go op i
    where
      kept : (s' : SimulationState h) → Kept h s s' → Stands s₀ (some s')
      kept s' k = (s', refl, Kept-Above s₀ s s' k q)

      same :
          (s' : SimulationState h)
          → s'.logs ≡ s.logs
          → s'.snapshots ≡ s.snapshots
          → s'.access_list ≡ s.access_list
          → s'.fetch_errors ≡ s.fetch_errors
          → Kept h s s'
      same s' l n a e = record { logs = l; snapshots = n; access_list = a; errors = λ x m. rw e m }

      go : (op : Op h) → Inside h (length s₀.snapshots) op → Stands s₀ (attempt h s op)
      go (Op.creating addr) i = kept _ (same _ refl refl refl refl)
      go (Op.fetching addr) i = kept _ (fetch-Same h s addr).kept
      go (Op.subtracting addr amount) i = kept _ (account-Same h s addr _).kept
      go (Op.adding addr amount) i = kept _ (account-Same h s addr _).kept
      go (Op.numbering addr nonce) i = kept _ (account-Same h s addr _).kept
      go (Op.coding addr code) i = kept _ (account-Same h s addr _).kept
      go (Op.destructing addr) i = kept _ (account-Same h s addr _).kept
      go (Op.destructing6780 addr) i = kept _ (account-Same h s addr _).kept
      go (Op.refunding gas) i = kept _ (same _ refl refl refl refl)
      go (Op.unrefunding gas) i = kept _ (same _ refl refl refl refl)
      go (Op.reading addr slot) i = kept _ (get_state-Kept h s addr slot)
      go (Op.writing addr slot value) i = kept _ (set_state-Kept h s addr slot value)
      go (Op.storing addr key value) i = kept _ (same _ refl refl refl refl)
      go (Op.warming addr) i =
          (_, refl, warm-Above s₀ s _ (add_address-IsAccessList s.access_list addr q.warm) q)
      go (Op.warming_slot addr slot) i =
          let (al, e, added) = add_slot_lem s.access_list addr slot q.warm in
          (_, rw (e, add_slot_to_access_list) refl, warm-Above s₀ s al added.valid q)
      go (Op.logging log) i = (_, refl, add_log-Above s₀ s log q)
      go Op.marking i = (_, refl, mark-Above s₀ s q)
      go (Op.reverting revid) i = (_, refl, revert-Above s₀ s revid i q)

  run-Stands :
      (s₀ s : SimulationState h) (ops : List (Op h))
      → Fits h
      → s.panicked ≡ false
      → All (Inside h (length s₀.snapshots)) ops
      → Above h s₀ s
      → Stands s₀ (run h s ops)
  unfolding run
  run-Stands s₀ s [] fits calm i q = (s, refl, q)
  run-Stands s₀ s (op ∷ ops) fits calm i q =
      let (s', tried, q') = attempt-Stands s₀ s op i.0 q in
      let calm' = attempt-calm h fits s s' op calm tried in
      let e = attempt-step h s s' op tried calm' in
      rw (e, run) (run-Stands s₀ s' ops fits calm' i.1 q')

-- What a revert to the snapshot of `s` restores, and what it leaves as it is in `s'`.
pub record Restored (h : Host) (s s' r : SimulationState h) : Type 0 where
  accounts : r.accounts ≡ s.accounts
  reads : r.reads ≡ s.reads
  writes : r.writes ≡ s.writes
  refund : r.refund ≡ s.refund
  logs : r.logs ≡ s.logs
  snapshots : r.snapshots ≡ s.snapshots
  write_olds : r.write_olds ≡ s'.write_olds
  transient : r.transient ≡ s'.transient
  access_list : r.access_list ≡ s'.access_list
  fetch_errors : r.fetch_errors ≡ s'.fetch_errors

module _ (h : Host) where
  restore :
      (s s' : SimulationState h)
      → Above h s s'
      → Restored h s s' (revert_to_snapshot h s' (snapshot h s).0)
  unfolding revert_to_snapshot snapshot snapshot_of
  restore s s' q =
      rw (q.saved, revert_to_snapshot)
        (record {
          accounts = refl;
          reads = refl;
          writes = refl;
          refund = refl;
          logs = q.logged;
          snapshots = q.below;
          write_olds = refl;
          transient = refl;
          access_list = refl;
          fetch_errors = refl;
        })

  -- A snapshot, any calls of the EVM that revert to later snapshots only, and the revert to that
  -- snapshot: the accounts, reads, writes, refund, logs and snapshots are those of the state before the
  -- snapshot, and the old values of writes, the transient storage, the access list and the fetch errors
  -- stay as the calls have left them. Nothing panics, if the access list is well formed, nothing has
  -- panicked before and no shard answers a balance beyond 256 bits.
  pub revert_to_snapshot_restores :
      (s : SimulationState h) (ops : List (Op h))
      → Fits h
      → s.panicked ≡ false
      → IsAccessList s.access_list
      → All (Inside h (length s.snapshots)) ops
      → (s' : SimulationState h) × (run h (snapshot h s).1 ops ≡ some s')
        × Restored h s s' (revert_to_snapshot h s' (snapshot h s).0)
  unfolding snapshot
  revert_to_snapshot_restores s ops fits calm v i =
      let (s', e, q) = run-Stands h s (snapshot h s).1 ops fits calm i (snapshot-Above h s v) in
      (s', e, restore s s' q)
