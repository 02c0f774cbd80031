-- ===== src/Orchestrator/Simulation/Honest.antt =====
-- A simulation whose shards answer from one storage has read the values of that storage.
use test_v.Prelude.{
  ◌≡◌, refl, sym, ◌∙◌, inl, inr, ℕ, List, [], ◌∷◌, Option, none, some, nat_key, ◌==◌, Option-cases,
  Bool-cases, eq→≡,
}
use test_v.Prelude.Int.{ℤ}
use test_v.Prelude.Lists.{get_elem?, get_elem?-snoc, get_elem?-take}
use test_v.Prelude.Maps.{Map, lookup, insert, get_or}
use test_v.Prelude.Nested.{insert2}
use test_v.Protocol.{Address, Hash, TxId}
use test_v.Protocol.RwSets.{SlotValues}
use test_v.Orchestrator.AccessList.{add_slot}
use test_v.Orchestrator.Simulation.{
  Host, Snapshot, SimulationState, new_simulation, create_account, sub_balance, add_balance,
  set_nonce, set_code, self_destruct, self_destruct6780, add_refund, sub_refund, add_log,
}
use test_v.Orchestrator.Simulation.Storage.{
  Op, attempt, step, run, snapshot, snapshot_of, revert_to_snapshot, read_slot, get_state,
  set_state, record_write, add_slot_to_access_list, add_address_to_access_list, set_transient_state,
}
use test_v.Orchestrator.Simulation.Calm.{step-attempt}
use test_v.Orchestrator.Simulation.Kept.{Same, fetch-Same, account-Same, get_state-Kept}
use test_v.Orchestrator.Simulation.Slots.{get_state-cases, read_slot-reads}

-- Every entry of the maps has the storage's value.
module _ (storage : Address → Hash → Hash) where
  abbrev pub SlotsAgree : Address → Map Hash Hash → Type 0
  SlotsAgree a [] = Unit
  SlotsAgree a ((s, v) ∷ m) = (storage a s ≡ v) × SlotsAgree a m

  abbrev pub AllAgree : SlotValues → Type 0
  AllAgree [] = Unit
  AllAgree ((a, m) ∷ rest) = SlotsAgree a m × AllAgree rest

  SlotsAgree-insert :
      (a : Address) (s : Hash) (m : Map Hash Hash)
      → SlotsAgree a m
      → SlotsAgree a (insert s (storage a s) m)
  unfolding insert
  SlotsAgree-insert a s [] h = (refl, tt)
  SlotsAgree-insert a s ((r, v) ∷ m) h = elim (Bool-cases (r == s)) [
    | inl same ↦ rw same (refl, h.1)
    | inr other ↦ rw other (h.0, SlotsAgree-insert a s m h.1)
  ]

  AllAgree-insert :
      (a : Address) (m : Map Hash Hash) (st : SlotValues)
      → SlotsAgree a m
      → AllAgree st
      → AllAgree (insert a m st)
  unfolding insert
  AllAgree-insert a m [] h q = (h, tt)
  AllAgree-insert a m ((b, n) ∷ st) h q = elim (Bool-cases (b == a)) [
    | inl same ↦ rw same (h, q.1)
    | inr other ↦ rw other (q.0, AllAgree-insert a m st h q.1)
  ]

  pub AllAgree-get_or :
      (a : Address) (st : SlotValues) → AllAgree st → SlotsAgree a (get_or [] a st)
  unfolding lookup
  AllAgree-get_or a [] q = tt
  AllAgree-get_or a ((b, n) ∷ st) q = elim (Bool-cases (b == a)) [
    | inl same ↦
        let here : get_or [] a ((b, n) ∷ st) ≡ n = rw (same, get_or) refl in
        rw (here, sym (eq→≡ b a same)) q.0
    | inr other ↦
        let later : get_or [] a ((b, n) ∷ st) ≡ get_or [] a st = rw (other, get_or) refl in
        rw later (AllAgree-get_or a st q.1)
  ]

  AllAgree-insert2 :
      (a : Address) (s : Hash) (st : SlotValues)
      → AllAgree st
      → AllAgree (insert2 a s (storage a s) st)
  AllAgree-insert2 a s st q =
      AllAgree-insert a (insert s (storage a s) (get_or [] a st)) st
        (SlotsAgree-insert a s (get_or [] a st) (AllAgree-get_or a st q)) q

  -- The reads of the state, and of the states that it can be reverted to
  pub record IsHonest (h : Host) (s : SimulationState h) : Type 0 where
    pub now : AllAgree s.reads
    pub saved :
        (i : ℕ) (snap : Snapshot) → get_elem? s.snapshots i ≡ some snap → AllAgree snap.reads

  -- The shards answer every request for a slot from the storage.
  abbrev pub Answers : Host → Type 0
  Answers h =
      (f : h.State) (id : TxId) (shard : ℤ) (a : Address) (s : Hash)
      → (h.get_storage_at f id shard a s).1 ≡ some (storage a s)

  module _ (h : Host) (answers : Answers h) where
    keep-IsHonest :
        (s t : SimulationState h)
        → t.reads ≡ s.reads
        → t.snapshots ≡ s.snapshots
        → IsHonest h s
        → IsHonest h t
    keep-IsHonest s t r n q = record {
      now = rw r q.now;
      saved = λ i snap at. q.saved i snap (sym (rw n refl) ∙ at);
    }

    read_slot-value :
        (s : SimulationState h) (a : Address) (t : Hash) → (read_slot h s a t).0 ≡ storage a t
    unfolding read_slot
    read_slot-value s a t = rw (answers _ _ _ a t) refl

    get_state-IsHonest :
        (s : SimulationState h) (a : Address) (t : Hash)
        → IsHonest h s
        → IsHonest h (get_state h s a t).1
    get_state-IsHonest s a t q = elim (get_state-cases h s a t) [
      | inl (v, k, e) ↦ rw e q
      | inr (w, r, e) ↦ record {
        now =
            rw (e, read_slot-reads h s a t, read_slot-value s a t)
              (AllAgree-insert2 a t s.reads q.now);
        saved = λ i snap at. q.saved i snap (sym (rw (get_state-Kept h s a t).snapshots refl) ∙ at);
      }
    ]

    revert-IsHonest :
        (s : SimulationState h) (revid : ℕ)
        → IsHonest h s
        → IsHonest h (revert_to_snapshot h s revid)
    unfolding revert_to_snapshot
    revert-IsHonest s revid q = elim (Option-cases (get_elem? s.snapshots revid)) [
      | inl missing ↦ rw (missing, revert_to_snapshot) q
      | inr (snap, at) ↦
          rw (at, revert_to_snapshot)
            (record {
              now = q.saved revid snap at;
              saved =
                  λ i snap' at'. q.saved i snap' (get_elem?-take revid i snap' s.snapshots at').1;
            })
    ]

    abbrev pub OnReturn : Option (SimulationState h) → Type 0
    OnReturn none = Unit
    OnReturn (some t) = IsHonest h t

    attempt-IsHonest :
        (s : SimulationState h) (op : Op h) → IsHonest h s → OnReturn (attempt h s op)
    unfolding attempt snapshot snapshot_of set_state record_write create_account sub_balance
        add_balance set_nonce set_code self_destruct self_destruct6780 add_refund sub_refund add_log
        set_transient_state add_address_to_access_list add_slot_to_access_list
    attempt-IsHonest s op q = go op
      where
        same : (t : SimulationState h) → Same h s t → IsHonest h t
        same t k = keep-IsHonest s t k.reads k.kept.snapshots q

        like :
            (t : SimulationState h) → t.reads ≡ s.reads → t.snapshots ≡ s.snapshots → IsHonest h t
        like t r n = keep-IsHonest s t r n q

        go : (op : Op h) → OnReturn (attempt h s op)
        go (Op.creating addr) = like _ refl refl
        go (Op.fetching addr) = same _ (fetch-Same h s addr)
        go (Op.subtracting addr amount) = same _ (account-Same h s addr _)
        go (Op.adding addr amount) = same _ (account-Same h s addr _)
        go (Op.numbering addr nonce) = same _ (account-Same h s addr _)
        go (Op.coding addr code) = same _ (account-Same h s addr _)
        go (Op.destructing addr) = same _ (account-Same h s addr _)
        go (Op.destructing6780 addr) = same _ (account-Same h s addr _)
        go (Op.refunding gas) = like _ refl refl
        go (Op.unrefunding gas) = like _ refl refl
        go (Op.reading addr slot) = get_state-IsHonest s addr slot q
        go (Op.writing addr slot value) =
            let q' = get_state-IsHonest s addr slot q in record { now = q'.now; saved = q'.saved }
        go (Op.storing addr key value) = like _ refl refl
        go (Op.warming addr) = like _ refl refl
        go (Op.warming_slot addr slot) = elim (Option-cases (add_slot s.access_list addr slot)) [
          | inl panic ↦ rw (panic, add_slot_to_access_list) tt
          | inr ((al, flags), added) ↦ rw (added, add_slot_to_access_list) (like _ refl refl)
        ]
        go (Op.logging log) = like _ refl refl
        go Op.marking = record {
          now = q.now;
          saved = λ i snap at. elim (get_elem?-snoc s.snapshots (snapshot_of h s) snap i at) [
            | inl old ↦ q.saved i snap old
            | inr (e, new) ↦ rw new q.now
          ];
        }
        go (Op.reverting revid) = revert-IsHonest s revid q

    pub run-IsHonest :
        (s : SimulationState h) (ops : List (Op h)) → IsHonest h s → OnReturn (run h s ops)
    unfolding run
    run-IsHonest s [] q = q
    run-IsHonest s (op ∷ ops) q = elim (Option-cases (step h s op)) [
      | inl panic ↦ rw (panic, run) tt
      | inr (t, e) ↦
          rw (e, run)
            (run-IsHonest t ops (rw (step-attempt h s t op e).0 at (attempt-IsHonest s op q)))
    ]

    pub new-IsHonest : (id : TxId) (f : h.State) → IsHonest h (new_simulation h id f)
    unfolding new_simulation
    new-IsHonest id f = record { now = tt; saved = λ i snap at. elim (nothing at) [ ] }
      where
        nothing : {snap : Snapshot} → none ≡ some snap → ⊥
        nothing e = cc
