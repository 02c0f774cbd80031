-- ===== src/Orchestrator/Simulation/Calm.antt =====
-- The panic of `MustFromBig`: it does not come up where every balance that a shard answers is within
-- 256 bits.
use test_v.Prelude.{
  ◌≡◌, refl, ◌∙◌, inl, inr, true, false, Option, none, some, Option-cases, Bool-cases, is_some,
  nat_key, if◌then◌else◌, arith,
}
use test_v.Prelude.Int.{ℤ}
use test_v.Prelude.Lists.{get_elem?}
use test_v.Prelude.Maps.{lookup}
use test_v.Prelude.Nested.{lookup2}
use test_v.Protocol.{Address, Hash, TxId}
use test_v.Orchestrator.AccessList.{add_slot}
use test_v.Orchestrator.Simulation.{
  Host, Fetched, fetched, unavailable, AccountState, SimulationState, fetched_balance,
  cache_account, get_or_fetch_account, change, create_account, sub_balance, add_balance, set_nonce,
  set_code, self_destruct, self_destruct6780, add_refund, sub_refund, add_log,
}
use test_v.Orchestrator.Simulation.Storage.{
  Op, attempt, step, read_slot, get_state, set_state, record_write, snapshot, revert_to_snapshot,
  add_slot_to_access_list, add_address_to_access_list, set_transient_state,
}

-- A response has no balance, or one within 256 bits.
abbrev pub Fit : (h : Host) → Fetched → Type 0
Fit h (unavailable e) = Unit
Fit h (fetched resp) = is_some (fetched_balance h resp) ≡ true

-- All responses have.
abbrev pub Fits : Host → Type 0
Fits h =
    (f : h.State) (id : TxId) (shard : ℤ) (addr : Address) → Fit h (h.fetch_state f id shard addr).1

module _ (h : Host) where
  -- An operation that returns is one that has not panicked,
  pub step-attempt :
      (s t : SimulationState h) (op : Op h)
      → step h s op ≡ some t
      → (attempt h s op ≡ some t) × (t.panicked ≡ false)
  unfolding step
  step-attempt s t op e = elim (Option-cases (attempt h s op)) [
    | inl none_ ↦ cc (rw (none_, step) at e)
    | inr (u, tried) ↦ elim (Bool-cases u.panicked) [
      | inl panic ↦ absurd (gone u panic (rw (tried, step) at e))
      | inr calm ↦
          let same : u ≡ t = kept u calm (rw (tried, step) at e) in
          (rw (← same) tried, rw (← same) calm)
    ]
  ]
    where
      gone :
          (u : SimulationState h)
          → u.panicked ≡ true
          → (if u.panicked then none else some u) ≡ some t
          → ⊥
      gone u panic e = ground (arith, panic, e)

      kept :
          (u : SimulationState h)
          → u.panicked ≡ false
          → (if u.panicked then none else some u) ≡ some t
          → u ≡ t
      kept u calm e = ground (arith, calm, e)

  -- and the other way round.
  pub attempt-step :
      (s t : SimulationState h) (op : Op h)
      → attempt h s op ≡ some t
      → t.panicked ≡ false
      → step h s op ≡ some t
  unfolding step
  attempt-step s t op e calm = rw (e, step) (ground (arith, calm))

  module _ (fits : Fits h) where
    cache_account-calm :
        (s : SimulationState h) (addr : Address) (shard : ℤ) (r : h.State × Fetched)
        → Fit h r.1
        → (cache_account h s addr shard r).1.panicked ≡ s.panicked
    unfolding cache_account
    cache_account-calm s addr shard (f, unavailable e) fit = refl
    cache_account-calm s addr shard (f, fetched resp) fit =
        elim (Option-cases (fetched_balance h resp)) [
          | inl panic ↦ cc (rw panic at fit)
          | inr (balance, small) ↦ rw (small, cache_account) refl
        ]

    fetch_calm :
        (s : SimulationState h) (addr : Address)
        → (get_or_fetch_account h s addr).1.panicked ≡ s.panicked
    unfolding get_or_fetch_account
    fetch_calm s addr = elim (Option-cases (lookup addr s.accounts)) [
      | inl fresh ↦
          rw (fresh, get_or_fetch_account)
            (cache_account-calm s addr _ _ (fits s.fetcher s.tx_id (h.address_to_shard addr) addr))
      | inr (acct, cached) ↦ rw (cached, get_or_fetch_account) refl
    ]

    change-calm :
        (s : SimulationState h) (addr : Address) (f : AccountState → AccountState)
        → (change h s addr f).panicked ≡ s.panicked
    unfolding change
    change-calm s addr f = elim (Option-cases (lookup addr s.accounts)) [
      | inl fresh ↦ rw (fresh, change) refl
      | inr (acct, cached) ↦ rw (cached, change) refl
    ]

    account_calm :
        (s : SimulationState h) (addr : Address) (f : AccountState → AccountState)
        → (change h (get_or_fetch_account h s addr).1 addr f).panicked ≡ s.panicked
    account_calm s addr f = change-calm (get_or_fetch_account h s addr).1 addr f ∙ fetch_calm s addr

    get_state-calm :
        (s : SimulationState h) (addr : Address) (slot : Hash)
        → (get_state h s addr slot).1.panicked ≡ s.panicked
    unfolding get_state read_slot
    get_state-calm s addr slot = elim (Option-cases (lookup2 addr slot s.writes)) [
      | inr (v, written) ↦ rw (written, get_state) refl
      | inl unwritten ↦ elim (Option-cases (lookup2 addr slot s.reads)) [
        | inr (v, seen) ↦ rw (unwritten, seen, get_state) refl
        | inl unseen ↦ rw (unwritten, unseen, get_state) (fetch_calm s addr)
      ]
    ]

    -- Unless it panics by itself
    abbrev Calm : SimulationState h → Option (SimulationState h) → Type 0
    Calm s none = Unit
    Calm s (some t) = t.panicked ≡ s.panicked

    attempt-Calm : (s : SimulationState h) (op : Op h) → Calm s (attempt h s op)
    unfolding attempt snapshot create_account sub_balance add_balance set_nonce set_code
        self_destruct self_destruct6780 add_refund sub_refund add_log set_transient_state
        add_address_to_access_list add_slot_to_access_list set_state record_write revert_to_snapshot
    attempt-Calm s (Op.creating addr) = refl
    attempt-Calm s (Op.fetching addr) = fetch_calm s addr
    attempt-Calm s (Op.subtracting addr amount) = account_calm s addr _
    attempt-Calm s (Op.adding addr amount) = account_calm s addr _
    attempt-Calm s (Op.numbering addr nonce) = account_calm s addr _
    attempt-Calm s (Op.coding addr code) = account_calm s addr _
    attempt-Calm s (Op.destructing addr) = account_calm s addr _
    attempt-Calm s (Op.destructing6780 addr) = account_calm s addr _
    attempt-Calm s (Op.refunding gas) = refl
    attempt-Calm s (Op.unrefunding gas) = refl
    attempt-Calm s (Op.reading addr slot) = get_state-calm s addr slot
    attempt-Calm s (Op.writing addr slot value) = get_state-calm s addr slot
    attempt-Calm s (Op.storing addr key value) = refl
    attempt-Calm s (Op.warming addr) = refl
    attempt-Calm s (Op.warming_slot addr slot) =
        elim (Option-cases (add_slot s.access_list addr slot)) [
          | inl e ↦ rw (e, add_slot_to_access_list) tt
          | inr ((al, flags), e) ↦ rw (e, add_slot_to_access_list) refl
        ]
    attempt-Calm s (Op.logging log) = refl
    attempt-Calm s Op.marking = refl
    attempt-Calm s (Op.reverting revid) = elim (Option-cases (get_elem? s.snapshots revid)) [
      | inl missing ↦ rw (missing, revert_to_snapshot) refl
      | inr (snap, at) ↦ rw (at, revert_to_snapshot) refl
    ]

    -- An operation that does not panic by itself leaves a calm state calm.
    pub attempt-calm :
        (s t : SimulationState h) (op : Op h)
        → s.panicked ≡ false
        → attempt h s op ≡ some t
        → t.panicked ≡ false
    attempt-calm s t op calm e = (rw e at (attempt-Calm s op)) ∙ calm
