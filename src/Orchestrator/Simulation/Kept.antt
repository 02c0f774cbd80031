-- ===== src/Orchestrator/Simulation/Kept.antt =====
-- What the operations of a simulation leave alone: all but a few keep the logs, the snapshots and
-- the access list, and none forgets a fetch error.
use test_v.Prelude.{◌≡◌, refl, ◌∙◌, inl, inr, [], ◌∷◌, String, Option-cases, nat_key}
use test_v.Prelude.Int.{ℤ}
use test_v.Prelude.Lists.{In, In-append_left}
use test_v.Prelude.Maps.{lookup}
use test_v.Prelude.Nested.{lookup2}
use test_v.Protocol.{Address, Hash}
use test_v.Orchestrator.Simulation.{
  Host, Fetched, fetched, unavailable, AccountState, SimulationState, fetched_balance,
  cache_account, get_or_fetch_account, change,
}
use test_v.Orchestrator.Simulation.Storage.{read_slot, get_state, set_state, record_write}

pub record Kept (h : Host) (s s' : SimulationState h) : Type 0 where
  pub logs : s'.logs ≡ s.logs
  pub snapshots : s'.snapshots ≡ s.snapshots
  pub access_list : s'.access_list ≡ s.access_list
  pub errors : (e : String) → In e s.fetch_errors → In e s'.fetch_errors

-- The operations on accounts keep the tracked reads and writes as well.
pub record Same (h : Host) (s s' : SimulationState h) : Type 0 where
  pub kept : Kept h s s'
  pub reads : s'.reads ≡ s.reads
  pub writes : s'.writes ≡ s.writes
  pub write_olds : s'.write_olds ≡ s.write_olds

module _ (h : Host) where
  pub Kept-refl : (s : SimulationState h) → Kept h s s
  Kept-refl s = record { logs = refl; snapshots = refl; access_list = refl; errors = λ e m. m }

  Kept-trans : (s t u : SimulationState h) → Kept h s t → Kept h t u → Kept h s u
  Kept-trans s t u p q = record {
    logs = q.logs ∙ p.logs;
    snapshots = q.snapshots ∙ p.snapshots;
    access_list = q.access_list ∙ p.access_list;
    errors = λ e m. q.errors e (p.errors e m);
  }

  Same-refl : (s : SimulationState h) → Same h s s
  Same-refl s = record { kept = Kept-refl s; reads = refl; writes = refl; write_olds = refl }

  Same-trans : (s t u : SimulationState h) → Same h s t → Same h t u → Same h s u
  Same-trans s t u p q = record {
    kept = Kept-trans s t u p.kept q.kept;
    reads = q.reads ∙ p.reads;
    writes = q.writes ∙ p.writes;
    write_olds = q.write_olds ∙ p.write_olds;
  }

  cache_account-Same :
      (s : SimulationState h) (addr : Address) (shard : ℤ) (r : h.State × Fetched)
      → Same h s (cache_account h s addr shard r).1
  unfolding cache_account
  cache_account-Same s addr shard (f, unavailable e) = record {
    kept = record {
      logs = refl;
      snapshots = refl;
      access_list = refl;
      errors = λ x m. In-append_left x s.fetch_errors (e ∷ []) m;
    };
    reads = refl;
    writes = refl;
    write_olds = refl;
  }
  cache_account-Same s addr shard (f, fetched resp) = elim (Option-cases (fetched_balance h resp)) [
    | inl panic ↦ rw (panic, cache_account) (unchanged _ refl refl refl refl refl refl refl)
    | inr (balance, fits) ↦
        rw (fits, cache_account) (unchanged _ refl refl refl refl refl refl refl)
  ]
    where
      unchanged :
          (t : SimulationState h)
          → t.logs ≡ s.logs
          → t.snapshots ≡ s.snapshots
          → t.access_list ≡ s.access_list
          → t.fetch_errors ≡ s.fetch_errors
          → t.reads ≡ s.reads
          → t.writes ≡ s.writes
          → t.write_olds ≡ s.write_olds
          → Same h s t
      unchanged t l n a x r w o = record {
        kept = record { logs = l; snapshots = n; access_list = a; errors = λ e m. rw x m };
        reads = r;
        writes = w;
        write_olds = o;
      }

  pub fetch-Same :
      (s : SimulationState h) (addr : Address) → Same h s (get_or_fetch_account h s addr).1
  unfolding get_or_fetch_account
  fetch-Same s addr = elim (Option-cases (lookup addr s.accounts)) [
    | inl fresh ↦ rw (fresh, get_or_fetch_account) (cache_account-Same s addr _ _)
    | inr (acct, cached) ↦ rw (cached, get_or_fetch_account) (Same-refl s)
  ]

  change-Same :
      (s : SimulationState h) (addr : Address) (f : AccountState → AccountState)
      → Same h s (change h s addr f)
  unfolding change
  change-Same s addr f = elim (Option-cases (lookup addr s.accounts)) [
    | inl fresh ↦ rw (fresh, change) (Same-refl s)
    | inr (acct, cached) ↦
        rw (cached, change)
          (record {
            kept = record { logs = refl; snapshots = refl; access_list = refl; errors = λ e m. m };
            reads = refl;
            writes = refl;
            write_olds = refl;
          })
  ]

  -- The account is fetched, and changed.
  pub account-Same :
      (s : SimulationState h) (addr : Address) (f : AccountState → AccountState)
      → Same h s (change h (get_or_fetch_account h s addr).1 addr f)
  account-Same s addr f =
      Same-trans s _ _ (fetch-Same s addr) (change-Same (get_or_fetch_account h s addr).1 addr f)

  read_slot-Kept :
      (s : SimulationState h) (addr : Address) (slot : Hash) → Kept h s (read_slot h s addr slot).1
  unfolding read_slot
  read_slot-Kept s addr slot =
      let k = (fetch-Same s addr).kept in
      record {
        logs = k.logs;
        snapshots = k.snapshots;
        access_list = k.access_list;
        errors = k.errors;
      }

  pub get_state-Kept :
      (s : SimulationState h) (addr : Address) (slot : Hash) → Kept h s (get_state h s addr slot).1
  unfolding get_state
  get_state-Kept s addr slot = elim (Option-cases (lookup2 addr slot s.writes)) [
    | inr (v, written) ↦ rw (written, get_state) (Kept-refl s)
    | inl unwritten ↦ elim (Option-cases (lookup2 addr slot s.reads)) [
      | inr (v, seen) ↦ rw (unwritten, seen, get_state) (Kept-refl s)
      | inl unseen ↦ rw (unwritten, unseen, get_state) (read_slot-Kept s addr slot)
    ]
  ]

  pub set_state-Kept :
      (s : SimulationState h) (addr : Address) (slot value : Hash)
      → Kept h s (set_state h s addr slot value).1
  unfolding set_state record_write
  set_state-Kept s addr slot value =
      let k = get_state-Kept s addr slot in
      record {
        logs = k.logs;
        snapshots = k.snapshots;
        access_list = k.access_list;
        errors = k.errors;
      }
