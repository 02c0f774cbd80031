-- ===== src/Shard/Submit/Tests.antt =====
-- Submissions to shard 0 of 8: account 256 has a balance of 12, and account 264 is a contract whose
-- calls read its slot 3.
use test_v.Prelude.{
  ℕ, ◌+◌, ◌*◌, ◌≡◌, refl, true, false, List, [], ◌∷◌, Option, none, some, String, nat_key, ◌==◌,
  if◌then◌else◌,
}
use test_v.Prelude.Int.{ℤ, pos, negsuc, ◌-ℤ◌}
use test_v.Prelude.Maps.{Map, lookup, insert, get_or}
use test_v.Prelude.Nested.{lookup2}
use test_v.Protocol.{Hash}
use test_v.Protocol.RwSets.{keys}
use test_v.Shard.FundLocks.{get_locked_amount, sum_entries}
use test_v.Shard.Evm.{StateDb, can_debit}
use test_v.Shard.Chain.{new_chain}
use test_v.Shard.Node.{Node, num_shards}
use test_v.Shard.Tracking.{
  has_cross_shard_access, StateCall, reading, new_tracking, tracked_step, tracked_run, get_state,
}
use test_v.Shard.Tracking.Accesses.{touches_foreign}
use test_v.Shard.Tracking.Tests.{small_inner}
use test_v.Shard.Submit.{Library, TxSubmitRequest, local_tx, handle_tx_submit}
use test_v.Shard.Submit.Routing.{Handled, Undoes, is_huge, handle_tx_submit_lem}
use test_v.Shard.Submit.Local.{ThroughWrapper, queued_call_stays}

abbrev amount_of : ℤ → Option ℕ
amount_of (pos n) = some n
amount_of (negsuc n) = none

abbrev small_db : StateDb
small_db = record {
  State = Map ℕ Hash;
  get_state = λ s a slot. get_or 0 (a * 1000 + slot) s;
  set_state = λ s a slot v. insert (a * 1000 + slot) v s;
  get_balance = λ s a. if a == 256 then 12 else 0;
  add_balance = λ s a v. s;
  sub_balance = λ s a v. s;
  call = λ s from to input gas v. (s, true);
  snapshot = λ s. (s, 0);
  revert = λ s id. s;
  commit = λ s height. some (s, height);
  must_from_big = amount_of;
  bytes_to_hash = λ bytes. 0;
}

abbrev library : Library
library = record {
  inner = small_inner;
  db = small_db;
  as_db = λ s. s;
  get_code = λ s a. if a == 264 then 1 ∷ [] else [];
  snapshot = λ s. (s, 0);
  revert = λ s id. s;
  call = λ t from to input gas v. ((get_state small_inner t to 3).1, none);
  contains_text = λ s part. false;
  to_lower = λ s. s;
  text_length = λ s. 0;
}

library-ThroughWrapper : ThroughWrapper library
unfolding tracked_run tracked_step
library-ThroughWrapper t caller contract input gas v = (reading contract 3 ∷ [], refl)

abbrev node : Node
node = record { chain = new_chain (pos 0) 7; drawn = 0 }

abbrev id_of : ℕ → String
id_of k = "id"

-- A call of the contract with a value of 5
abbrev request : TxSubmitRequest
request = record { from = 256; to = 264; value = some (pos 5); payload = 9 ∷ []; gas = 0 }

library-Undoes : Undoes library
unfolding get_state new_tracking lookup2 lookup insert
library-Undoes s shard_id caller contract input gas v = refl

handle_tx_submit_example :
    let ((outcome, n'), s') = handle_tx_submit library id_of node [] request in
    (s' ≡ [])
    × Handled
        (λ a amount. can_debit small_db [] a amount (get_locked_amount node.chain.funds a))
        (is_huge library request)
        node
        n'
        outcome
handle_tx_submit_example = handle_tx_submit_lem library id_of node [] request library-Undoes

queued_call_stays_example :
    (v : ℕ) × (calls : List (StateCall ℕ)) × (amount_of (pos 5) ≡ some v)
    × ((get_state small_inner (new_tracking small_inner [] (pos 0) num_shards) 264 3).1
        ≡ (tracked_run small_inner (new_tracking small_inner [] (pos 0) num_shards) calls).1)
    × (touches_foreign num_shards (pos 0) calls ≡ false)
unfolding handle_tx_submit new_chain has_cross_shard_access keys get_state lookup new_tracking
    insert can_debit ◌-ℤ◌ get_locked_amount sum_entries
queued_call_stays_example =
    queued_call_stays library id_of node [] request (pos 5) (local_tx "id" request (pos 5) 1000000)
      library-ThroughWrapper refl refl refl
