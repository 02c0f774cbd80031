-- ===== src/Shard/Tracking/Tests.antt =====
-- A wrapped database with a storage of one number per address and slot, on shard 1 of 8.
use test_v.Prelude.{ℕ, ◌+◌, ◌*◌, ◌≡◌, ◌⊎◌, List, [], ◌∷◌, none, some, nat_key}
use test_v.Prelude.Int.{pos}
use test_v.Prelude.Maps.{Map, insert, get_or}
use test_v.Protocol.{Hash, Reference}
use test_v.Protocol.RwSets.{read_at, written_at}
use test_v.Shard.Tracking.{
  Call, Inner, TrackingState, new_tracking, StateCall, plain, reading, writing, tracked_run,
  tracked_rw_set,
}
use test_v.Shard.Tracking.Covered.{tracked_rw_set_covered}

abbrev pub small_inner : Inner
small_inner = record {
  State = Map ℕ Hash;
  Log = ℕ;
  Answer = ℕ;
  perform = λ s call. (s, 7);
  get_state = λ s a slot. get_or 0 (a * 1000 + slot) s;
  get_committed = λ s a slot. 0;
  set_state = λ s a slot v. (insert (a * 1000 + slot) v s, get_or 0 (a * 1000 + slot) s);
  hash_bytes = λ v. v ∷ [];
}

-- A balance on another shard, and a slot that is read, written and read again.
abbrev calls : List (StateCall ℕ)
calls = plain (Call.get_balance 2) ∷ reading 1 3 ∷ writing 1 3 9 ∷ reading 1 3 ∷ []

abbrev start : TrackingState small_inner
start = new_tracking small_inner ((1003, 4) ∷ []) (pos 1) 8

abbrev block : Reference
block = record { shard_num = pos 1; block_hash = 0; block_height = 5 }

tracked_rw_set_covered_example :
    (written_at (tracked_rw_set small_inner (tracked_run small_inner start calls).1 block) 1 3
      ≡ none)
    ⊎ ((old : List ℕ) × (new : List ℕ) × (written_at
            (tracked_rw_set small_inner (tracked_run small_inner start calls).1 block)
            1
            3
          ≡ some (old, new))
        × (read_at (tracked_rw_set small_inner (tracked_run small_inner start calls).1 block) 1 3
            ≡ some old))
tracked_rw_set_covered_example =
    tracked_rw_set_covered small_inner ((1003, 4) ∷ []) (pos 1) 8 calls block 1 3
