-- ===== src/Shard/SlotLocks/Tests.antt =====
-- Transaction t1 holds a slot, and t2 reads it and another one.
use test_v.Prelude.{ℕ, ◌≡◌, refl, List, [], ◌∷◌, none, nat_key, string_key}
use test_v.Prelude.Int.{pos}
use test_v.Prelude.Maps.{lookup}
use test_v.Protocol.{Address, Hash, RwVariable}
use test_v.Shard.SlotLocks.{SlotLocks, lock_rw_set, unlock_all}
use test_v.Shard.SlotLocks.Holder.{holder}
use test_v.Shard.SlotLocks.ReadSets.{Validated, lock_rw_set-Validated}
use test_v.Shard.SlotLocks.UnlockAll.{IsLocks, unlock_all-holder}

abbrev locks : SlotLocks
locks = (257, (3, "t1") ∷ (4, "t2") ∷ []) ∷ []

abbrev stored : Address → Hash → Hash
stored a s = 0

abbrev word : List ℕ → Hash
word [] = 0
word (b ∷ bs) = b

abbrev reads : List RwVariable
reads =
    record {
      address = 257;
      reference_block = record { shard_num = pos 1; block_hash = 0; block_height = 0 };
      read_set =
          record { slot = 5; value = []; proof = [] }
          ∷ record { slot = 3; value = []; proof = [] }
          ∷ [];
      write_set = [];
    }
    ∷ []

lock_rw_set-Validated_example :
    Validated stored word "t2" reads locks (lock_rw_set stored word "t2" reads locks [])
lock_rw_set-Validated_example = lock_rw_set-Validated stored word "t2" reads locks

locks-IsLocks : IsLocks locks
unfolding lookup
locks-IsLocks = (refl, (refl, (refl, tt)), tt)

unlock_all-holder_example : holder (unlock_all locks "t1") 257 3 ≡ none
unfolding holder lookup
unlock_all-holder_example = unlock_all-holder locks "t1" 257 3 locks-IsLocks
