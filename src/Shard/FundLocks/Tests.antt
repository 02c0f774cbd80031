-- ===== src/Shard/FundLocks/Tests.antt =====
-- Three locks of two transactions at one address.
use test_v.Prelude.{◌≡◌, refl, [], nat_key, string_key}
use test_v.Prelude.Int.{pos, ◌+ℤ◌}
use test_v.Prelude.Maps.{lookup, insert}
use test_v.Protocol.{Address}
use test_v.Shard.FundLocks.{FundLocks, lock_funds, get_locked_amount, clear_lock, clear_lock_locked}
use test_v.Shard.FundLocks.Index.{
  IsIndexed, lock_funds-IsIndexed, get_locked_amount-clear_lock_locked, clears_agree,
}

abbrev no_funds : FundLocks
no_funds = record { locked = []; locked_by_addr = [] }

abbrev one : FundLocks
one = lock_funds no_funds "t1" 256 (pos 5)

abbrev two : FundLocks
two = lock_funds one "t2" 256 (pos 7)

abbrev funds : FundLocks
funds = lock_funds two "t3" 256 (pos 9)

no_funds-IsIndexed : IsIndexed no_funds
unfolding lookup
no_funds-IsIndexed t a = refl

funds-IsIndexed : IsIndexed funds
unfolding lookup insert lock_funds
funds-IsIndexed =
    lock_funds-IsIndexed two "t3" 256 (pos 9)
      (lock_funds-IsIndexed one "t2" 256 (pos 7)
        (lock_funds-IsIndexed no_funds "t1" 256 (pos 5) no_funds-IsIndexed refl) refl)
      refl

clears_agree_example :
    ((clear_lock funds "t1").locked ≡ (clear_lock_locked funds "t1").locked)
    × ((a : Address)
        → get_locked_amount (clear_lock funds "t1") a
          ≡ get_locked_amount (clear_lock_locked funds "t1") a)
clears_agree_example = clears_agree funds "t1"

clear_amount_example :
    get_locked_amount funds 256 ≡ pos 5 +ℤ get_locked_amount (clear_lock_locked funds "t1") 256
unfolding lookup insert lock_funds
clear_amount_example =
    get_locked_amount-clear_lock_locked funds "t1" (record { address = 256; amount = pos 5 }) 256
      funds-IsIndexed refl
