-- ===== src/Prelude/Nested.antt =====
-- Go's maps of maps, as the stores by address and slot: `m[a][s]`, where a missing inner map reads
-- as an empty one, and a write makes it.
use mathlib.Core.Path.{◌≡◌}
use mathlib.Core.Bool.{◌&&◌}
use mathlib.Core.List.{[]}
use mathlib.Core.Option.{Option, some}
use native.Mathlib.Omega.{arith}
use test_v.Prelude.Tests.{if◌then◌else◌}
use test_v.Prelude.Keys.{Key, ◌==◌}
use test_v.Prelude.Maps.{Map, lookup, insert, get_or, lookup-insert, get_or-insert}

module _ {K L V : Type 0} ⦃e : Key K⦄ ⦃f : Key L⦄ where
  abbrev pub lookup2 : K → L → Map K (Map L V) → Option V
  lookup2 a s m = lookup s (get_or [] a m)

  abbrev pub insert2 : K → L → V → Map K (Map L V) → Map K (Map L V)
  insert2 a s v m = insert a (insert s v (get_or [] a m)) m

  pub lookup2-insert2 :
      (a b : K) (s t : L) (v : V) (m : Map K (Map L V))
      → lookup2 b t (insert2 a s v m) ≡ (if a == b && s == t then some v else lookup2 b t m)
  lookup2-insert2 a b s t v m = ground (
    arith,
    get_or-insert [] a b (insert s v (get_or [] a m)) m,
    lookup-insert s t v (get_or [] a m),
    e.same_iff a b,
  )
