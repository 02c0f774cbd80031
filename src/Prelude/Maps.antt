-- ===== src/Prelude/Maps.antt =====
-- Go's maps as association lists. Each key stands at most once in a map that `insert` and `erase`
-- build; the order of the entries stands for the unspecified order of iteration.
use Prim.Native.Nat.{◌+◌, ◌≤◌, ◌<◌}
use mathlib.Core.Path.{◌≡◌, refl}
use mathlib.Core.Logic.{◌≢◌, inl, inr}
use mathlib.Core.List.{List, [], ◌∷◌}
use mathlib.Core.Bool.{Bool, true}
use mathlib.Core.Option.{Option, none, some}
use native.Mathlib.Omega.{arith}
use test_v.Prelude.Tests.{if◌then◌else◌, is_some}
use test_v.Prelude.Keys.{Key, ◌==◌, eq_refl}
use test_v.Prelude.Lists.{length, In, Distinct}

abbrev pub Map {ℓ κ} : Type ℓ → Type κ → Type (ℓ ⊔ κ)
Map K V = List (K × V)

module _ {ℓ κ} {K : Type ℓ} {V : Type κ} ⦃e : Key K⦄ where
  -- `v, ok := m[k]`
  unfoldable pub lookup : K → Map K V → Option V
  lookup k [] = none
  lookup k ((here, x) ∷ rest) = if here == k then some x else lookup k rest

  -- `m[k] = v`
  unfoldable pub insert : K → V → Map K V → Map K V
  insert k x [] = (k, x) ∷ []
  insert k x ((here, old) ∷ rest) =
      if here == k then (k, x) ∷ rest else (here, old) ∷ insert k x rest

  -- `delete(m, k)`
  unfoldable pub erase : K → Map K V → Map K V
  erase k [] = []
  erase k ((here, old) ∷ rest) = if here == k then erase k rest else (here, old) ∷ erase k rest

  -- `_, ok := m[k]`
  abbrev pub contains : K → Map K V → Bool
  contains k m = is_some (lookup k m)

  -- `m[k]` with a default for a missing key
  abbrev pub get_or : V → K → Map K V → V
  get_or d k m = elim (lookup k m) [ none ↦ d | some v ↦ v ]

  pub lookup-nil : (k : K) → lookup k [] ≡ none
  unfolding lookup
  lookup-nil k = refl

  pub lookup-insert :
      (k at : K) (new : V) (entries : Map K V)
      → lookup at (insert k new entries) ≡ (if k == at then some new else lookup at entries)
  unfolding lookup insert
  lookup-insert k at new [] = refl
  lookup-insert k at new ((here, old) ∷ rest) =
      ground
        (arith, lookup-insert k at new rest, e.same_iff here k, e.same_iff here at, e.same_iff k at)

  pub lookup-erase :
      (k j : K) (m : Map K V) → lookup j (erase k m) ≡ (if k == j then none else lookup j m)
  unfolding lookup erase
  lookup-erase k j [] = ground arith
  lookup-erase k j ((i, w) ∷ m) =
      ground (arith, e.same_iff k j, e.same_iff i k, e.same_iff i j, lookup-erase k j m)

  pub lookup-insert_self : (k : K) (v : V) (m : Map K V) → lookup k (insert k v m) ≡ some v
  lookup-insert_self k v m = rw (lookup-insert, eq_refl k)

  pub lookup-erase_self : (k : K) (m : Map K V) → lookup k (erase k m) ≡ none
  lookup-erase_self k m = rw (lookup-erase, eq_refl k)

  pub get_or-insert :
      (d : V) (k j : K) (v : V) (m : Map K V)
      → get_or d j (insert k v m) ≡ (if k == j then v else get_or d j m)
  get_or-insert d k j v m = ground (arith, lookup-insert k j v m)

  pub get_or-erase :
      (d : V) (k j : K) (m : Map K V)
      → get_or d j (erase k m) ≡ (if k == j then d else get_or d j m)
  get_or-erase d k j m = ground (arith, lookup-erase k j m)

  -- Both forget what stood under the key, so an insertion before a deletion leaves no trace.
  pub erase-insert_self : (k : K) (v : V) (m : Map K V) → erase k (insert k v m) ≡ erase k m
  unfolding erase insert
  erase-insert_self k v [] = ground (arith, eq_refl k)
  erase-insert_self k v ((i, w) ∷ m) = ground (arith, eq_refl k, erase-insert_self k v m)

  pub length-insert_le : (k : K) (v : V) (m : Map K V) → length (insert k v m) ≤ length m + 1
  unfolding insert
  length-insert_le k v [] = omega arith
  length-insert_le k v ((i, w) ∷ m) = ground (arith, length-insert_le k v m)

  pub length-erase_le : (k : K) (m : Map K V) → length (erase k m) ≤ length m
  unfolding erase
  length-erase_le k [] = omega arith
  length-erase_le k ((i, w) ∷ m) = ground (arith, length-erase_le k m)

  pub length-erase_lt : (k : K) (m : Map K V) → contains k m ≡ true → length (erase k m) < length m
  unfolding lookup erase
  length-erase_lt k [] h = cc
  length-erase_lt k ((i, w) ∷ m) h = ground (arith, length-erase_le k m, length-erase_lt k m)

-- Distinct keys that are all present are no more than the entries.
module _ {κ} {K : Type 0} {V : Type κ} ⦃e : Key K⦄ where
  contains-erase :
      (k j : K) (m : Map K V) → k ≢ j → contains j m ≡ true → contains j (erase k m) ≡ true
  contains-erase k j m n h = rw lookup-erase (ground (arith, e.same_iff k j))

  pub length-le_of_present :
      (ks : List K) (m : Map K V)
      → Distinct ks
      → ((k : K) → In k ks → contains k m ≡ true)
      → length ks ≤ length m
  length-le_of_present [] m d h = omega arith
  length-le_of_present (k ∷ ks) m d h = omega (
    arith,
    length-le_of_present ks (erase k m) d.1
        (λ j i. contains-erase k j m (λ q. d.0 (rw q i)) (h j (inr i))),
    length-erase_lt k m (h k (inl refl)),
  )

-- Each key stands once.
module _ {ℓ κ} {K : Type ℓ} {V : Type κ} ⦃e : Key K⦄ where
  abbrev pub IsMap : Map K V → Type κ
  IsMap [] = Unit
  IsMap ((k, v) ∷ m) = (lookup k m ≡ none) × IsMap m

  pub insert-IsMap : (k : K) (v : V) (m : Map K V) → IsMap m → IsMap (insert k v m)
  unfolding lookup insert
  insert-IsMap k v [] h = (refl, tt)
  insert-IsMap k v ((j, w) ∷ m) h =
      ground (arith, e.same_iff j k, e.same_iff k j, insert-IsMap k v m h.1, lookup-insert k j v m)

  pub erase-IsMap : (k : K) (m : Map K V) → IsMap m → IsMap (erase k m)
  unfolding lookup erase
  erase-IsMap k [] h = tt
  erase-IsMap k ((j, w) ∷ m) h = ground (arith, erase-IsMap k m h.1, lookup-erase k j m)
