-- ===== src/Base/Map.antt =====
-- A map from numbers, kept in ascending order of its keys: `BTreeMap<usize, V>`. It also stands
-- for `HashMap<usize, V>` where the program only looks keys up.
pub mod Order
use Prim.Native.Nat.{ℕ, suc, ◌<◌, ◌≤◌}
use mathlib.Core.Path.{◌≡◌, refl}
use mathlib.Core.Bool.{Bool, true, false}
use mathlib.Core.List.{List, [], ◌∷◌}
use mathlib.Core.Option.{Option, none, some}
use native.Mathlib.Omega.{arith}
use simulation_taps_tt.Base.Tests.{ltb, ◌==◌, if◌then◌else◌}

abbrev pub Map {ℓ} : Type ℓ → Type ℓ
Map V = List (ℕ × V)

module _ {ℓ} {V : Type ℓ} where
  abbrev pub lookup : ℕ → Map V → Option V
  lookup k [] = none
  lookup k ((j, v) ∷ m) = if k == j then some v else lookup k m

  -- `contains_key`
  abbrev pub contains : ℕ → Map V → Bool
  contains k m = elim (lookup k m) [ none ↦ false | some _ ↦ true ]

  abbrev pub insert : ℕ → V → Map V → Map V
  insert k v [] = (k, v) ∷ []
  insert k v ((j, w) ∷ m) =
      if ltb k j then (k, v) ∷ (j, w) ∷ m else if k == j then (k, v) ∷ m else (j, w) ∷ insert k v m

  -- `remove`: the map without the key.
  abbrev pub erase : ℕ → Map V → Map V
  erase k [] = []
  erase k ((j, w) ∷ m) = if k == j then m else (j, w) ∷ erase k m

  abbrev pub keys : Map V → List ℕ
  keys [] = []
  keys ((k, v) ∷ m) = k ∷ keys m

  abbrev pub values : Map V → List V
  values [] = []
  values ((k, v) ∷ m) = v ∷ values m

  -- Every key is at least the bound, and the keys ascend.
  abbrev pub Ascends : ℕ → Map V → Type 0
  Ascends b [] = Unit
  Ascends b ((k, v) ∷ m) = (b ≤ k) × Ascends (suc k) m

  pub lookup-insert :
      (j k : ℕ) (v : V) (m : Map V)
      → lookup j (insert k v m) ≡ (if j == k then some v else lookup j m)
  lookup-insert j k v [] = refl
  lookup-insert j k v ((i, w) ∷ m) = ground (arith, lookup-insert j k v m)

  pub insert-Ascends :
      (b k : ℕ) (v : V) (m : Map V) → b ≤ k → Ascends b m → Ascends b (insert k v m)
  insert-Ascends b k v [] h a = (h, tt)
  insert-Ascends b k v ((i, w) ∷ m) h a = ground (arith, insert-Ascends (suc i) k v m)

  pub lookup_below : (j b : ℕ) (m : Map V) → Ascends b m → j < b → lookup j m ≡ none
  lookup_below j b [] a h = refl
  lookup_below j b ((i, w) ∷ m) a h = ground (arith, lookup_below j (suc i) m)
