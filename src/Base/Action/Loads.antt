-- ===== src/Base/Action/Loads.antt =====
-- The shape of a loader: look up keys, open a package, store what is in it.
use mathlib.Core.Path.{◌≡◌}
use mathlib.Core.Logic.{◌≢◌, ◌⊎◌, inl, inr}
use native.Mathlib.Omega.{arith}
use simulation_taps_tt.Base.Outcome.{Outcome, ok, Outcome-cases}
use simulation_taps_tt.Base.Action.{Action, reads, modify, ◌>>=◌}

abbrev pub loading :
    {S E K A : Type 0}
    → (S → Outcome E K)
    → (K → S → Outcome E A)
    → (A → S → S)
    → Action S E (Unit {0})
loading find opens store =
    reads find >>= λ keys. reads (opens keys) >>= λ config. modify (store config)

-- It stores, or it fails and leaves the state alone.
pub load_cases :
    {S E K A : Type 0} (find : S → Outcome E K) (opens : K → S → Outcome E A) (store : A → S → S)
    (s : S)
    → (((loading find opens store s).1 ≡ s) × ((loading find opens store s).0 ≢ ok tt))
      ⊎ ((keys : K) × (a : A) × (find s ≡ ok keys)
          × (opens keys s ≡ ok a)
          × (loading find opens store s ≡ (ok tt, store a s)))
load_cases find opens store s = elim (Outcome-cases (find s)) [
  | inl (keys, ek) ↦ elim (Outcome-cases (opens keys s)) [
    | inl (a, ea) ↦ inr (keys, a, ek, ea, ground (arith, ek, ea))
    | inr (inl (e, ea)) ↦ inl (ground (arith, ek, ea))
    | inr (inr (p, ea)) ↦ inl (ground (arith, ek, ea))
  ]
  | inr (inl (e, ek)) ↦ inl (ground (arith, ek))
  | inr (inr (p, ek)) ↦ inl (ground (arith, ek))
]
