-- ===== src/Bench/Assoc.antt =====
-- `HashMap` with keys that can be compared: an association list in the order of insertion, which the
-- program never sees.
use simulation_taps_tt.Base.{
  ◌≡◌, refl, ap, Bool, true, Option, none, some, List, [], ◌∷◌, inl, inr, Bool-cases, if◌then◌else◌,
  arith,
}

module _ {K : Type 0} (same : K → K → Bool) where
  abbrev pub Assoc : Type 0 → Type 0
  Assoc V = List (K × V)

  module _ {V : Type 0} where
    -- `get`
    abbrev pub find : K → Assoc V → Option V
    find k [] = none
    find k ((j, v) ∷ m) = if same k j then some v else find k m

    -- `insert`
    abbrev pub put : K → V → Assoc V → Assoc V
    put k v [] = (k, v) ∷ []
    put k v ((j, w) ∷ m) = if same k j then (j, v) ∷ m else (j, w) ∷ put k v m

    pub find-put :
        ((j k : K) → same j k ≡ true → j ≡ k)
        → ((k : K) → same k k ≡ true)
        → (j k : K) (v : V) (m : Assoc V)
        → find j (put k v m) ≡ (if same j k then some v else find j m)
    find-put sound complete j k v [] = refl
    find-put sound complete j k v ((i, w) ∷ m) =
        let later = find-put sound complete j k v m in
        elim (Bool-cases (same k i)) [
          | inl here ↦ ground (arith, here, ap (same j) (sound k i here))
          | inr other ↦ elim (Bool-cases (same j k)) [
            | inl e ↦ ground (arith, other, e, ap (λ t. same t i) (sound j k e), later)
            | inr e ↦ ground (arith, other, e, later)
          ]
        ]
