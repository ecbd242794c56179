-- ===== src/Base/Action.antt =====
-- A method on `&mut self`: the state is returned however the call ends, since what was written
-- before an error stays written.
pub mod Loads
pub mod Keeps
pub mod Ensures
use simulation_taps_tt.Base.Outcome.{Outcome, ok, err, panic}

abbrev pub Action : Type 0 → Type 0 → Type 0 → Type 0
Action S E A = S → Outcome E A × S

infixl 5 ◌>>=◌ ◌>>◌
abbrev pub ◌>>=◌ : {S E A B : Type 0} → Action S E A → (A → Action S E B) → Action S E B
◌>>=◌ m f s =
    let (r, s') = m s in elim r [ ok a ↦ f a s' | err e ↦ (err e, s') | panic p ↦ (panic p, s') ]

abbrev pub ◌>>◌ : {S E B : Type 0} → Action S E (Unit {0}) → Action S E B → Action S E B
m >> k = m >>= λ _. k

module _ {S E A : Type 0} where
  abbrev pub pure : A → Action S E A
  pure a s = (ok a, s)

  -- A call that reads the state and may fail.
  abbrev pub reads : (S → Outcome E A) → Action S E A
  reads f s = (f s, s)

abbrev pub modify : {S E : Type 0} → (S → S) → Action S E (Unit {0})
modify f s = (ok tt, f s)

abbrev pub lift : {S E A : Type 0} → Outcome E A → Action S E A
lift m s = (m, s)
