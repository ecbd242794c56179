-- ===== src/Base/Action/Ensures.antt =====
-- Total correctness of a call: it does not panic, and what it returns, with the state behind it,
-- satisfies a condition. An error satisfies every condition.
use mathlib.Core.Path.{◌≡◌, subst, sym}
use simulation_taps_tt.Base.Outcome.{Outcome, ok, err, panic, Safe}
use simulation_taps_tt.Base.Action.{Action, reads, lift, ◌>>=◌}

module _ {S E A : Type 0} where
  abbrev pub Ends : (A → S → Type 0) → Outcome E A → S → Type 0
  Ends Q (ok a) s = Q a s
  Ends Q (err e) s = Unit
  Ends Q (panic p) s = ⊥

  abbrev pub Ensures : (A → S → Type 0) → Action S E A → S → Type 0
  Ensures Q m s = Ends Q (m s).0 (m s).1

  -- The result may be computed first.
  pub ensured_at_end :
      (Q : A → S → Type 0) (m : Action S E A) (s : S) {r : Outcome E A} {s' : S}
      → m s ≡ (r, s')
      → Ends Q r s'
      → Ensures Q m s
  ensured_at_end Q m s e h = subst (λ (q : Outcome E A × S). Ends Q q.0 q.1) (sym e) h

  pub returned_at_end :
      (Q : A → S → Type 0) (r : Outcome E A) (s : S) (a : A) → Ends Q r s → r ≡ ok a → Q a s
  returned_at_end Q (ok b) s a h e = subst (λ c. Q c s) (cc (e)) h
  returned_at_end Q (err _) s a h e = absurd (cc (e))
  returned_at_end Q (panic _) s a h e = absurd h

module _ {S E A B : Type 0} where
  pub Ensures-bind :
      (R : A → S → Type 0) (Q : B → S → Type 0) (m : Action S E A) (f : A → Action S E B) (s : S)
      → Ensures R m s
      → ((a : A) (s' : S) → R a s' → Ensures Q (f a) s')
      → Ensures Q (m >>= f) s
  Ensures-bind R Q m f s h k = goes_on (m s).0 (m s).1 h
    where
      goes_on : (r : Outcome E A) (s' : S) → Ends R r s' → Ensures Q ((λ (_ : S). (r, s')) >>= f) s
      goes_on (ok a) s' h' = k a s' h'
      goes_on (err e) s' h' = tt
      goes_on (panic p) s' h' = absurd h'

  -- A call that only reads.
  pub Ensures-reads :
      (P : A → Type 0) (Q : B → S → Type 0) (g : S → Outcome E A) (f : A → Action S E B) (s : S)
      → Safe P (g s)
      → ((a : A) → P a → Ensures Q (f a) s)
      → Ensures Q (reads g >>= f) s
  Ensures-reads P Q g f s h k = goes_on (g s) h
    where
      goes_on : (r : Outcome E A) → Safe P r → Ensures Q (lift r >>= f) s
      goes_on (ok a) h' = k a h'
      goes_on (err e) h' = tt
      goes_on (panic p) h' = absurd h'
