-- ===== src/Base/Action/Keeps.antt =====
-- A property of the state that a sequence of calls keeps, however the calls end.
use mathlib.Core.Path.{◌≡◌, refl}
use simulation_taps_tt.Base.Outcome.{Outcome, ok, err, panic}
use simulation_taps_tt.Base.Action.{Action, lift, ◌>>=◌}

pub Keeps-bind :
    {S E A B : Type 0} (P Q : S → Type 0) (m : Action S E A) (f : A → Action S E B) (s : S)
    → ((s' : S) → P s' → Q s')
    → P (m s).1
    → ((a : A) (s' : S) → P s' → Q (f a s').1)
    → Q ((m >>= f) s).1
Keeps-bind {S} {E} {A} {B} P Q m f s weaken h k = kept (m s).0 (m s).1 h
  where
    kept : (r : Outcome E A) (s' : S) → P s' → Q (((λ _. (r, s')) >>= f) s).1
    kept (ok a) s' q = k a s' q
    kept (err e) s' q = weaken s' q
    kept (panic p) s' q = weaken s' q

-- A call that leaves the state alone, and what follows it.
pub Keeps-lift :
    {S E A B : Type 0} (Q : S → Type 0) (m : Outcome E A) (f : A → Action S E B) (s : S)
    → Q s
    → ((a : A) → m ≡ ok a → Q (f a s).1)
    → Q ((lift m >>= f) s).1
Keeps-lift Q (ok a) f s q k = k a refl
Keeps-lift Q (err e) f s q k = q
Keeps-lift Q (panic p) f s q k = q

-- What holds behind a call: one thing if it returns, another if it fails.
abbrev pub Leads : {S E A : Type 0} → (A → S → Type 0) → (S → Type 0) → Outcome E A → S → Type 0
Leads P Q (ok a) s = P a s
Leads P Q (err e) s = Q s
Leads P Q (panic p) s = Q s

pub Leads-bind :
    {S E A B : Type 0} (P : A → S → Type 0) (Q : S → Type 0) (m : Action S E A)
    (f : A → Action S E B) (s : S)
    → Leads P Q (m s).0 (m s).1
    → ((a : A) (s' : S) → P a s' → Q (f a s').1)
    → Q ((m >>= f) s).1
Leads-bind {S} {E} {A} {B} P Q m f s h k = leads (m s).0 (m s).1 h
  where
    leads : (r : Outcome E A) (s' : S) → Leads P Q r s' → Q (((λ _. (r, s')) >>= f) s).1
    leads (ok a) s' p = k a s' p
    leads (err e) s' q = q
    leads (panic p) s' q = q
