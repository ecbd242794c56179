-- ===== src/Base/Outcome.antt =====
-- How a call ends: `Ok`, `Err`, or a panic (`expect`, `unwrap` or an index out of bounds).
use Prim.Native.String.{String}
use mathlib.Core.Path.{◌≡◌, refl}
use mathlib.Core.Logic.{◌⊎◌, inl, inr}
use mathlib.Core.Bool.{Bool, true, false}
use mathlib.Core.Option.{Option, none, some}

pub data Outcome (E A : Type 0) : Type 0 where
  ok : A → Outcome E A
  err : E → Outcome E A
  panic : String → Outcome E A

infixl 5 ◌>>=◌ ◌>>◌
abbrev pub ◌>>=◌ : {E A B : Type 0} → Outcome E A → (A → Outcome E B) → Outcome E B
panic s >>= next = panic s
err e >>= next = err e
ok a >>= next = next a

abbrev pub ◌>>◌ : {E B : Type 0} → Outcome E (Unit {0}) → Outcome E B → Outcome E B
m >> k = m >>= λ _. k

module _ {E A : Type 0} where
  -- `.expect(message)` and `.unwrap()` on an `Option`
  abbrev pub expect : String → Option A → Outcome E A
  expect s none = panic s
  expect s (some a) = ok a

  -- `.ok_or(e)?`, and `.map_err(|_| e)?` on a result whose error carries nothing
  abbrev pub ok_or : E → Option A → Outcome E A
  ok_or e none = err e
  ok_or e (some a) = ok a

-- `if !test { return Err(e) }`
abbrev pub guard : {E : Type 0} → Bool → E → Outcome E (Unit {0})
guard false e = err e
guard true e = ok tt

-- Inversion of a successful bind.
pub >>=-eq-ok :
    {E A B : Type 0} (m : Outcome E A) (next : A → Outcome E B) {b : B}
    → (m >>= next) ≡ ok b
    → (a : A) × (m ≡ ok a) × (next a ≡ ok b)
>>=-eq-ok (panic s) next ends = cc
>>=-eq-ok (err e) next ends = cc
>>=-eq-ok (ok a) next ends = (a, refl, ends)

-- The same, for a proof that goes on with the result.
pub >>=-ok_then :
    {E A B C : Type 0} (m : Outcome E A) (f : A → Outcome E B) {b : B}
    → (m >>= f) ≡ ok b
    → ((a : A) → m ≡ ok a → f a ≡ ok b → C)
    → C
>>=-ok_then m f h k = let (a, e, e') = >>=-eq-ok m f h in k a e e'

pub ok_or-eq-ok : {E A : Type 0} (e : E) (o : Option A) {a : A} → ok_or e o ≡ ok a → o ≡ some a
ok_or-eq-ok e none h = cc
ok_or-eq-ok e (some a) h = cc

pub guard-eq-ok : {E : Type 0} (b : Bool) (e : E) {u : Unit {0}} → guard b e ≡ ok u → b ≡ true
guard-eq-ok true e h = refl
guard-eq-ok false e h = cc

-- The call does not panic, and what it returns satisfies `P`.
abbrev pub Safe : {E A : Type 0} → (A → Type 0) → Outcome E A → Type 0
Safe P (ok a) = P a
Safe P (err e) = Unit
Safe P (panic s) = ⊥

module _ {E A B : Type 0} (P : B → Type 0) where
  pub Safe-ok_or :
      (e : E) (o : Option A) (k : A → Outcome E B)
      → ((a : A) → o ≡ some a → Safe P (k a))
      → Safe P (ok_or e o >>= k)
  Safe-ok_or e none k h = tt
  Safe-ok_or e (some a) k h = h a refl

  pub Safe-bind :
      (Q : A → Type 0) (m : Outcome E A) (k : A → Outcome E B)
      → Safe Q m
      → ((a : A) → Q a → Safe P (k a))
      → Safe P (m >>= k)
  Safe-bind Q (ok a) k q h = h a q
  Safe-bind Q (err e) k q h = tt
  Safe-bind Q (panic s) k q h = absurd q

pub Safe-map :
    {E A : Type 0} (P Q : A → Type 0) (m : Outcome E A)
    → ((a : A) → P a → Q a)
    → Safe P m
    → Safe Q m
Safe-map P Q (ok a) f h = f a h
Safe-map P Q (err e) f h = tt
Safe-map P Q (panic s) f h = absurd h

pub Outcome-cases :
    {E A : Type 0} (m : Outcome E A)
    → ((a : A) × (m ≡ ok a)) ⊎ ((e : E) × (m ≡ err e)) ⊎ ((s : String) × (m ≡ panic s))
Outcome-cases (ok a) = inl (a, refl)
Outcome-cases (err e) = inr (inl (e, refl))
Outcome-cases (panic s) = inr (inr (s, refl))
