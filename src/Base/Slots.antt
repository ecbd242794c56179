-- ===== src/Base/Slots.antt =====
-- A vector of optional entries, one for each id: `Vec<Option<T>>`.
use simulation_taps_tt.Base.Lists.{length, get_elem?, set, replicate}
use simulation_taps_tt.Base.Outcome.{Outcome, ok, err, ◌>>=◌}
use Prim.Native.Nat.{ℕ, zero, suc, ◌≤◌, ◌<◌}
use mathlib.Core.Path.{◌≡◌, refl}
use mathlib.Core.List.{List, [], ◌∷◌}
use mathlib.Core.Option.{Option, none, some}
use native.Mathlib.Omega.{arith}

module _ {ℓ} {A : Type ℓ} where
  -- How many entries are taken.
  abbrev pub filled : List (Option A) → ℕ
  filled [] = 0
  filled (none ∷ xs) = filled xs
  filled (some _ ∷ xs) = suc (filled xs)

  pub filled-le-length : (xs : List (Option A)) → filled xs ≤ length xs
  filled-le-length [] = omega arith
  filled-le-length (none ∷ xs) = omega (arith, filled-le-length xs)
  filled-le-length (some _ ∷ xs) = omega (arith, filled-le-length xs)

  pub filled-set :
      (xs : List (Option A)) (i : ℕ) (a : A)
      → get_elem? xs i ≡ some none
      → filled (set xs i (some a)) ≡ suc (filled xs)
  filled-set [] i a h = cc
  filled-set (none ∷ xs) zero a h = refl
  filled-set (some _ ∷ xs) zero a h = cc
  filled-set (none ∷ xs) (suc i) a h = filled-set xs i a h
  filled-set (some _ ∷ xs) (suc i) a h = omega (arith, filled-set xs i a h)

module _ {ℓ} {A : Type ℓ} where
  -- Filling a free slot leaves a taken one as it is.
  pub get_elem?-set_keeps :
      (xs : List (Option A)) (i j : ℕ) (a b : A)
      → get_elem? xs j ≡ some none
      → get_elem? xs i ≡ some (some a)
      → get_elem? (set xs j (some b)) i ≡ some (some a)
  get_elem?-set_keeps [] i j a b free taken = cc
  get_elem?-set_keeps (x ∷ xs) zero zero a b free taken = cc
  get_elem?-set_keeps (x ∷ xs) zero (suc j) a b free taken = taken
  get_elem?-set_keeps (x ∷ xs) (suc i) zero a b free taken = taken
  get_elem?-set_keeps (x ∷ xs) (suc i) (suc j) a b free taken =
      get_elem?-set_keeps xs i j a b free taken

pub filled-replicate {ℓ} : (A : Type ℓ) (n : ℕ) → filled {A = A} (replicate n none) ≡ 0
filled-replicate A zero = refl
filled-replicate A (suc n) = filled-replicate A n

-- The entries with a function applied, or an error at the first that is missing:
-- `.map(|opt| … .ok_or(e)).collect::<Result<_, _>>()`
abbrev pub collect : {A B E : Type 0} → (A → B) → E → List (Option A) → Outcome E (List B)
collect f e [] = ok []
collect f e (none ∷ xs) = err e
collect f e (some a ∷ xs) = do bs ← collect f e xs; ok (f a ∷ bs)

-- If all are taken, they are all collected, each at its place.
pub collect-filled :
    {A B E : Type 0} (f : A → B) (e : E) (xs : List (Option A))
    → filled xs ≡ length xs
    → (bs : List B) × (collect f e xs ≡ ok bs)
      × (length bs ≡ length xs)
      × ((i : ℕ) (a : A) → get_elem? xs i ≡ some (some a) → get_elem? bs i ≡ some (f a))
collect-filled f e [] h = ([], refl, refl, λ i a k. cc)
collect-filled f e (none ∷ xs) h = absurd (omega (arith, filled-le-length xs))
collect-filled {A} {B} f e (some a ∷ xs) h =
    let (bs, c, l, g) = collect-filled f e xs (omega arith) in
    (f a ∷ bs, ground (arith, c), omega (arith, l), at bs g)
  where
    at :
        (bs : List B)
        → ((i : ℕ) (b : A) → get_elem? xs i ≡ some (some b) → get_elem? bs i ≡ some (f b))
        → (i : ℕ) (b : A) → get_elem? (some a ∷ xs) i ≡ some (some b)
        → get_elem? (f a ∷ bs) i ≡ some (f b)
    at bs g zero b k = cc
    at bs g (suc i) b k = g i b k

-- If all are taken, so is each.
pub get_elem?-filled {ℓ} :
    {A : Type ℓ} (xs : List (Option A)) (i : ℕ)
    → filled xs ≡ length xs
    → i < length xs
    → (a : A) × (get_elem? xs i ≡ some (some a))
get_elem?-filled [] i h lt = absurd (omega arith)
get_elem?-filled (none ∷ xs) i h lt = absurd (omega (arith, filled-le-length xs))
get_elem?-filled (some a ∷ xs) zero h lt = (a, refl)
get_elem?-filled (some a ∷ xs) (suc i) h lt = get_elem?-filled xs i (omega arith) (omega arith)
