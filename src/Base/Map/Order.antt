-- ===== src/Base/Map/Order.antt =====
-- What the order of the keys gives: insertions commute, a map is determined by its entries, and
-- `n` keys below `n` are all there are.
use Prim.Native.Nat.{ℕ, zero, suc, ◌+◌, ◌-◌, ◌<◌, ◌≤◌}
use mathlib.Core.Path.{◌≡◌, refl, ap₂, subst}
use mathlib.Core.Logic.{◌≢◌}
use mathlib.Core.List.{List, [], ◌∷◌}
use mathlib.Core.Option.{none, some}
use native.Mathlib.Omega.{arith}
use native.Mathlib.Decide.{ℕ_discrete, dec_lt}
use simulation_taps_tt.Base.Lists.{length, get_elem?}
use simulation_taps_tt.Base.Map.{
  Map, lookup, insert, values, Ascends, lookup_below, insert-Ascends, lookup-insert,
}

module _ {ℓ} {V : Type ℓ} where
  -- Two insertions under different keys can be exchanged.
  pub insert_comm :
      (i j : ℕ) (v w : V) (m : Map V)
      → i ≢ j
      → insert i v (insert j w m) ≡ insert j w (insert i v m)
  insert_comm i j v w [] h = ground arith
  insert_comm i j v w ((k, u) ∷ m) h = ground (arith, insert_comm i j v w m h)

  -- Every key is below the bound.
  abbrev pub Below : ℕ → Map V → Type 0
  Below n [] = Unit
  Below n ((k, v) ∷ m) = (k < n) × Below n m

  pub insert-Below : (n k : ℕ) (v : V) (m : Map V) → k < n → Below n m → Below n (insert k v m)
  insert-Below n k v [] h b = (h, tt)
  insert-Below n k v ((j, w) ∷ m) h b = ground (arith, insert-Below n k v m)

  length-le_of_Below : (b n : ℕ) (m : Map V) → b ≤ n → Ascends b m → Below n m → b + length m ≤ n
  length-le_of_Below b n [] h a l = omega arith
  length-le_of_Below b n ((k, v) ∷ m) h a l =
      omega (arith, length-le_of_Below (suc k) n m l.0 a.1 l.1)

  -- If the keys lie between `b` and `n` and there are `n - b` of them, each is there.
  pub lookup_of_full :
      (b n j : ℕ) (m : Map V)
      → Ascends b m
      → Below n m
      → b + length m ≡ n
      → b ≤ j
      → j < n
      → (v : V) × (lookup j m ≡ some v)
  lookup_of_full b n j [] a l e p q = absurd (omega arith)
  lookup_of_full b n j ((k, v) ∷ m) a l e p q =
      let room = length-le_of_Below (suc k) n m l.0 a.1 l.1 in
      elim (ℕ_discrete j k) [
        | yes same ↦ (v, ground arith)
        | no other ↦
            let (w, f) = lookup_of_full (suc k) n j m a.1 l.1 (omega arith) (omega arith) q in
            (w, ground (arith, f))
      ]

  -- A map whose entries are those of a list, from key `b` on, has the list for its values.
  pub values-eq :
      (b : ℕ) (xs : List V) (m : Map V)
      → Ascends b m
      → ((k : ℕ) → lookup (b + k) m ≡ get_elem? xs k)
      → values m ≡ xs
  values-eq b [] [] a h = refl
  values-eq b (x ∷ xs) [] a h = cc (h 0)
  values-eq b [] ((k, v) ∷ m) a h =
      let gap : b + (k - b) ≡ k = omega arith in
      let here : lookup k ((k, v) ∷ m) ≡ none =
        subst (λ j. lookup j ((k, v) ∷ m) ≡ none) gap (h (k - b)) in
      ground (arith, here)
  values-eq b (x ∷ xs) ((k, v) ∷ m) a h =
      let first : lookup b ((k, v) ∷ m) ≡ some x =
        subst (λ j. lookup j ((k, v) ∷ m) ≡ some x) (omega arith) (h 0) in
      let same : b ≡ k = ground (arith, first, lookup_below b (suc k) m a.1) in
      let head : v ≡ x = ground (arith, first) in
      ap₂ (λ y ys. y ∷ ys) head
        (values-eq (suc k) xs m a.1 λ j.
          let step : b + suc j ≡ suc k + j = omega arith in
          let next : lookup (suc k + j) ((k, v) ∷ m) ≡ get_elem? xs j =
            subst (λ i. lookup i ((k, v) ∷ m) ≡ get_elem? xs j) step (h (suc j)) in
          ground (arith, next))

  -- In a full map the entry of key `b + k` is value number `k`.
  pub lookup-values :
      (b n k : ℕ) (m : Map V)
      → Ascends b m
      → Below n m
      → b + length m ≡ n
      → lookup (b + k) m ≡ get_elem? (values m) k
  lookup-values b n k [] a l e = refl
  lookup-values b n zero ((j, v) ∷ m) a l e =
      ground (arith, length-le_of_Below (suc j) n m l.0 a.1 l.1)
  lookup-values b n (suc k) ((j, v) ∷ m) a l e =
      let room = length-le_of_Below (suc j) n m l.0 a.1 l.1 in
      let next : lookup (b + suc k) m ≡ get_elem? (values m) k =
        subst (λ i. lookup i m ≡ get_elem? (values m) k) (omega arith)
          (lookup-values (suc j) n k m a.1 l.1 (omega arith)) in
      ground (arith, room, next)

  pub length-values : (m : Map V) → length (values m) ≡ length m
  length-values [] = refl
  length-values ((k, v) ∷ m) = omega (arith, length-values m)

  -- A map with no key below `b` that has every key from `b` up to `n` has `n - b` of them.
  pub full_of_lookup :
      (b n : ℕ) (m : Map V)
      → Ascends b m
      → Below n m
      → b ≤ n
      → ((k : ℕ) → b ≤ k → k < n → (v : V) × (lookup k m ≡ some v))
      → b + length m ≡ n
  full_of_lookup b n [] a l h all = elim (dec_lt b n) [
    | yes lt ↦ absurd (cc (all b (omega arith) lt).1)
    | no ge ↦ omega arith
  ]
  full_of_lookup b n ((k, v) ∷ m) a l h all =
      let first = (all b (omega arith) (omega arith)).1 in
      let same : b ≡ k = ground (arith, first, lookup_below b (suc k) m a.1) in
      let rest =
        full_of_lookup (suc k) n m a.1 l.1 l.0
          (λ j p q. let (w, e) = all j (omega arith) q in (w, ground (arith, e))) in
      omega arith

  pub length-insert_new :
      (k : ℕ) (v : V) (m : Map V) → lookup k m ≡ none → length (insert k v m) ≡ suc (length m)
  length-insert_new k v [] h = refl
  length-insert_new k v ((j, w) ∷ m) h = ground (arith, length-insert_new k v m)

  pub Below-weaken : (n b : ℕ) (m : Map V) → n ≤ b → Below n m → Below b m
  Below-weaken n b [] h l = tt
  Below-weaken n b ((k, v) ∷ m) h l = (omega (arith, l.0), Below-weaken n b m h l.1)

  pub lookup_above : (n k : ℕ) (m : Map V) → n ≤ k → Below n m → lookup k m ≡ none
  lookup_above n k [] h l = refl
  lookup_above n k ((j, v) ∷ m) h l = ground (arith, l.0, lookup_above n k m h l.1)

  -- `n` keys, none of which is `k`, with all other keys below `n + 1`: they are all there.
  pub lookup_of_full_but :
      (n k j : ℕ) (v : V) (m : Map V)
      → Ascends 0 m
      → Below n m
      → k < n
      → lookup k m ≡ none
      → suc (length m) ≡ n
      → j < n
      → j ≢ k
      → (w : V) × (lookup j m ≡ some w)
  lookup_of_full_but n k j v m a l h absent full q other =
      let (w, e) =
        lookup_of_full 0 n j (insert k v m) (insert-Ascends 0 k v m (omega arith) a)
          (insert-Below n k v m h l) (omega (arith, length-insert_new k v m absent, full))
          (omega arith) q in
      (w, ground (arith, e, other, lookup-insert j k v m))

  -- So at most `n - 1` keys below `n` avoid `k`.
  pub length-lt_of_absent :
      (n k : ℕ) (v : V) (m : Map V)
      → Ascends 0 m
      → Below n m
      → k < n
      → lookup k m ≡ none
      → length m < n
  length-lt_of_absent n k v m a l h absent = omega (
    arith,
    length-insert_new k v m absent,
    length-le_of_Below 0 n (insert k v m) (omega arith) (insert-Ascends 0 k v m (omega arith) a)
        (insert-Below n k v m h l),
  )
