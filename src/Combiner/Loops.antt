-- ===== src/Combiner/Loops.antt =====
-- What a loop over the streams keeps, however it ends.
use simulation_taps_tt.Base.{
  ℕ, suc, ◌+◌, ◌≡◌, refl, Option, none, some, List, [], ◌∷◌, get_elem?, subst, arith,
}
use simulation_taps_tt.Base.Outcome.{Outcome, ok, err, panic}
use simulation_taps_tt.Base.Action.{Action}
use simulation_taps_tt.Base.Action.Keeps.{Keeps-bind}
use simulation_taps_tt.Crypto.{Error}
use simulation_taps_tt.Taps.{Taps}
use simulation_taps_tt.Combiner.State.{Combiner}
use simulation_taps_tt.Combiner.Node.{NodeError, try, for_streams}

pub try-Keeps :
    {S A : Type 0} (I : S → Type 0) (m : Action S Error A) (s : S) → I (m s).1 → I (try m s).1
try-Keeps {S} {A} I m s h = kept (m s).0 (m s).1 h
  where
    kept : (r : Outcome Error A) (s' : S) → I s' → I (try (λ (_ : S). (r, s')) s).1
    kept (ok a) s' i = i
    kept (err e) s' i = i
    kept (panic p) s' i = i

module _ (x : Taps) (I : Combiner x → Type 0)
    (body : ℕ → ℕ → Action (Combiner x) NodeError (Unit {0})) where
  -- The number of a stream in the list, counted from `id` on, is the id that the body gets.
  pub for_streams-Keeps :
      (id : ℕ) (streams : List (Option ℕ)) (s : Combiner x)
      → ((k socket : ℕ) (s' : Combiner x)
          → get_elem? streams k ≡ some (some socket)
          → I s'
          → I (body (id + k) socket s').1)
      → I s
      → I (for_streams x body id streams s).1
  unfolding for_streams
  for_streams-Keeps id [] s step i = i
  for_streams-Keeps id (none ∷ later) s step i =
      for_streams-Keeps (suc id) later s
        (λ k socket s' e i'.
          subst (λ m. I (body m socket s').1) (omega arith) (step (suc k) socket s' e i'))
        i
  for_streams-Keeps id (some socket ∷ later) s step i =
      Keeps-bind I I (body id socket) (λ _. for_streams x body (suc id) later) s (λ _ i'. i')
        (subst (λ m. I (body m socket s).1) (omega arith) (step 0 socket s refl i))
        λ _ s1 i1.
          for_streams-Keeps (suc id) later s1
            (λ k socket' s' e i'.
              subst (λ m. I (body m socket' s').1) (omega arith) (step (suc k) socket' s' e i'))
            i1

  -- All the streams.
  pub all_streams-Keeps :
      (streams : List (Option ℕ)) (s : Combiner x)
      → ((id socket : ℕ) (s' : Combiner x)
          → get_elem? streams id ≡ some (some socket)
          → I s'
          → I (body id socket s').1)
      → I s
      → I (for_streams x body 0 streams s).1
  all_streams-Keeps streams s step =
      for_streams-Keeps 0 streams s (λ k socket s' e i.
        subst (λ m. I (body m socket s').1) (omega arith) (step k socket s' e i))
