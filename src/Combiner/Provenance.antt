-- ===== src/Combiner/Provenance.antt =====
-- What is on file in the Combiner, and where it comes from.
use native.Mathlib.Decide.{ℕ_discrete}
use simulation_taps_tt.Base.{
  ℕ, ◌≡◌, sym, subst, ◌∙◌, ◌⊎◌, inl, inr, Option, some, List, get_elem?, arith,
}
use simulation_taps_tt.Base.Map.{Map, lookup, insert, lookup-insert}
use simulation_taps_tt.Base.Outcome.{ok}
use simulation_taps_tt.Crypto.{Codec, SecurePackage, TransportKeyPair, ActorKeys, open_secure}
use simulation_taps_tt.Network.{secure}
use simulation_taps_tt.Taps.{Taps}
use simulation_taps_tt.Combiner.State.{Combiner}
use simulation_taps_tt.Combiner.Intake.{keys_in_roster}
use simulation_taps_tt.Combiner.Node.{Arrivals}
use simulation_taps_tt.Combiner.Authenticity.{SignedBy}

-- What the packages of a round are opened with, and what they are received on.
pub record Round (x : Taps) (A : Type 0) : Type 0 where
  pub codec : Codec A
  pub now : ℕ → ℕ
  pub arrivals : Arrivals x
  pub streams : List (Option ℕ)
  pub roster : Option (List (ActorKeys x.suite))
  pub own : TransportKeyPair x.suite

module _ (x : Taps) {A : Type 0} (round : Round x A) where
  -- A package that arrived on the stream of `j`, verifies, fresh, under the identity key that the
  -- roster has for `j`, and opens to a payload.
  pub record IsFrom (j : ℕ) (payload : A) : Type 0 where
    pub socket : ℕ
    pub connected : get_elem? round.streams j ≡ some (some socket)
    pub sealed : SecurePackage x.suite
    pub arrived : round.arrivals socket ≡ some (secure sealed)
    pub keys : ActorKeys x.suite
    pub known_keys : keys_in_roster x round.roster j ≡ ok keys
    pub opened : open_secure x.suite round.codec round.own keys sealed (round.now j) ≡ ok payload
    pub signed : SignedBy x round.roster j sealed (round.now j)

  module _ {B : Type 0} (value : A → B) where
    -- The entry for every `j` is the one from before, or what such a package of `j` has.
    abbrev pub Sourced : Map B → Map B → Type 0
    Sourced before after =
        (j : ℕ)
        → (lookup j after ≡ lookup j before)
          ⊎ ((payload : A) × (lookup j after ≡ some (value payload)) × IsFrom j payload)

    pub Sourced-trans : (a b c : Map B) → Sourced a b → Sourced b c → Sourced a c
    Sourced-trans a b c h h' j = elim (h' j) [
      | inr new ↦ inr new
      | inl kept ↦ elim (h j) [
        | inl kept' ↦ inl (kept ∙ kept')
        | inr (payload, e, from) ↦ inr (payload, kept ∙ e, from)
      ]
    ]

    pub insert-Sourced :
        (id : ℕ) (payload : A) (m : Map B)
        → IsFrom id payload
        → Sourced m (insert id (value payload) m)
    insert-Sourced id payload m from j = elim (ℕ_discrete j id) [
      | yes same ↦ inr (
        payload,
        ground (arith, same, lookup-insert j id (value payload) m),
        subst (λ i. IsFrom i payload) (sym same) from,
      )
      | no other ↦ inl (ground (arith, other, lookup-insert j id (value payload) m))
    ]

-- What is filed under ids, and what it is checked with.
pub record Filed (x : Taps) : Type 0 where
  pub own : TransportKeyPair x.suite
  pub signer_keys : Option (List (ActorKeys x.suite))
  pub tracer_keys : Option (List (ActorKeys x.suite))
  pub tracer_pks : Map x.Gt
  pub commitments : Map x.Commitment
  pub sigmas : Map x.Sign

abbrev pub filed : (x : Taps) → Combiner x → Filed x
filed x s = record {
  own = s.transport_kp;
  signer_keys = s.signer_keys;
  tracer_keys = s.tracer_keys;
  tracer_pks = s.tracer_pks;
  commitments = s.commitments;
  sigmas = s.sigmas;
}
