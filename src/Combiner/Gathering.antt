-- ===== src/Combiner/Gathering.antt =====
-- The loops over the signers: they succeed when every signer is there, in the order of the ids and
-- whatever the order of arrival.
use simulation_taps_tt.Base.{
  ℕ, zero, suc, ◌+◌, ◌<◌, ◌≡◌, ◌≢◌, refl, subst, none, some, List, [], ◌∷◌, length, Option-cases,
  inl, inr, arith,
}
use simulation_taps_tt.Base.Map.{Map, lookup}
use simulation_taps_tt.Base.Map.Order.{insert_comm}
use simulation_taps_tt.Base.Outcome.{ok, err}
use simulation_taps_tt.Crypto.{invalid_public_key}
use simulation_taps_tt.Taps.{Taps}
use simulation_taps_tt.Combiner.State.{Combiner}
use simulation_taps_tt.Combiner.Intake.{handle_commitment}
use simulation_taps_tt.Combiner.Signing.{gather, compute_aggregated_nonce, compute_aggregated_sign}

module _ {A : Type 0} (m : Map A) where
  -- From `i` on, the map has the entries of the list.
  abbrev pub Lists : ℕ → List A → Type 0
  Lists i [] = Unit
  Lists i (a ∷ as') = (lookup i m ≡ some a) × Lists (suc i) as'

  pub gather_all : (i : ℕ) (as' : List A) → Lists i as' → gather m i (length as') ≡ ok as'
  unfolding gather
  gather_all i [] h = refl
  gather_all i (a ∷ as') h = ground (arith, h.0, gather_all (suc i) as' h.1)

  pub gather_missing :
      (i left k : ℕ) → k < left → lookup (i + k) m ≡ none → gather m i left ≡ err invalid_public_key
  unfolding gather
  gather_missing i zero k h absent = absurd (omega arith)
  gather_missing i (suc left) zero h absent =
      let here : lookup i m ≡ none = subst (λ j. lookup j m ≡ none) (omega arith) absent in
      ground (arith, here)
  gather_missing i (suc left) (suc k) h absent =
      let later =
        gather_missing (suc i) left k (omega arith)
          (subst (λ j. lookup j m ≡ none) (omega arith) absent) in
      elim (Option-cases (lookup i m)) [
        | inl e ↦ ground (arith, e)
        | inr (a, e) ↦ ground (arith, e, later)
      ]

module _ (x : Taps) (s : Combiner x) (q : x.Quorum) where
  -- In a configured state with a commitment on file for each of the `n` signers, the nonce that is
  -- stored is the aggregate of the commitments in the order of the signers' ids, and nothing else
  -- of the state changes.
  pub compute_aggregated_nonce_all :
      (comms : List x.Commitment) {r : x.PublicKey}
      → s.quorum ≡ some q
      → s.n ≡ some (length comms)
      → Lists s.commitments 0 comms
      → x.aggregate_commitments comms q ≡ ok r
      → compute_aggregated_nonce x s ≡ (ok tt, record s { r_point = some r })
  unfolding compute_aggregated_nonce
  compute_aggregated_nonce_all comms eq en h ea =
      ground (arith, eq, en, gather_all s.commitments 0 comms h, ea)

  -- If the commitment of some signer below `n` is missing, the call fails with `InvalidPublicKey`
  -- and the state is as it was.
  pub compute_aggregated_nonce_missing :
      (n k : ℕ)
      → s.quorum ≡ some q
      → s.n ≡ some n
      → k < n
      → lookup k s.commitments ≡ none
      → compute_aggregated_nonce x s ≡ (err invalid_public_key, s)
  unfolding compute_aggregated_nonce
  compute_aggregated_nonce_missing n k eq en h absent = ground (
    arith,
    eq,
    en,
    gather_missing s.commitments 0 n k h
        (subst (λ j. lookup j s.commitments ≡ none) (omega arith) absent),
  )

  -- The same for the signature shares.
  pub compute_aggregated_sign_all :
      (signs : List x.Sign)
      → s.quorum ≡ some q
      → s.n ≡ some (length signs)
      → Lists s.sigmas 0 signs
      → compute_aggregated_sign x s ≡ (ok tt, record s { w_z = some (x.aggregate_signs signs q) })
  unfolding compute_aggregated_sign
  compute_aggregated_sign_all signs eq en h = ground (arith, eq, en, gather_all s.sigmas 0 signs h)

module _ (x : Taps) where
  -- The commitments of two signers may arrive in either order: the states are the same.
  pub handle_commitment_comm :
      (i j : ℕ) (a b : x.Commitment) (s : Combiner x)
      → i ≢ j
      → handle_commitment x i a (handle_commitment x j b s)
        ≡ handle_commitment x j b (handle_commitment x i a s)
  unfolding handle_commitment
  handle_commitment_comm i j a b s h = ground (arith, insert_comm i j a b s.commitments h)
