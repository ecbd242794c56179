-- ===== src/Tracer/Sifted.antt =====
-- Which partial decryptions a tracer combines.
use simulation_taps_tt.Base.{
  ◌≡◌, refl, true, false, List, [], ◌∷◌, inl, inr, Bool-cases, subst, arith,
}
use simulation_taps_tt.Base.Outcome.{ok, >>=-eq-ok}
use simulation_taps_tt.Dkg.{Dkg}
use simulation_taps_tt.Tracer.State.{Tracer}
use simulation_taps_tt.Tracer.Tracing.{valid_partials}

module _ (x : Dkg) (s : Tracer x) (share : x.TracerKeyShare) (input : x.DecryptionInput) where
  -- The key that the key generation gives for the index of a partial decryption.
  abbrev pub HasKey : x.PartialDecryption → x.VerificationKey → Type 0
  HasKey p vk = x.verification_key (x.share_qual share) s.dkg_broadcasts (x.tracer_index p) ≡ ok vk

  -- Of the first list, the second has those that verify under their key, in order, and no other.
  pub data Sifted : List x.PartialDecryption → List x.PartialDecryption → Type 0 where
    nothing : Sifted [] []
    kept :
        {p : x.PartialDecryption} {vk : x.VerificationKey} {ps valid : List x.PartialDecryption}
        → HasKey p vk
        → x.verify_partial_decryption p input vk ≡ true
        → Sifted ps valid
        → Sifted (p ∷ ps) (p ∷ valid)
    dropped :
        {p : x.PartialDecryption} {vk : x.VerificationKey} {ps valid : List x.PartialDecryption}
        → HasKey p vk
        → x.verify_partial_decryption p input vk ≡ false
        → Sifted ps valid
        → Sifted (p ∷ ps) valid

  pub valid_partials-Sifted :
      (ps valid : List x.PartialDecryption)
      → valid_partials x s share input ps ≡ ok valid
      → Sifted ps valid
  unfolding valid_partials
  valid_partials-Sifted [] [] e = nothing
  valid_partials-Sifted [] (v ∷ valid) e = cc
  valid_partials-Sifted (p ∷ ps) valid e =
      let (vk, ek, e1) =
        >>=-eq-ok (x.verification_key (x.share_qual share) s.dkg_broadcasts (x.tracer_index p)) _
          e in
      let (rest, er, e2) = >>=-eq-ok (valid_partials x s share input ps) _ e1 in
      let h = valid_partials-Sifted ps rest er in
      elim (Bool-cases (x.verify_partial_decryption p input vk)) [
        | inl good ↦
            let e3 : p ∷ rest ≡ valid = ground (arith, e2, good) in
            subst (Sifted (p ∷ ps)) e3 (kept ek good h)
        | inr bad ↦
            let e3 : rest ≡ valid = ground (arith, e2, bad) in
            subst (Sifted (p ∷ ps)) e3 (dropped ek bad h)
      ]

  pub valid_partials_of :
      {ps valid : List x.PartialDecryption}
      → Sifted ps valid
      → valid_partials x s share input ps ≡ ok valid
  unfolding valid_partials
  valid_partials_of nothing = refl
  valid_partials_of (kept has good h) = rw (has, valid_partials_of h, good) refl
  valid_partials_of (dropped has bad h) = rw (has, valid_partials_of h, bad) refl
