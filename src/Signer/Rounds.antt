-- ===== src/Signer/Rounds.antt =====
-- The two rounds between a signer and the Combiner, and the configuration by the Authority.
use simulation_taps_tt.Base.{
  ℕ, ◌+◌, ◌<◌, ◌≤◌, ◌≡◌, true, some, List, Bytes, length, get_elem?, inl, inr, Bool-cases,
  Option-cases, arith,
}
use simulation_taps_tt.Base.Map.{insert}
use simulation_taps_tt.Base.Outcome.{ok, guard, >>=-eq-ok, guard-eq-ok, ok_or-eq-ok}
use simulation_taps_tt.Crypto.{
  Suite, IsLawful, Codec, IsFaithful, SecurePackage, BroadcastPackage, ActorKeys, Error,
  new_identity, new_transport, verify_broadcast_data, sign_broadcast, open_broadcast,
}
use simulation_taps_tt.Crypto.RoundTrip.{open_secure-secure_package, open_broadcast-sign_broadcast}
use simulation_taps_tt.Taps.{Taps}
use simulation_taps_tt.Payloads.{SignerPackage, CommitmentPackage, SigmaPackage}
use simulation_taps_tt.Combiner.{
  Combiner, handle_commitment, handle_sigma, keys_in_roster, keys_of_signer, load_commitment,
  load_sigma,
}
use simulation_taps_tt.Signer.Defs.{
  Signer, secure_package, combiner_keys_of, set_commitment, set_sigma,
}

open_broadcast-eq-ok :
    {c : Suite} {A : Type 0} (codec : Codec A) (pk : c.PublicKey) (p : BroadcastPackage c) (now : ℕ)
    {a : A}
    → open_broadcast c codec pk p now ≡ ok a
    → (verify_broadcast_data c pk p now ≡ true) × (codec.deserialize p.text ≡ some a)
unfolding open_broadcast
open_broadcast-eq-ok {c} codec pk p now h =
    let (u, e, e') = >>=-eq-ok (guard (verify_broadcast_data c pk p now) _) _ h in
    (guard-eq-ok _ _ e, ok_or-eq-ok _ _ e')

module _ (x : Taps) where
  -- A signer that answers a broadcast has verified it, fresh, under the Combiner's identity key; the
  -- answer seals the share for its commit, its key and the broadcast's challenge; and its state,
  -- with the commit, is as before.
  pub set_sigma_verified :
      (challenge_codec : Codec (SignerPackage x)) (sigma_codec : Codec (SigmaPackage x))
      (p : BroadcastPackage x.suite) (random : Bytes) (now : ℕ) (s s' : Signer x)
      (q : SecurePackage x.suite)
      → set_sigma x challenge_codec sigma_codec p random now s ≡ (ok q, s')
      → (s' ≡ s)
        × ((keys : ActorKeys x.suite) × (commit : x.Commit) × (kp : x.KeyPair)
            × (challenge : SignerPackage x) × (s.combiner_keys ≡ some keys)
            × (verify_broadcast_data x.suite keys.identity_pk p now ≡ true)
            × (challenge_codec.deserialize p.text ≡ some challenge)
            × (s.current_commitment ≡ some commit)
            × (s.taps_kp ≡ some kp)
            × (secure_package x {E = Error} sigma_codec s
                  (record { z = x.sign commit kp challenge.c })
                  keys.transport_pk
                  random
                  now
                ≡ ok q))
  unfolding set_sigma combiner_keys_of
  set_sigma_verified challenge_codec sigma_codec p random now s s' q h =
      elim (Option-cases s.combiner_keys) [
        | inl e1 ↦ absurd (ground (arith, h, e1))
        | inr (keys, e1) ↦
            elim (Bool-cases (verify_broadcast_data x.suite keys.identity_pk p now)) [
              | inr e2 ↦ absurd (ground (arith, h, e1, e2))
              | inl e2 ↦ elim (Option-cases (challenge_codec.deserialize p.text)) [
                | inl e3 ↦ absurd (ground (arith, h, e1, e2, e3))
                | inr (challenge, e3) ↦ elim (Option-cases s.current_commitment) [
                  | inl e4 ↦ absurd (ground (arith, h, e1, e2, e3, e4))
                  | inr (commit, e4) ↦ elim (Option-cases s.taps_kp) [
                    | inl e5 ↦ absurd (ground (arith, h, e1, e2, e3, e4, e5))
                    | inr (kp, e5) ↦ (
                      ground (arith, h, e1, e2, e3, e4, e5),
                      (
                        keys,
                        commit,
                        kp,
                        challenge,
                        e1,
                        e2,
                        e3,
                        e4,
                        e5,
                        ground (arith, h, e1, e2, e3, e4, e5),
                      ),
                    )
                  ]
                ]
              ]
            ]
      ]

module _ (x : Taps) (id_sk tr_sk combiner_id combiner_tr : x.SecretKey) where
  -- The signer has the two secret keys, and the Combiner's public keys.
  pub record IsConfigured (s : Signer x) : Type 0 where
    pub identity : s.identity_kp ≡ new_identity x.suite id_sk
    pub transport : s.transport_kp ≡ new_transport x.suite tr_sk
    pub combiner :
        s.combiner_keys
        ≡ some (record {
          identity_pk = x.public_key combiner_id;
          transport_pk = x.public_key combiner_tr;
        })

  -- The Combiner has its two secret keys, and the signer's public keys under the signer's id, which
  -- is below the participant count.
  pub record Expects (s : Signer x) (k : Combiner x) : Type 0 where
    pub identity : k.identity_kp ≡ new_identity x.suite combiner_id
    pub transport : k.transport_kp ≡ new_transport x.suite combiner_tr
    pub roster : List (ActorKeys x.suite)
    pub known_roster : k.signer_keys ≡ some roster
    pub entry :
        get_elem? roster s.id
        ≡ some (record { identity_pk = x.public_key id_sk; transport_pk = x.public_key tr_sk })
    pub count : ℕ
    pub known_count : k.n ≡ some count
    pub in_range : s.id < count

  module _ (L : IsLawful x.suite) (s : Signer x) (configured : IsConfigured s) (k : Combiner x)
      (expected : Expects s k) (plain random : Bytes) (now later : ℕ)
      (short : length plain ≤ x.max_plaintext) (twelve : length random ≡ 12) (le : now ≤ later)
      (within : later ≤ now + 60) where
    -- A configured signer commits: it keeps the commit, and the Combiner that expects it and loads
    -- its package within 60 seconds has the commitment of that commit on file under the signer's
    -- id.
    pub commitment_delivered :
        (codec : Codec (CommitmentPackage x)) (commit : x.Commit)
        → IsFaithful codec
        → codec.serialize (record { commitment = x.commitment_set commit }) ≡ some plain
        → (p : SecurePackage x.suite) × (set_commitment x codec commit random now s
            ≡ (ok p, record s { current_commitment = some commit }))
          × (load_commitment x codec s.id p later k ≡ (
            ok tt,
            record k { commitments = insert s.id (x.commitment_set commit) k.commitments },
          ))
    unfolding set_commitment combiner_keys_of secure_package load_commitment handle_commitment
        keys_of_signer keys_in_roster
    commitment_delivered codec commit faithful es =
        let (p, sealed, opened) =
          open_secure-secure_package x.suite L codec faithful {E = Error} id_sk tr_sk combiner_tr
            (record { commitment = x.commitment_set commit }) plain random now later es short twelve
            le within in
        (
          p,
          ground (arith, sealed, configured.identity, configured.transport, configured.combiner),
          ground (
            arith, opened, expected.transport, expected.known_roster, expected.entry,
            expected.known_count, expected.in_range,
          ),
        )

    -- A configured signer that has committed and has its key answers the Combiner's broadcast of a
    -- challenge within 60 seconds: with its share for that commit, key and challenge, which the
    -- Combiner that expects it has on file, under the signer's id, when it loads the answer within
    -- 60 seconds.
    pub sigma_delivered :
        (challenge_codec : Codec (SignerPackage x)) (sigma_codec : Codec (SigmaPackage x))
        (challenge : SignerPackage x) (commit : x.Commit) (kp : x.KeyPair) (text nonce : Bytes)
        (sent : ℕ)
        → IsFaithful challenge_codec
        → IsFaithful sigma_codec
        → challenge_codec.serialize challenge ≡ some text
        → s.current_commitment ≡ some commit
        → s.taps_kp ≡ some kp
        → sigma_codec.serialize (record { z = x.sign commit kp challenge.c }) ≡ some plain
        → sent ≤ now
        → now ≤ sent + 60
        → (p : BroadcastPackage x.suite) × (q : SecurePackage x.suite) × (sign_broadcast x.suite
              {E = Error} challenge_codec k.identity_kp challenge nonce sent
            ≡ ok p)
          × (set_sigma x challenge_codec sigma_codec p random now s ≡ (ok q, s))
          × (load_sigma x sigma_codec s.id q later k
              ≡ (ok tt, record k { sigmas = insert s.id (x.sign commit kp challenge.c) k.sigmas }))
    unfolding set_sigma combiner_keys_of secure_package load_sigma handle_sigma keys_of_signer
        keys_in_roster
    sigma_delivered challenge_codec sigma_codec challenge commit kp text nonce sent faithful
          faithful' ec committed keyed es le' within' =
        let (q, sealed, opened) =
          open_secure-secure_package x.suite L sigma_codec faithful' {E = Error} id_sk tr_sk
            combiner_tr (record { z = x.sign commit kp challenge.c }) plain random now later es
            short twelve le within in
        let (p, signed, read) =
          open_broadcast-sign_broadcast x.suite L challenge_codec faithful {E = Error} combiner_id
            challenge text nonce sent now ec le' within' in
        let parts = open_broadcast-eq-ok challenge_codec (x.public_key combiner_id) p now read in
        (
          p,
          q,
          rw expected.identity signed,
          ground (
            arith, parts.0, parts.1, sealed, configured.identity, configured.transport,
            configured.combiner, committed, keyed,
          ),
          ground (
            arith, opened, expected.transport, expected.known_roster, expected.entry,
            expected.known_count, expected.in_range,
          ),
        )
