-- ===== src/Tracer/Traced.antt =====
-- What a tracer has checked when it names a quorum.
use simulation_taps_tt.Base.{
  ℕ, ◌≤◌, ◌≡◌, subst, true, some, List, Bytes, ◌↔◌, length, get_elem?, Any, not, ltb, inl, inr,
  Option-cases, arith,
}
use simulation_taps_tt.Base.Outcome.{ok, ok_or, guard, >>=-ok_then, ok_or-eq-ok, guard-eq-ok}
use simulation_taps_tt.Dkg.{Dkg, TracerError}
use simulation_taps_tt.Tracer.State.{Tracer}
use simulation_taps_tt.Tracer.Tracing.{
  StatementOf, statement, input_of, valid_partials, decode_bits, positions, combine_and_trace,
}
use simulation_taps_tt.Tracer.Bits.{
  IsAscending, Decodes, decode_bits-Decodes, positions-IsAscending, positions_from_zero, quorum_of,
  decode_bits_of,
}
use simulation_taps_tt.Tracer.Sifted.{Sifted, valid_partials-Sifted, valid_partials_of}

module _ (x : Dkg) where
  -- The statement about a signature, with what a tracer has on file.
  abbrev pub statement_of :
      x.PK → x.Cipher → Bytes → List x.PublicKey → List x.PublicKey → x.Sigma → StatementOf x
  statement_of pk t_cipher m v0 v1 sigma = record {
    pk = pk;
    t_cipher = t_cipher;
    r_point = x.sigma_r sigma;
    m = m;
    ct = x.sigma_ct sigma;
    v0 = v0;
    v = v1;
  }

  statement_known :
      (s : Tracer x) (sigma : x.Sigma) (st : StatementOf x) (pk : x.PK) (v0 v1 : List x.PublicKey)
      → s.pk ≡ some pk
      → s.v0 ≡ some v0
      → s.v_vec ≡ some v1
      → statement x {E = TracerError} s sigma ≡ ok st
      → (t_cipher : x.Cipher) × (m : Bytes) × (s.t_cipher ≡ some t_cipher)
        × (s.message ≡ some m)
        × (st ≡ statement_of pk t_cipher m v0 v1 sigma)
  unfolding statement
  statement_known s sigma st pk v0 v1 known_pk known_v0 known_v1 e =
      elim (Option-cases s.t_cipher) [
        | inl unset ↦ absurd (ground (arith, known_pk, unset, e))
        | inr (t_cipher, et) ↦ elim (Option-cases s.message) [
          | inl unset ↦ absurd (ground (arith, known_pk, et, unset, e))
          | inr (m, em) ↦
              (t_cipher, m, et, em, ground (arith, known_pk, et, em, known_v0, known_v1, e))
        ]
      ]

  -- What stands behind a traced quorum.
  pub record IsTrace (s : Tracer x) (partials : List x.PartialDecryption) (quorum : List ℕ)
      : Type 0 where
    pub sigma : x.Sigma
    pub v0 : List x.PublicKey
    pub v1 : List x.PublicKey
    pub share : x.TracerKeyShare
    pub te : ℕ
    pub t : ℕ
    pub pk : x.PK
    pub t_cipher : x.Cipher
    pub m : Bytes
    pub valid : List x.PartialDecryption
    pub g_z_prime : x.Gt
    pub g_bits : List x.Gt
    pub bits : List ℕ
    pub known_sigma : s.sigma ≡ some sigma
    pub known_share : s.tracer_key_share ≡ some share
    pub known_te : s.te ≡ some te
    pub known_t : s.t ≡ some t
    pub known_pk : s.pk ≡ some pk
    pub known_t_cipher : s.t_cipher ≡ some t_cipher
    pub known_m : s.message ≡ some m
    pub known_v0 : s.v0 ≡ some v0
    pub known_v1 : s.v_vec ≡ some v1
    pub sifted : Sifted x s share (input_of x sigma v0 v1) partials valid
    pub combined :
        x.combine_partial_decryptions (input_of x sigma v0 v1) valid te ≡ ok (g_z_prime, g_bits)
    pub decoded : Decodes x g_bits bits
    pub schnorr :
        x.gt_eq g_z_prime (
          x.from_public_key (
            x.schnorr_signature
              (x.sigma_r sigma)
              (x.quorum_set pk bits)
              (x.statement_c (statement_of pk t_cipher m v0 v1 sigma))))
        ≡ true
    pub ascending : IsAscending quorum
    pub signers : (j : ℕ) → Any (λ k. k ≡ j) quorum ↔ (get_elem? bits j ≡ some 1)
    pub enough : t ≤ length quorum

  pub combine_and_trace-IsTrace :
      (s : Tracer x) (partials : List x.PartialDecryption) (quorum : List ℕ)
      → combine_and_trace x s partials ≡ ok quorum
      → IsTrace s partials quorum
  unfolding combine_and_trace
  combine_and_trace-IsTrace s partials quorum e = >>=-ok_then (ok_or _ s.sigma) _ e λ sigma f0 e0.
      >>=-ok_then (ok_or _ s.v0) _ e0 λ v0 f1 e1. >>=-ok_then (ok_or _ s.v_vec) _ e1 λ v1 f2 e2.
        >>=-ok_then (ok_or _ s.tracer_key_share) _ e2 λ share f3 e3.
          >>=-ok_then (ok_or _ s.te) _ e3 λ te f4 e4.
            >>=-ok_then (valid_partials x s share _ partials) _ e4 λ valid f5 e5.
              >>=-ok_then (x.combine_partial_decryptions (input_of x sigma v0 v1) valid te) _ e5
                λ g_pair f6 e6. >>=-ok_then (decode_bits x 0 g_pair.1) _ e6 λ bits f7 e7.
                  >>=-ok_then (ok_or _ s.pk) _ e7 λ pk f8 e8.
                    >>=-ok_then (statement x s sigma) _ e8 λ st f9 e9.
                      let (t_cipher, m, known_t_cipher, known_m, about) =
                        statement_known s sigma st pk v0 v1 (ok_or-eq-ok _ _ f8)
                          (ok_or-eq-ok _ _ f1) (ok_or-eq-ok _ _ f2) f9 in
                      >>=-ok_then (guard _ _) _ e9 λ u f10 e10.
                        >>=-ok_then (ok_or _ s.t) _ e10 λ t f11 e11.
                          >>=-ok_then (guard (not (ltb (length (positions x 0 bits)) t)) _) _ e11
                            λ u' f12 e12. record {
                              sigma = sigma;
                              v0 = v0;
                              v1 = v1;
                              share = share;
                              te = te;
                              t = t;
                              pk = pk;
                              t_cipher = t_cipher;
                              m = m;
                              valid = valid;
                              g_z_prime = g_pair.0;
                              g_bits = g_pair.1;
                              bits = bits;
                              known_sigma = ok_or-eq-ok _ _ f0;
                              known_share = ok_or-eq-ok _ _ f3;
                              known_te = ok_or-eq-ok _ _ f4;
                              known_t = ok_or-eq-ok _ _ f11;
                              known_pk = ok_or-eq-ok _ _ f8;
                              known_v0 = ok_or-eq-ok _ _ f1;
                              known_v1 = ok_or-eq-ok _ _ f2;
                              known_t_cipher = known_t_cipher;
                              known_m = known_m;
                              sifted = valid_partials-Sifted x s share _ partials valid f5;
                              combined = f6;
                              decoded = decode_bits-Decodes x g_pair.1 bits f7;
                              schnorr =
                                  subst
                                    (λ q.
                                      x.gt_eq g_pair.0 (
                                        x.from_public_key (
                                          x.schnorr_signature (x.sigma_r sigma)
                                            (x.quorum_set pk bits) (x.statement_c q)))
                                      ≡ true)
                                    about (guard-eq-ok _ _ f10);
                              ascending =
                                  subst IsAscending (ground (arith, e12))
                                    (positions-IsAscending x 0 bits);
                              signers = λ j.
                                  subst (λ q. Any (λ k. k ≡ j) q ↔ (get_elem? bits j ≡ some 1))
                                    (ground (arith, e12)) (positions_from_zero x j bits);
                              enough = ground (arith, guard-eq-ok _ _ f12, e12);
                            }

  trace_of :
      (s : Tracer x) (partials : List x.PartialDecryption) (quorum : List ℕ)
      → IsTrace s partials quorum
      → combine_and_trace x s partials ≡ ok quorum
  unfolding combine_and_trace statement
  trace_of s partials quorum q =
      let known_sigma = q.known_sigma in
      let known_v0 = q.known_v0 in
      let known_v1 = q.known_v1 in
      let known_share = q.known_share in
      let known_te = q.known_te in
      let known_pk = q.known_pk in
      let known_t_cipher = q.known_t_cipher in
      let known_m = q.known_m in
      let known_t = q.known_t in
      let schnorr = q.schnorr in
      let combined = q.combined in
      let e = valid_partials_of x s q.share (input_of x q.sigma q.v0 q.v1) q.sifted in
      let d = decode_bits_of x q.g_bits q.bits q.decoded in
      let enough = q.enough in
      let named = quorum_of x quorum q.bits q.ascending q.signers in
      ground (
        arith, known_sigma, known_v0, known_v1, known_share, known_te, e, combined, d, known_pk,
        known_t_cipher, known_m, schnorr, known_t, named,
      )

  -- The trace names a quorum exactly if the tracer has its whole configuration; there is a key for
  -- the index of every partial decryption given; the partial decryptions that verify under the key
  -- that the key generation gives for their index, and no others, combine to a `g^z` and to values
  -- that all decode, each with its own number, to bits; that `g^z` is the Schnorr signature of the
  -- quorum that these bits name, for the challenge of the statement that the tracer has on file;
  -- and the quorum that is named is the ascending list of the numbers whose bit is 1, and has at
  -- least `t` members.
  pub combine_and_trace_iff :
      (s : Tracer x) (partials : List x.PartialDecryption) (quorum : List ℕ)
      → (combine_and_trace x s partials ≡ ok quorum) ↔ IsTrace s partials quorum
  combine_and_trace_iff s partials quorum =
      (combine_and_trace-IsTrace s partials quorum, trace_of s partials quorum)
