-- ===== src/Combiner/KeyProduct.antt =====
-- The tracers' public keys and their product.
use mathlib.Core.List.{foldl, Permᴰ}
use native.Mathlib.Decide.{ℕ_discrete}
use simulation_taps_tt.Base.{
  ℕ, zero, suc, ◌≤◌, ◌<◌, ◌≡◌, ◌≢◌, ◌↔◌, refl, sym, ap, subst, ◌∙◌, true, ◌⊎◌, inl, inr, some, List,
  [], ◌∷◌, length, get_elem?, arith,
}
use simulation_taps_tt.Base.Map.{
  Map, lookup, insert, values, Ascends, lookup-insert, insert-Ascends,
}
use simulation_taps_tt.Base.Map.Order.{
  Below, insert-Below, lookup_of_full, full_of_lookup, values-eq,
}
use simulation_taps_tt.Base.Outcome.{ok, Outcome-cases}
use simulation_taps_tt.Crypto.{Codec, SecurePackage, ActorKeys, open_secure}
use simulation_taps_tt.Network.{AuthorityAnchor}
use simulation_taps_tt.Taps.{Taps, IsAbelian}
use simulation_taps_tt.Authority.{CombinerPackage}
use simulation_taps_tt.Payloads.{TracerPublicKeyPackage}
use simulation_taps_tt.Combiner.State.{Combiner}
use simulation_taps_tt.Combiner.Intake.{
  load_from_authority, keys_in_roster, keys_of_tracer, load_tracer_public_key,
}
use simulation_taps_tt.Combiner.Authenticity.{SignedBy, open_from_roster}
use simulation_taps_tt.Combiner.GroupKey.{
  not_empty, tracer_public_keys_complete, product, finalize_group_key,
}

module _ (x : Taps) (A : IsAbelian x) where
  -- The product does not depend on the order of its factors.
  foldl-Permᴰ :
      {ps qs : List x.Gt} → Permᴰ ps qs → (acc : x.Gt) → foldl x.add acc ps ≡ foldl x.add acc qs
  foldl-Permᴰ Permᴰ.nil acc = refl
  foldl-Permᴰ (Permᴰ.cons e p) acc = rw e (foldl-Permᴰ p _)
  foldl-Permᴰ (Permᴰ.swap {a} {b} {l} e f) acc =
      rw (← e, ← f)
        (ap (λ t. foldl x.add t l)
          (A.add_assoc acc a b ∙ ap (x.add acc) (A.add_comm a b) ∙ sym (A.add_assoc acc b a)))
  foldl-Permᴰ (Permᴰ.trans p q) acc = foldl-Permᴰ p acc ∙ foldl-Permᴰ q acc

  pub product-Permᴰ : (ps qs : List x.Gt) → Permᴰ ps qs → product x ps ≡ product x qs
  unfolding product
  product-Permᴰ ps qs p = foldl-Permᴰ p x.identity

not_empty_of_length : (x : Taps) (m : Map x.Gt) → 1 ≤ length m → not_empty x m ≡ ok tt
not_empty_of_length x [] h = absurd (omega arith)
not_empty_of_length x (_ ∷ _) h = refl

module _ (x : Taps) where
  -- The tracers' keys on file are those of tracers of the roster, one for each at most.
  pub record IsConfigured (ks : List (ActorKeys x.suite)) (s : Combiner x) : Type 0 where
    pub roster : s.tracer_keys ≡ some ks
    pub count : s.n3 ≡ some (length ks)
    pub ascends : Ascends 0 s.tracer_pks
    pub below : Below (length ks) s.tracer_pks

  -- Bootstrapping succeeds only with a roster of `n_3` entries.
  load_from_authority-IsConfigured :
      (codec : Codec (CombinerPackage x)) (p : SecurePackage x.suite)
      (anchor : AuthorityAnchor x.suite) (now : ℕ) (s : Combiner x)
      → s.tracer_pks ≡ []
      → let (r, s') = load_from_authority x codec p anchor now s in
        r ≡ ok tt → (ks : List (ActorKeys x.suite)) × IsConfigured ks s'
  unfolding load_from_authority
  load_from_authority-IsConfigured codec p anchor now s fresh h =
      elim (Outcome-cases (
        open_secure x.suite codec s.transport_kp
          (record { identity_pk = anchor.identity_pk; transport_pk = anchor.transport_pk }) p
          now)) [
            | inl (config, e) ↦ (
              config.tracer_keys,
              record {
                roster = ground (arith, e);
                count = ground (arith, e);
                ascends = ground (arith, e);
                below = ground (arith, e);
              },
            )
            | inr (inl (_, e)) ↦ absurd (ground (arith, e))
            | inr (inr (_, e)) ↦ absurd (ground (arith, e))
          ]

  -- A report is stored for a sender of the roster, or the state is as it was.
  load_tracer_public_key_cases :
      (codec : Codec (TracerPublicKeyPackage x)) (id : ℕ) (p : SecurePackage x.suite) (now : ℕ)
      (s : Combiner x)
      → (((load_tracer_public_key x codec id p now s).1 ≡ s)
          × ((load_tracer_public_key x codec id p now s).0 ≢ ok tt))
        ⊎ ((pk : x.Gt) × (load_tracer_public_key x codec id p now s
              ≡ (ok tt, record s { tracer_pks = insert id pk s.tracer_pks }))
            × SignedBy x s.tracer_keys id p now)
  unfolding load_tracer_public_key keys_of_tracer
  load_tracer_public_key_cases codec id p now s =
      elim (Outcome-cases (keys_in_roster x s.tracer_keys id)) [
        | inl (keys, ek) ↦
            elim (Outcome-cases (open_secure x.suite codec s.transport_kp keys p now)) [
              | inl (pkg, eo) ↦ inr (
                pkg.pk,
                ground (arith, ek, eo),
                open_from_roster x codec s s.tracer_keys id p now ek eo,
              )
              | inr (inl (_, eo)) ↦ inl (ground (arith, ek, eo))
              | inr (inr (_, eo)) ↦ inl (ground (arith, ek, eo))
            ]
        | inr (inl (_, ek)) ↦ inl (ground (arith, ek))
        | inr (inr (_, ek)) ↦ inl (ground (arith, ek))
      ]

  -- A call of `load_tracer_public_key` leaves the key on file of every tracer `j` as it was, unless
  -- it was called for `j` and the package verifies, fresh, under the identity key that the
  -- Authority's roster has for `j`. The call succeeds, or the whole state is as it was.
  pub load_tracer_public_key_authentic :
      (codec : Codec (TracerPublicKeyPackage x)) (id j : ℕ) (p : SecurePackage x.suite) (now : ℕ)
      (s : Combiner x)
      → let (r, s') = load_tracer_public_key x codec id p now s in
        ((lookup j s'.tracer_pks ≡ lookup j s.tracer_pks)
          ⊎ ((j ≡ id) × SignedBy x s.tracer_keys j p now))
        × ((r ≡ ok tt) ⊎ (s' ≡ s))
  load_tracer_public_key_authentic codec id j p now s =
      elim (load_tracer_public_key_cases codec id p now s) [
        | inl (same, failed) ↦
            (inl (ap (λ (s' : Combiner x). lookup j s'.tracer_pks) same), inr same)
        | inr (pk, e, signed) ↦ (
          elim (ℕ_discrete j id) [
            | yes same ↦ inr (same, subst (λ i. SignedBy x s.tracer_keys i p now) (sym same) signed)
            | no other ↦ inl (rw e (ground (arith, lookup-insert j id pk s.tracer_pks, other)))
          ],
          inl (rw e refl),
        )
      ]

  module _ (ks : List (ActorKeys x.suite)) (s : Combiner x) (v : IsConfigured ks s) where
    get_elem?_lt :
        {A : Type 0} (xs : List A) (i : ℕ) {a : A} → get_elem? xs i ≡ some a → i < length xs
    get_elem?_lt [] i e = cc
    get_elem?_lt (y ∷ ys) zero e = omega arith
    get_elem?_lt (y ∷ ys) (suc i) e = omega (arith, get_elem?_lt ys i e)

    -- A report is filed only under an id of the roster.
    pub load_tracer_public_key-IsConfigured :
        (codec : Codec (TracerPublicKeyPackage x)) (id : ℕ) (p : SecurePackage x.suite) (now : ℕ)
        → IsConfigured ks (load_tracer_public_key x codec id p now s).1
    load_tracer_public_key-IsConfigured codec id p now =
        elim (load_tracer_public_key_cases codec id p now s) [
          | inl (same, _) ↦ subst (IsConfigured ks) (sym same) v
          | inr (pk, e, (ks', keys, er, eg, _)) ↦
              let same : ks' ≡ ks = cc (er, v.roster) in
              let inside : id < length ks =
                get_elem?_lt ks id (subst (λ l. get_elem? l id ≡ some keys) same eg) in
              rw e (record {
                roster = v.roster;
                count = v.count;
                ascends = insert-Ascends 0 id pk s.tracer_pks (omega arith) v.ascends;
                below = insert-Below (length ks) id pk s.tracer_pks inside v.below;
              })
        ]

    -- The completeness test passes exactly when every tracer of the roster has a key on file.
    pub tracer_public_keys_complete_iff :
        (tracer_public_keys_complete x s ≡ true)
        ↔ ((k : ℕ) → k < length ks → (pk : x.Gt) × (lookup k s.tracer_pks ≡ some pk))
    unfolding tracer_public_keys_complete
    tracer_public_keys_complete_iff = (
      λ h k q.
          lookup_of_full 0 (length ks) k s.tracer_pks v.ascends v.below (ground (arith, v.count))
            (omega arith) q,
      λ all.
          let full =
            full_of_lookup 0 (length ks) s.tracer_pks v.ascends v.below (omega arith)
              (λ k _ q. all k q) in
          ground (arith, v.count, full),
    )

    -- If it passes, and the product of the keys is a point `pk_e`, the group key is that product,
    -- taken over the tracers in any order, and the registry is built from it.
    pub finalize_group_key-product :
        IsAbelian x
        → (pk_i : List x.PublicKey) (kp : x.KeyPair) (pk_e : x.PublicKey) (pks qs : List x.Gt)
        → 1 ≤ length ks
        → tracer_public_keys_complete x s ≡ true
        → s.pk_i ≡ some pk_i
        → s.taps_kp ≡ some kp
        → ((k : ℕ) → lookup k s.tracer_pks ≡ get_elem? pks k)
        → Permᴰ pks qs
        → x.to_public_key (product x qs) ≡ some pk_e
        → finalize_group_key x s ≡ (
          ok tt,
          record s {
            pk_e = some pk_e;
            pk = some (x.from_public_keys pk_i (x.keypair_public kp) pk_e);
          },
        )
    unfolding finalize_group_key tracer_public_keys_complete
    finalize_group_key-product A pk_i kp pk_e pks qs h complete ei ek on_file p point =
        let vs : values s.tracer_pks ≡ pks =
          values-eq 0 pks s.tracer_pks v.ascends
            (λ k. subst (λ j. lookup j s.tracer_pks ≡ get_elem? pks k) (omega arith) (on_file k)) in
        let same : x.to_public_key (product x (values s.tracer_pks)) ≡ some pk_e =
          rw (vs, product-Permᴰ x A pks qs p) point in
        let count : length s.tracer_pks ≡ length ks = ground (arith, v.count) in
        ground (arith, same, ei, ek, not_empty_of_length x s.tracer_pks (omega arith))
