-- ===== src/Combiner/GroupKeyPhase.antt =====
-- Phase 3 of src/bin/combiner.rs, from the reports of the tracers to the group key.
use mathlib.Core.List.{Permᴰ}
use simulation_taps_tt.Base.{
  ℕ, zero, suc, ◌+◌, ◌<◌, ◌≤◌, ◌≡◌, refl, true, Option, none, some, List, [], ◌∷◌, length,
  get_elem?, subst, sym, arith,
}
use simulation_taps_tt.Base.Map.{Map, lookup, insert, Ascends, insert-Ascends, lookup-insert}
use simulation_taps_tt.Base.Map.Order.{
  Below, insert-Below, Below-weaken, length-insert_new, lookup_above,
}
use simulation_taps_tt.Base.Outcome.{ok}
use simulation_taps_tt.Crypto.{Codec, SecurePackage, ActorKeys, open_secure}
use simulation_taps_tt.Network.{secure}
use simulation_taps_tt.Taps.{Taps, IsAbelian}
use simulation_taps_tt.Payloads.{TracerPublicKeyPackage}
use simulation_taps_tt.Combiner.State.{Combiner}
use simulation_taps_tt.Combiner.Intake.{
  keys_in_roster, keys_of_tracer, open_tracer_package, load_tracer_public_key,
}
use simulation_taps_tt.Combiner.GroupKey.{product, tracer_public_keys_complete}
use simulation_taps_tt.Combiner.Node.{
  Arrivals, for_streams, take_public_key, collect_public_keys, group_key_phase,
}
use simulation_taps_tt.Combiner.KeyProduct.{IsConfigured, finalize_group_key-product}

module _ {A : Type 0} where
  -- The values, filed under the numbers from `i` on.
  abbrev pub file : ℕ → List A → Map A → Map A
  file i [] m = m
  file i (a ∷ later) m = file (suc i) later (insert i a m)

  -- A map that has just the keys below `i`.
  abbrev pub Upto : ℕ → Map A → Type 0
  Upto i m = Ascends 0 m × Below i m × (length m ≡ i)

  insert-Upto : (i : ℕ) (a : A) (m : Map A) → Upto i m → Upto (suc i) (insert i a m)
  insert-Upto i a m (up, l, e) = (
    insert-Ascends 0 i a m (omega arith) up,
    insert-Below (suc i) i a m (omega arith) (Below-weaken i (suc i) m (omega arith) l),
    omega (arith, e, length-insert_new i a m (lookup_above i i m (omega arith) l)),
  )

  file-Upto : (i : ℕ) (xs : List A) (m : Map A) → Upto i m → Upto (i + length xs) (file i xs m)
  file-Upto i [] m h = subst (λ k. Upto k m) (omega arith) h
  file-Upto i (a ∷ later) m h =
      subst (λ k. Upto k (file (suc i) later (insert i a m))) (omega arith)
        (file-Upto (suc i) later (insert i a m) (insert-Upto i a m h))

  lookup-file_below :
      (i : ℕ) (xs : List A) (m : Map A) (k : ℕ) → k < i → lookup k (file i xs m) ≡ lookup k m
  lookup-file_below i [] m k h = refl
  lookup-file_below i (a ∷ later) m k h = ground (
    arith,
    lookup-file_below (suc i) later (insert i a m) k (omega (arith, h)),
    lookup-insert k i a m,
  )

  pub lookup-file :
      (i : ℕ) (xs : List A) (m : Map A) (k : ℕ)
      → Upto i m
      → lookup (i + k) (file i xs m) ≡ get_elem? xs k
  lookup-file i [] m k (up, l, e) = lookup_above i (i + k) m (omega arith) l
  lookup-file i (a ∷ later) m zero h =
      let e : i ≡ i + 0 = omega arith in
      subst (λ j. lookup j (file (suc i) later (insert i a m)) ≡ some a) e
        (ground (
          arith,
          lookup-file_below (suc i) later (insert i a m) i (omega arith),
          lookup-insert i i a m,
        ))
  lookup-file i (a ∷ later) m (suc k) h =
      let e : suc i + k ≡ i + suc k = omega arith in
      subst (λ j. lookup j (file (suc i) later (insert i a m)) ≡ get_elem? later k) e
        (lookup-file (suc i) later (insert i a m) k (insert-Upto i a m h))

module _ (x : Taps) (codec : Codec (TracerPublicKeyPackage x)) (now : ℕ → ℕ) (arrivals : Arrivals x)
    (s : Combiner x) where
  -- From tracer `id` on, each stream is connected, and what arrives on it is a package that opens,
  -- under the roster's keys, to the public key of its place.
  abbrev pub Reports : ℕ → List (Option ℕ) → List x.Gt → Type 0
  Reports id [] [] = Unit
  Reports id [] (pk ∷ pks) = ⊥
  Reports id (stream ∷ streams) [] = ⊥
  Reports id (stream ∷ streams) (pk ∷ pks) =
      ((socket : ℕ) × (p : SecurePackage x.suite) × (keys : ActorKeys x.suite) × (stream
          ≡ some socket)
        × (arrivals socket ≡ some (secure p))
        × (keys_in_roster x s.tracer_keys id ≡ ok keys)
        × (open_secure x.suite codec s.transport_kp keys p (now id) ≡ ok (record { pk = pk })))
      × Reports (suc id) streams pks

  take_public_key_opened :
      (id socket : ℕ) (p : SecurePackage x.suite) (keys : ActorKeys x.suite) (pk : x.Gt)
      (m : Map x.Gt)
      → arrivals socket ≡ some (secure p)
      → keys_in_roster x s.tracer_keys id ≡ ok keys
      → open_secure x.suite codec s.transport_kp keys p (now id) ≡ ok (record { pk = pk })
      → take_public_key x codec (now id) id (arrivals socket) (record s { tracer_pks = m })
        ≡ (ok tt, record s { tracer_pks = insert id pk m })
  unfolding take_public_key load_tracer_public_key open_tracer_package keys_of_tracer
  take_public_key_opened id socket p keys pk m ea ek eo = ground (arith, ea, ek, eo)

  collect_public_keys_all :
      (id : ℕ) (streams : List (Option ℕ)) (pks : List x.Gt) (m : Map x.Gt)
      → Reports id streams pks
      → for_streams x
          (λ k socket. take_public_key x codec (now k) k (arrivals socket))
          id
          streams
          (record s { tracer_pks = m })
        ≡ (ok tt, record s { tracer_pks = file id pks m })
  unfolding for_streams
  collect_public_keys_all id [] [] m h = refl
  collect_public_keys_all id [] (pk ∷ pks) m h = absurd h
  collect_public_keys_all id (stream ∷ streams) [] m h = absurd h
  collect_public_keys_all id (none ∷ streams) (pk ∷ pks) m ((socket, p, keys, es, _, _, _), h) =
      absurd (cc (es))
  collect_public_keys_all id (some socket' ∷ streams) (pk ∷ pks) m
        ((socket, p, keys, es, ea, ek, eo), h) =
      let same : socket ≡ socket' = cc (es) in
      ground (
        arith,
        take_public_key_opened id socket' p keys pk m
            (subst (λ k. arrivals k ≡ some (secure p)) same ea) ek eo,
        collect_public_keys_all (suc id) streams pks (insert id pk m) h,
      )

  -- With no key on file, if each tracer of the roster is connected and reports a key that opens, and the product of
  -- the keys is a point `pk_e`, the phase succeeds: the key of each tracer is on file under its id,
  -- the group key is the product, taken in any order, and the registry is built from it.
  pub group_key_phase-product :
      IsAbelian x
      → (ks : List (ActorKeys x.suite)) (pk_i : List x.PublicKey) (kp : x.KeyPair)
        (pk_e : x.PublicKey) (streams : List (Option ℕ)) (pks qs : List x.Gt)
      → s.tracer_pks ≡ []
      → s.tracer_keys ≡ some ks
      → s.n3 ≡ some (length ks)
      → length pks ≡ length ks
      → 1 ≤ length ks
      → s.pk_i ≡ some pk_i
      → s.taps_kp ≡ some kp
      → Reports 0 streams pks
      → Permᴰ pks qs
      → x.to_public_key (product x qs) ≡ some pk_e
      → group_key_phase x codec now arrivals streams s ≡ (
        ok tt,
        record s {
          tracer_pks = file 0 pks [];
          pk_e = some pk_e;
          pk = some (x.from_public_keys pk_i (x.keypair_public kp) pk_e);
        },
      )
  unfolding group_key_phase collect_public_keys tracer_public_keys_complete
  group_key_phase-product A ks pk_i kp pk_e streams pks qs none_yet er en el some_tracer ei ek
        reports p point =
      let upto = file-Upto 0 pks [] (tt, tt, refl) in
      let reported : Combiner x = record s { tracer_pks = file 0 pks [] } in
      let v : IsConfigured x ks reported = record {
        roster = er;
        count = en;
        ascends = upto.0;
        below =
            Below-weaken (0 + length pks) (length ks) (file 0 pks []) (omega (arith, el)) upto.1;
      } in
      let complete : tracer_public_keys_complete x reported ≡ true =
        ground (arith, upto.2, el, en) in
      let collected : collect_public_keys x codec now arrivals streams s ≡ (ok tt, reported) =
        subst
          (λ m.
            collect_public_keys x codec now arrivals streams (record s { tracer_pks = m })
            ≡ (ok tt, reported))
          (sym none_yet) (collect_public_keys_all 0 streams pks [] reports) in
      let finalized =
        finalize_group_key-product x ks reported v A pk_i kp pk_e pks qs some_tracer complete ei ek
          (λ k.
            subst (λ j. lookup j (file 0 pks []) ≡ get_elem? pks k) (omega arith)
              (lookup-file 0 pks [] k (tt, tt, refl)))
          p point in
      ground (arith, collected, complete, finalized)
