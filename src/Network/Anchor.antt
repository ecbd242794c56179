-- ===== src/Network/Anchor.antt =====
-- The trust anchor file.
use simulation_taps_tt.Base.{
  ℕ, ◌≡◌, refl, true, some, ◌++◌, Bytes, length, take, drop, length-append, take-append_left,
  drop-append_left, subst, arith,
}
use simulation_taps_tt.Base.Outcome.{ok}
use simulation_taps_tt.Crypto.{Suite, IsLawful}
use simulation_taps_tt.Network.Defs.{
  AuthorityAnchor, publish_authority_anchor, load_authority_anchor,
}

split_at :
    (n : ℕ) (xs ys : Bytes) → length xs ≡ n → (take n (xs ++ ys) ≡ xs) × (drop n (xs ++ ys) ≡ ys)
split_at n xs ys h =
    subst (λ k. (take k (xs ++ ys) ≡ xs) × (drop k (xs ++ ys) ≡ ys)) h
      (take-append_left xs ys, drop-append_left xs ys)

module _ (c : Suite) where
  -- Where the write succeeds and public keys have 33-byte encodings that are read back, an actor
  -- that reads the published file pins the Authority's two keys.
  pub load-publish_authority_anchor :
      IsLawful c
      → (anchor : AuthorityAnchor c)
      → (bytes : Bytes) × (publish_authority_anchor c true anchor ≡ ok bytes)
        × (load_authority_anchor c (some bytes) ≡ ok anchor)
  unfolding publish_authority_anchor load_authority_anchor
  load-publish_authority_anchor L anchor =
      let xs = c.serialize anchor.identity_pk in
      let ys = c.serialize anchor.transport_pk in
      (
        xs ++ ys,
        refl,
        ground (
          arith,
          L.length-serialize anchor.identity_pk,
          L.length-serialize anchor.transport_pk,
          length-append xs ys,
          split_at 33 xs ys (L.length-serialize anchor.identity_pk),
          L.from_slice-serialize anchor.identity_pk,
          L.from_slice-serialize anchor.transport_pk,
        ),
      )
