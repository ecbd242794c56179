-- ===== src/Crypto/Boundary.antt =====
-- Where the text ends and the nonce begins in the signed bytes.
use mathlib.Core.List.{append_assoc}
use simulation_taps_tt.Base.{
  ℕ, ◌^◌, ◌<◌, ◌≡◌, refl, ap, ◌∙◌, sym, List, [], ◌∷◌, ◌++◌, Bytes, length, length-append, arith,
}
use simulation_taps_tt.Base.Outcome.{ok}
use simulation_taps_tt.Crypto.Primitives.{Suite, Codec}
use simulation_taps_tt.Crypto.BeBytes.{be_bytes, from_be, length-be_bytes, from_be-be_bytes}
use simulation_taps_tt.Crypto.Package.{
  SecurePackage, BroadcastPackage, TransportKeyPair, signed_buffer, verify_broadcast_package,
  decrypt_from, decrypt_package,
}
use simulation_taps_tt.Crypto.Channel.{ActorKeys, open_secure}

-- Two sums whose right parts are equally long have equal parts.
pub append_split {ℓ} :
    {A : Type ℓ} (xs xs' ys ys' : List A)
    → length ys ≡ length ys'
    → xs ++ ys ≡ xs' ++ ys'
    → (xs ≡ xs') × (ys ≡ ys')
append_split [] [] ys ys' l h = (refl, h)
append_split [] (x' ∷ xs') ys ys' l h = absurd (omega (arith, ap length h, length-append xs' ys'))
append_split (x ∷ xs) [] ys ys' l h = absurd (omega (arith, ap length h, length-append xs ys))
append_split (x ∷ xs) (x' ∷ xs') ys ys' l h =
    let same : xs ++ ys ≡ xs' ++ ys' = cc in
    let (p, q) = append_split xs xs' ys ys' l same in (cc, q)

be_bytes-injective : (w m n : ℕ) → m < 256 ^ w → n < 256 ^ w → be_bytes w m ≡ be_bytes w n → m ≡ n
be_bytes-injective w m n hm hn e =
    sym (from_be-be_bytes w m hm) ∙ ap from_be e ∙ from_be-be_bytes w n hn

module _ (c : Suite) where
  signed_buffer-injective :
      (x x' y y' : Bytes) (t t' : ℕ)
      → length y ≡ length y'
      → t < 256 ^ 8
      → t' < 256 ^ 8
      → signed_buffer c x y t ≡ signed_buffer c x' y' t'
      → (x ≡ x') × (y ≡ y') × (t ≡ t')
  unfolding signed_buffer
  signed_buffer-injective x x' y y' t t' l ht ht' e =
      let lt : length (be_bytes 8 t) ≡ length (be_bytes 8 t') =
        length-be_bytes 8 t ∙ sym (length-be_bytes 8 t') in
      let (ex, e') =
        append_split x x' (y ++ be_bytes 8 t) (y' ++ be_bytes 8 t')
          (omega (arith, lt, l, length-append y (be_bytes 8 t), length-append y' (be_bytes 8 t')))
          e in
      let (ey, et) = append_split y y' (be_bytes 8 t) (be_bytes 8 t') lt e' in
      (ex, ey, be_bytes-injective 8 t t' ht ht' et)

  -- Only a 12-byte nonce is ever opened.
  pub open_secure-nonce :
      {A : Type 0} (codec : Codec A) (kp : TransportKeyPair c) (sender : ActorKeys c)
      (p : SecurePackage c) (now : ℕ) {a : A}
      → open_secure c codec kp sender p now ≡ ok a
      → length p.nonce ≡ 12
  unfolding open_secure decrypt_from decrypt_package
  open_secure-nonce codec kp sender p now h = ground arith

  -- Two packages that an actor opens and whose signed bytes agree are the same package but for the
  -- signature: no byte can move between the ciphertext, the nonce and the (64-bit) timestamp.
  pub open_secure_boundary :
      {A : Type 0} (codec : Codec A) (kp : TransportKeyPair c) (sender : ActorKeys c)
      (p q : SecurePackage c) (now later : ℕ) {a b : A}
      → p.timestamp < 256 ^ 8
      → q.timestamp < 256 ^ 8
      → signed_buffer c p.ciphertext p.nonce p.timestamp
        ≡ signed_buffer c q.ciphertext q.nonce q.timestamp
      → open_secure c codec kp sender p now ≡ ok a
      → open_secure c codec kp sender q later ≡ ok b
      → (p.ciphertext ≡ q.ciphertext) × (p.nonce ≡ q.nonce) × (p.timestamp ≡ q.timestamp)
  open_secure_boundary codec kp sender p q now later tp tq e hp hq =
      signed_buffer-injective p.ciphertext q.ciphertext p.nonce q.nonce p.timestamp q.timestamp
        (open_secure-nonce codec kp sender p now hp
          ∙ sym (open_secure-nonce codec kp sender q later hq))
        tp tq e

  -- A broadcast has no such check: its bytes can be moved from the text to the nonce and back, and
  -- the signature verifies as before.
  pub verify_broadcast_package_boundary :
      (pk : c.PublicKey) (p q : BroadcastPackage c) (max_age now : ℕ)
      → p.text ++ p.nonce ≡ q.text ++ q.nonce
      → p.timestamp ≡ q.timestamp
      → p.signature ≡ q.signature
      → verify_broadcast_package c pk p max_age now ≡ verify_broadcast_package c pk q max_age now
  unfolding verify_broadcast_package signed_buffer
  verify_broadcast_package_boundary pk p q max_age now e et es =
      let moved : p.text ++ (p.nonce ++ be_bytes 8 p.timestamp)
          ≡ q.text ++ (q.nonce ++ be_bytes 8 q.timestamp) =
        sym (append_assoc p.text p.nonce (be_bytes 8 p.timestamp))
        ∙ (cc e)
        ∙ append_assoc q.text q.nonce (be_bytes 8 q.timestamp) in
      ground (arith, moved)
