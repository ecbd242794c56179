-- ===== src/Crypto/NoPanic.antt =====
-- Opening never panics; sealing does not, over lawful primitives, for what serialises and is short
-- enough.
use simulation_taps_tt.Base.{
  ℕ, ◌≤◌, ◌≡◌, Bool, true, false, Option, none, some, Bytes, String, length, refl, ◌⊎◌, inl, inr,
  arith,
}
use simulation_taps_tt.Base.Outcome.{
  Outcome, ok, err, panic, expect, ok_or, guard, ◌>>=◌, Safe, Safe-bind,
}
use simulation_taps_tt.Crypto.Primitives.{Suite, Codec, IsLawful}
use simulation_taps_tt.Crypto.Package.{
  SecurePackage, BroadcastPackage, IdentityKeyPair, TransportKeyPair, derive_aes_key, sign_data,
  encrypt_package, encrypt_to,
}
use simulation_taps_tt.Crypto.Channel.{
  Error, ActorKeys, seal_bytes, open_secure, sign_broadcast, open_broadcast,
}

-- The call does not panic.
abbrev pub NeverPanics : {E A : Type 0} → Outcome E A → Type 0
NeverPanics = Safe (λ _. Unit)

-- Every payload is serialised.
abbrev pub IsTotal : {A : Type 0} → Codec A → Type 0
IsTotal {A} codec = (a : A) → (bytes : Bytes) × (codec.serialize a ≡ some bytes)

-- What is serialised is short enough to be encrypted.
abbrev pub IsShort : {A : Type 0} → Suite → Codec A → Type 0
IsShort {A} c codec =
    (a : A) (bytes : Bytes) → codec.serialize a ≡ some bytes → length bytes ≤ c.max_plaintext

pub NeverPanics-expect :
    (E : Type 0) {A : Type 0} (message : String) (o : Option A) (a : A)
    → o ≡ some a
    → NeverPanics (expect {E = E} message o)
NeverPanics-expect E message none a e = cc
NeverPanics-expect E message (some b) a e = tt

module _ {E A : Type 0} where
  pub NeverPanics-ok_or : (e : E) (o : Option A) → NeverPanics (ok_or e o)
  NeverPanics-ok_or e none = tt
  NeverPanics-ok_or e (some a) = tt

  pub safely_returned : (m : Outcome E A) → NeverPanics m → Safe (λ a. m ≡ ok a) m
  safely_returned (ok a) h = refl
  safely_returned (err e) h = tt
  safely_returned (panic p) h = absurd h

-- How a call that does not panic ends.
pub NeverPanics-cases :
    {E A : Type 0} (m : Outcome E A)
    → NeverPanics m
    → ((a : A) × (m ≡ ok a)) ⊎ ((e : E) × (m ≡ err e))
NeverPanics-cases (ok a) h = inl (a, refl)
NeverPanics-cases (err e) h = inr (e, refl)
NeverPanics-cases (panic p) h = absurd h

pub NeverPanics-guard : {E : Type 0} (b : Bool) (e : E) → NeverPanics (guard b e)
NeverPanics-guard true e = tt
NeverPanics-guard false e = tt

pub NeverPanics-bind :
    {E A B : Type 0} (m : Outcome E A) (k : A → Outcome E B)
    → NeverPanics m
    → ((a : A) → NeverPanics (k a))
    → NeverPanics (m >>= k)
NeverPanics-bind m k h h' = Safe-bind (λ _. Unit) (λ _. Unit) m k h (λ a _. h' a)

module _ (c : Suite) {A : Type 0} (codec : Codec A) where
  pub open_secure-NeverPanics :
      (kp : TransportKeyPair c) (sender : ActorKeys c) (p : SecurePackage c) (now : ℕ)
      → NeverPanics (open_secure c codec kp sender p now)
  unfolding open_secure
  open_secure-NeverPanics kp sender p now = ground arith

  pub open_broadcast-NeverPanics :
      (pk : c.PublicKey) (p : BroadcastPackage c) (now : ℕ)
      → NeverPanics (open_broadcast c codec pk p now)
  unfolding open_broadcast
  open_broadcast-NeverPanics pk p now = ground arith

  pub sign_broadcast-NeverPanics :
      (E : Type 0) (kp : IdentityKeyPair c) (a : A) (nonce : Bytes) (now : ℕ)
      → IsTotal codec
      → NeverPanics (sign_broadcast c {E = E} codec kp a nonce now)
  unfolding sign_broadcast
  sign_broadcast-NeverPanics E kp a nonce now total = let (bytes, e) = total a in ground (arith, e)

module _ (c : Suite) (L : IsLawful c) where
  pub seal_bytes-NeverPanics :
      (E : Type 0) (ikp : IdentityKeyPair c) (tkp : TransportKeyPair c) (pk : c.PublicKey)
      (plain random : Bytes) (now : ℕ)
      → length random ≡ 12
      → length plain ≤ c.max_plaintext
      → NeverPanics (seal_bytes c {E = E} ikp tkp pk plain random now)
  unfolding seal_bytes encrypt_to encrypt_package
  seal_bytes-NeverPanics E ikp tkp pk plain random now twelve short =
      let (ct, e, _) = L.decrypt-encrypt (derive_aes_key c tkp.sk pk) random plain twelve short in
      ground (arith, e)

-- What is signed for a broadcast, when the payload is serialised.
pub signs_broadcast :
    (c : Suite) {A : Type 0} (codec : Codec A) (kp : IdentityKeyPair c)
    → IsTotal codec
    → (a : A) (nonce : Bytes) (now : ℕ)
    → (p : BroadcastPackage c) × (sign_broadcast c {E = Error} codec kp a nonce now ≡ ok p)
unfolding sign_broadcast
signs_broadcast c codec kp total a nonce now =
    let (bytes, e) = total a in
    (
      record {
        text = bytes;
        nonce = nonce;
        timestamp = now;
        signature = sign_data c kp bytes nonce now;
      },
      ground (arith, e),
    )
