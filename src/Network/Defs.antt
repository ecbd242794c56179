-- ===== src/Network/Defs.antt =====
-- The data and functions of src/network.rs. A stream is the list of the bytes still to be read.
use simulation_taps_tt.Base.{
  ℕ, zero, suc, ◌+◌, ◌%◌, ◌^◌, Bool, Option, none, some, ◌++◌, Bytes, String, length, take, drop,
  ltb, ◌==◌, if◌then◌else◌,
}
use simulation_taps_tt.Base.Outcome.{Outcome, ok, err, panic, ok_or, guard, ◌>>=◌, ◌>>◌}
use simulation_taps_tt.Crypto.{Suite, Codec, SecurePackage, BroadcastPackage, be_bytes, from_be}

-- The errors behind `Box<dyn Error>`, by where they arise.
pub data NetError : Type 0 where
  -- `still_waiting`: the call has not returned, since no further connection has come in
  io unexpected_eof bad_encoding cannot_read invalid_key still_waiting : NetError
  message : String → NetError
  malformed : ℕ → NetError

pub record AuthorityAnchor (c : Suite) : Type 0 where
  pub identity_pk : c.PublicKey
  pub transport_pk : c.PublicKey

pub data Role : Type 0 where
  signer combiner tracer : Role

pub data Message (c : Suite) : Type 0 where
  hello : ℕ → Role → Bytes → Bytes → Message c
  secure : SecurePackage c → Message c
  broadcast : BroadcastPackage c → Message c

module _ (c : Suite) where
  -- What is written to the anchor file. The flag says whether the write succeeds.
  unfoldable pub publish_authority_anchor : Bool → AuthorityAnchor c → Outcome NetError Bytes
  publish_authority_anchor can_write anchor = do
    guard can_write io
    ok (c.serialize anchor.identity_pk ++ c.serialize anchor.transport_pk)

  -- The argument is the content of the file, `none` if it cannot be read.
  unfoldable pub load_authority_anchor : Option Bytes → Outcome NetError (AuthorityAnchor c)
  load_authority_anchor file = do
    bytes ← ok_or cannot_read file
    guard (length bytes == 66) (malformed (length bytes))
    identity_pk ← ok_or invalid_key (c.from_slice (take 33 bytes))
    transport_pk ← ok_or invalid_key (c.from_slice (drop 33 bytes))
    ok (record { identity_pk = identity_pk; transport_pk = transport_pk })

-- `read_exact`: the bytes read and those that are left.
unfoldable pub read_exact : ℕ → Bytes → Outcome NetError (Bytes × Bytes)
read_exact n stream =
    if ltb (length stream) n then err unexpected_eof else ok (take n stream, drop n stream)

module _ {c : Suite} (codec : Codec (Message c)) where
  -- The bytes that `send` puts on the stream. `as u32` keeps the length modulo 2 ^ 32.
  unfoldable pub send : Message c → Outcome NetError Bytes
  send msg = do
    bytes ← ok_or bad_encoding (codec.serialize msg)
    ok (be_bytes 4 (length bytes % 2 ^ 32) ++ bytes)

  -- The message, and the stream behind it.
  unfoldable pub receive : Bytes → Outcome NetError (Message c × Bytes)
  receive stream = do
    (len_buf, stream') ← read_exact 4 stream
    (buf, rest) ← read_exact (from_be len_buf) stream'
    msg ← ok_or bad_encoding (codec.deserialize buf)
    ok (msg, rest)

-- How one attempt to bind ends.
pub data Attempt (E L : Type 0) : Type 0 where
  bound : L → Attempt E L
  refused : E → Attempt E L

module _ {E L : Type 0} (bind : ℕ → Attempt E L) where
  -- The rounds that are left, the number of the next attempt, and the last error. The second
  -- result is the number of seconds slept.
  unfoldable pub bind_loop : ℕ → ℕ → Option E → Outcome E L × ℕ
  bind_loop zero attempt none = (panic "called `Option::unwrap()` on a `None` value", 0)
  bind_loop zero attempt (some e) = (err e, 0)
  bind_loop (suc left) attempt last_err = elim (bind attempt) [
    | bound listener ↦ (ok listener, 0)
    | refused e ↦ let (r, slept) = bind_loop left (suc attempt) (some e) in (r, 2 + slept)
  ]

  unfoldable pub bind_with_retry : Outcome E L × ℕ
  unfolding bind_loop
  bind_with_retry = bind_loop 60 0 none
