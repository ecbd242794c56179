-- ===== src/Network/Frames.antt =====
-- Frames: a 4-byte length and the payload.
use mathlib.Core.List.{append_assoc}
use simulation_taps_tt.Base.{
  ℕ, ◌%◌, ◌^◌, ◌<◌, ◌≡◌, refl, subst, ◌∙◌, some, List, [], ◌∷◌, ◌++◌, Bytes, length, length-append,
  take-append_left, drop-append_left, arith,
}
use simulation_taps_tt.Base.Outcome.{Outcome, ok, err, ◌>>=◌}
use simulation_taps_tt.Crypto.{
  Suite, Codec, IsFaithful, be_bytes, from_be, length-be_bytes, from_be-be_bytes,
}
use simulation_taps_tt.Network.Defs.{NetError, unexpected_eof, Message, read_exact, send, receive}

read_exact-append : (n : ℕ) (xs ys : Bytes) → length xs ≡ n → read_exact n (xs ++ ys) ≡ ok (xs, ys)
unfolding read_exact
read_exact-append n xs ys h =
    subst (λ k. read_exact k (xs ++ ys) ≡ ok (xs, ys)) h
      (ground (arith, length-append xs ys, take-append_left xs ys, drop-append_left xs ys))

read_exact_short : (n : ℕ) (xs : Bytes) → length xs < n → read_exact n xs ≡ err unexpected_eof
unfolding read_exact
read_exact_short n xs h = ground arith

module _ {c : Suite} (codec : Codec (Message c)) where
  -- The length that was framed, for a payload of less than 2 ^ 32 bytes.
  from_be-header :
      (bytes : Bytes)
      → length bytes < 2 ^ 32
      → from_be (be_bytes 4 (length bytes % 2 ^ 32)) ≡ length bytes
  from_be-header bytes h = from_be-be_bytes 4 (length bytes % 2 ^ 32) (omega arith) ∙ omega arith

  -- The frame of a message whose encoding is read back and has less than 2 ^ 32 bytes is received
  -- as that message, and what follows on the stream is left there.
  pub receive-send :
      IsFaithful codec
      → (msg : Message c) (bytes rest : Bytes) → codec.serialize msg ≡ some bytes
      → length bytes < 2 ^ 32
      → (frame : Bytes) × (send codec msg ≡ ok frame)
        × (receive codec (frame ++ rest) ≡ ok (msg, rest))
  unfolding send receive
  receive-send faithful msg bytes rest e h =
      let header = be_bytes 4 (length bytes % 2 ^ 32) in
      (
        header ++ bytes,
        ground arith,
        ground (
          arith,
          append_assoc header bytes rest,
          read_exact-append 4 header (bytes ++ rest) (length-be_bytes 4 (length bytes % 2 ^ 32)),
          from_be-header bytes h,
          read_exact-append (length bytes) bytes rest refl,
          faithful msg bytes e,
        ),
      )

  -- A frame that breaks off before its last byte is an error, and never a message.
  pub receive_truncated :
      (bytes part : Bytes)
      → length bytes < 2 ^ 32
      → length part < length bytes
      → receive codec (be_bytes 4 (length bytes % 2 ^ 32) ++ part) ≡ err unexpected_eof
  unfolding receive
  receive_truncated bytes part h short =
      let header = be_bytes 4 (length bytes % 2 ^ 32) in
      ground (
        arith,
        read_exact-append 4 header part (length-be_bytes 4 (length bytes % 2 ^ 32)),
        from_be-header bytes h,
        read_exact_short (length bytes) part short,
      )

  -- All the messages of a list, in one stream.
  unfoldable pub send_all : List (Message c) → Outcome NetError Bytes
  send_all [] = ok []
  send_all (msg ∷ msgs) = do frame ← send codec msg; frames ← send_all msgs; ok (frame ++ frames)

  unfoldable pub receive_all :
      List (Message c) → Bytes → Outcome NetError (List (Message c) × Bytes)
  receive_all [] stream = ok ([], stream)
  receive_all (_ ∷ expected) stream = do
    (msg, stream') ← receive codec stream
    (msgs, rest) ← receive_all expected stream'
    ok (msg ∷ msgs, rest)

  -- Every message of the list has an encoding that a frame can carry.
  abbrev pub Framable : List (Message c) → Type 0
  Framable [] = Unit
  Framable (msg ∷ msgs) =
      ((bytes : Bytes) × (codec.serialize msg ≡ some bytes) × (length bytes < 2 ^ 32))
      × Framable msgs

  -- Messages whose encodings are read back and have less than 2 ^ 32 bytes are received one by one
  -- and in the order in which they were sent, whatever follows them on the stream.
  pub receive_all-send_all :
      IsFaithful codec
      → (msgs : List (Message c)) (rest : Bytes) → Framable msgs
      → (frames : Bytes) × (send_all msgs ≡ ok frames)
        × (receive_all msgs (frames ++ rest) ≡ ok (msgs, rest))
  unfolding send_all receive_all
  receive_all-send_all faithful [] rest h = ([], refl, refl)
  receive_all-send_all faithful (msg ∷ msgs) rest ((bytes, e, short), h) =
      let (frames, es, er) = receive_all-send_all faithful msgs rest h in
      let (frame, fs, fr) = receive-send faithful msg bytes (frames ++ rest) e short in
      (
        frame ++ frames,
        ground (arith, es, fs),
        ground (arith, append_assoc frame frames rest, fr, er),
      )
