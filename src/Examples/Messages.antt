-- ===== src/Examples/Messages.antt =====
-- The toy codec of the messages.
use simulation_taps_tt.Base.{ℕ, zero, suc, ◌≡◌, refl, Option, none, some, [], ◌∷◌, ◌++◌, Bytes}
use simulation_taps_tt.Network.{Role, signer, combiner, tracer, Message, hello, secure, broadcast}
use simulation_taps_tt.Examples.Toy.{toy_suite}
use simulation_taps_tt.Examples.Wires.{Wire, number, both, via, via_read, via_read-write, many}
use simulation_taps_tt.Examples.Payloads.{secure_wire, broadcast_wire}

abbrev pub role_of : ℕ → Role
role_of zero = signer
role_of (suc zero) = combiner
role_of (suc (suc _)) = tracer

abbrev pub number_of : Role → ℕ
number_of signer = 0
number_of combiner = 1
number_of tracer = 2

pub role_of-number_of : (r : Role) → role_of (number_of r) ≡ r
role_of-number_of signer = refl
role_of-number_of combiner = refl
role_of-number_of tracer = refl

abbrev pub hello_wire : Wire ((ℕ × Role) × (Bytes × Bytes))
hello_wire =
    both (both number (via role_of number_of role_of-number_of number))
      (both (many number) (many number))

abbrev pub message_write : Message toy_suite → Bytes
message_write (hello id role pk identity_pk) = 0 ∷ hello_wire.write ((id, role), (pk, identity_pk))
message_write (secure p) = 1 ∷ secure_wire.write p
message_write (broadcast p) = 2 ∷ broadcast_wire.write p

abbrev pub message_read : Bytes → Option (Message toy_suite × Bytes)
message_read [] = none
message_read (zero ∷ rest) = via_read (λ p. hello p.0.0 p.0.1 p.1.0 p.1.1) hello_wire rest
message_read (suc zero ∷ rest) = via_read (λ p. secure p) secure_wire rest
message_read (suc (suc _) ∷ rest) = via_read (λ p. broadcast p) broadcast_wire rest

pub message_read-message_write :
    (msg : Message toy_suite) (rest : Bytes)
    → message_read (message_write msg ++ rest) ≡ some (msg, rest)
message_read-message_write (hello id role pk identity_pk) rest =
    via_read-write (λ p. hello p.0.0 p.0.1 p.1.0 p.1.1) hello_wire ((id, role), (pk, identity_pk))
      rest
message_read-message_write (secure p) rest = via_read-write (λ p. secure p) secure_wire p rest
message_read-message_write (broadcast p) rest =
    via_read-write (λ p. broadcast p) broadcast_wire p rest

abbrev pub message_wire : Wire (Message toy_suite)
message_wire = record {
  write = message_write;
  read = message_read;
  read-write = message_read-message_write;
}
