-- ===== src/Examples/Network.antt =====
-- The theorems about the anchor file, the frames, the listener and the mesh, at toy keys.
use simulation_taps_tt.Base.{
  ℕ, zero, suc, ◌+◌, ◌≡◌, refl, Option, some, List, [], ◌∷◌, ◌++◌, Bytes, replicate, arith,
}
use simulation_taps_tt.Base.Outcome.{Outcome, ok, err, Safe}
use simulation_taps_tt.Crypto.{ActorKeys}
use simulation_taps_tt.Network.{
  NetError, io, AuthorityAnchor, tracer, Message, hello, Attempt, bound, refused, bind_with_retry,
}
use simulation_taps_tt.Network.Frames.{send_all, receive_all, receive_all-send_all}
use simulation_taps_tt.Network.Retry.{bind_with_retry_exhausted}
use simulation_taps_tt.Mesh.{
  TracerMesh, establish, accept_links, admit, admits, dial, Inbound, received,
}
use simulation_taps_tt.Mesh.Links.{establish_complete, IsEstablished}
use simulation_taps_tt.Examples.Toy.{toy_suite}
use simulation_taps_tt.Examples.Wires.{codec_of, codec_of-IsFaithful}
use simulation_taps_tt.Examples.Messages.{message_wire}

abbrev anchor : AuthorityAnchor toy_suite
anchor = record { identity_pk = 5; transport_pk = 6 }

abbrev greeting : Message toy_suite
greeting = hello 2 tracer (6 ∷ []) (5 ∷ replicate 32 0)

receive_all-send_all_example :
    (frames : Bytes) × (send_all (codec_of message_wire) (greeting ∷ greeting ∷ []) ≡ ok frames)
    × (receive_all (codec_of message_wire) (greeting ∷ greeting ∷ []) (frames ++ (8 ∷ []))
        ≡ ok (greeting ∷ greeting ∷ [], 8 ∷ []))
receive_all-send_all_example =
    receive_all-send_all (codec_of message_wire) (codec_of-IsFaithful message_wire)
      (greeting ∷ greeting ∷ []) (8 ∷ []) ((_, refl, omega arith), ((_, refl, omega arith), tt))

-- The port is free from attempt 1 on.
abbrev free_later : ℕ → Attempt NetError ℕ
free_later zero = refused io
free_later (suc _) = bound 3

abbrev never_free : ℕ → Attempt NetError ℕ
never_free _ = refused io

bind_with_retry_exhausted_example :
    (e : NetError) × (never_free 59 ≡ refused e) × (bind_with_retry never_free ≡ (err e, 120))
bind_with_retry_exhausted_example = bind_with_retry_exhausted never_free (λ j h. (io, refl))

-- Tracer 1 of 3 dials tracer 0, turns away a second tracer 0, and accepts tracer 2.
abbrev roster : List (ActorKeys toy_suite)
roster =
    record { identity_pk = 3; transport_pk = 13 }
    ∷ record { identity_pk = 4; transport_pk = 14 }
    ∷ record { identity_pk = 5; transport_pk = 15 }
    ∷ []

abbrev dials : ℕ → Option ℕ
dials peer = some (100 + peer)

abbrev inbound : List (Inbound toy_suite)
inbound =
    received 7 (hello 0 tracer (13 ∷ []) (3 ∷ replicate 32 0))
    ∷ received 8 (hello 2 tracer (15 ∷ []) (5 ∷ replicate 32 0))
    ∷ []

establish_complete_example :
    Safe (IsEstablished toy_suite 1 roster) (establish toy_suite free_later dials inbound 1 roster)
establish_complete_example = establish_complete toy_suite 1 roster free_later dials inbound

abbrev mesh : TracerMesh
mesh = record { index = 1; peers = (0, 100) ∷ (2, 8) ∷ [] }

-- The mesh that is established.
established : establish toy_suite free_later dials inbound 1 roster ≡ ok mesh
unfolding establish bind_with_retry accept_links admit admits dial
established = refl

abbrev echo : ℕ → Message toy_suite → Outcome NetError (Message toy_suite)
echo peer msg = ok msg
