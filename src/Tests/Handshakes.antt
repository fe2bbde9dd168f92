-- ===== src/Tests/Handshakes.antt =====
-- Handshakes of a small protocol, and of the application's.
use crab_rs.Prelude.{
  ℕ, ◌+◌, ◌≡◌, refl, ap, ◌∙◌, arith, [], ◌∷◌, ◌++◌, ok, err, true, false, if◌then◌else◌, ◌==◌,
}
use crab_rs.Prelude.Bytes.{Bytes, write_u32_le}
use crab_rs.Prelude.Io.{Io, pure, raise}
use crab_rs.Errors.{CrabError, error_code}
use crab_rs.Errors.Codes
use crab_rs.Message.{handshake, option_none, option_error, from_error}
use crab_rs.Stream.{frame, write_message, encode_message}
use crab_rs.Types.{NodeMetadata, SocketAddr, v4}
use crab_rs.Hook.{Connection, Protocol, holds, metadata, accept_handshake, handshake_as_client}
use crab_rs.Hook.Laws.{HasArrived, accept_handshake-answers, accept_handshake-refuses}
use crab_rs.Hook.Meeting.{IsPacket, handshakes-meet}
use crab_rs.Tests.Pipe.{Pipe, pipe, pipe_with, pipe-IsReliable, write_all, ack_codec, byte_codec}

abbrev World : Type 0
World = Pipe (Unit {0})

abbrev address : SocketAddr
address = v4 (127 ∷ 0 ∷ 0 ∷ 1 ∷ []) 8443

-- A connection whose stream is the pipe itself.
abbrev connection : Connection World
connection = record {
  accept_bi = λ w. (ok tt, w);
  open_bi = λ w. (ok tt, w);
  remote_address = address;
}

abbrev greet : NodeMetadata → ℕ → Io CrabError World ℕ
greet meta packet = if packet == 9 then raise (error_code Codes.node_exists) else pure (packet + 1)

-- A handshake is a number: the peer answers with the next one, and refuses 9.
abbrev greeting : Protocol World ℕ
greeting = record {
  Handshake = ℕ;
  Heartbeat = ℕ;
  Command = ℕ;
  node_id = λ n. "node";
  handshake_codec = byte_codec;
  heartbeat_codec = byte_codec;
  command_codec = byte_codec;
  make_handshake = pure 0;
  make_heartbeat = pure 0;
  on_handshake = greet;
  on_heartbeat = λ meta n. pure n;
  on_node_accepted = λ meta h n. pure tt;
  on_node_exited = λ meta w. w;
  handle_command = λ meta c. pure tt;
}

abbrev asked : Bytes → World
asked bytes = pipe_with (bytes ++ 77 ∷ []) tt

arrived_with :
    (n : ℕ)
    → HasArrived pipe-IsReliable greeting connection handshake n
        (n ∷ [])
        (77 ∷ [])
        (asked (frame handshake option_none (n ∷ [])))
        (asked (frame handshake option_none (n ∷ [])))
arrived_with n = record {
  accepted = refl;
  arrived = refl;
  writes = refl;
  fits = omega arith;
  encoded = (refl, refl);
}

accept_handshake-answers_example :
    (w' : World) × (accept_handshake greeting connection
        (asked (frame handshake option_none (5 ∷ [])))
      ≡ (ok (metadata greeting address true 5, holds 5), w'))
    × (w'.inbox ≡ 77 ∷ [])
    × (w'.outbox ≡ [] ++ frame handshake option_none (6 ∷ []))
accept_handshake-answers_example =
    accept_handshake-answers pipe-IsReliable greeting connection (arrived_with 5) refl (λ v. refl)

accept_handshake-refuses_example :
    (w' : World) × (accept_handshake greeting connection
        (asked (frame handshake option_none (9 ∷ [])))
      ≡ (err (error_code Codes.node_exists), w'))
    × (w'.outbox ≡ [] ++ frame handshake option_error (write_u32_le Codes.node_exists))
unfolding from_error
accept_handshake-refuses_example =
    accept_handshake-refuses pipe-IsReliable greeting connection (error_code Codes.node_exists)
      (arrived_with 9) refl (λ v. refl)

abbrev first_packet : Bytes
first_packet = frame handshake option_none (0 ∷ [])

abbrev answered : Bytes
answered = frame handshake option_none (1 ∷ [])

abbrev client : World
client = pipe_with (answered ++ 66 ∷ []) tt

abbrev asking : World
asking = record client { outbox = first_packet }

abbrev peer : Connection World
peer = record connection { remote_address = v4 (10 ∷ 0 ∷ 0 ∷ 2 ∷ []) 8443 }

greeting-IsPacket : (n : ℕ) → IsPacket greeting n (n ∷ [])
greeting-IsPacket n = record { encoded = (refl, refl); fits = omega arith }

asking_wrote : write_message byte_codec handshake option_none 0 client ≡ (ok tt, asking)
unfolding write_message encode_message write_all
asking_wrote = refl

replied : (accept_handshake greeting connection (asked first_packet)).1.outbox ≡ [] ++ answered
replied =
    let (w', run, i, o) =
      accept_handshake-answers pipe-IsReliable greeting connection (arrived_with 0) refl
        (λ v. refl) in
    ap (λ q. q.1.outbox) run ∙ o

handshakes-meet_example :
    ((accept_handshake greeting connection (asked first_packet)).0
      ≡ ok (metadata greeting address true 0, holds 0))
    × ((handshake_as_client greeting peer client).0
        ≡ ok (metadata greeting (v4 (10 ∷ 0 ∷ 0 ∷ 2 ∷ []) 8443) false 1, holds 1))
handshakes-meet_example =
    handshakes-meet pipe-IsReliable greeting connection peer first_packet answered (77 ∷ [])
      (66 ∷ []) (greeting-IsPacket 0) (greeting-IsPacket 1) refl refl refl asking_wrote refl refl
      refl refl (λ v. refl) replied refl
