-- ===== src/Tests/Heartbeats.antt =====
-- Heartbeats of a small protocol, and messages that are acknowledged.
use crab_rs.Prelude.Bytes.{read_u32_le}
use crab_rs.Prelude.{
  ℕ, ◌≡◌, ◌==◌, refl, arith, [], ◌∷◌, ◌++◌, none, Result, ok, err, if◌then◌else◌, ltb, true, ◌*◌,
}
use crab_rs.Prelude.Bytes.{Bytes, write_u32_le}
use crab_rs.Prelude.Io.{Io, pure, raise}
use crab_rs.Errors.{CrabError, error_code}
use crab_rs.Errors.Codes
use crab_rs.Message.{AckMessage, heartbeat, option_none}
use crab_rs.Stream.{frame}
use crab_rs.Types.{NodeMetadata, v4}
use crab_rs.Hook.{Protocol, serve_heartbeat}
use crab_rs.Hook.Heartbeats.{HasBeaten, Beats, serve_heartbeat-answers}
use crab_rs.Tests.Pipe.{Pipe, pipe, pipe_with, pipe-IsReliable, ack_codec, byte_codec}

abbrev World : Type 0
World = Pipe (Unit {0})

abbrev take_beat : NodeMetadata → ℕ → Io CrabError World ℕ
take_beat meta n = if n == 9 then raise (error_code Codes.illegal_error) else pure n

-- A heartbeat is a number, and 9 is not taken.
abbrev counting : Protocol World ℕ
counting = record {
  Handshake = ℕ;
  Heartbeat = ℕ;
  Command = ℕ;
  node_id = λ n. "node";
  handshake_codec = byte_codec;
  heartbeat_codec = byte_codec;
  command_codec = byte_codec;
  make_handshake = pure 0;
  make_heartbeat = pure 3;
  on_handshake = λ meta n. pure n;
  on_heartbeat = take_beat;
  on_node_accepted = λ meta h n. pure tt;
  on_node_exited = λ meta w. w;
  handle_command = λ meta c. pure tt;
}

abbrev meta : NodeMetadata
meta = record { node_id = "a"; remote_addr = v4 (127 ∷ 0 ∷ 0 ∷ 1 ∷ []) 8443; as_client = true }

abbrev refusal : AckMessage
refusal = record { code = 21; msg = none }

abbrev refusal_bytes : Bytes
refusal_bytes = write_u32_le 21

-- What follows the peer's heartbeat on its stream.
abbrev then_refusal : Bytes
then_refusal = frame heartbeat option_none refusal_bytes ++ 77 ∷ []

abbrev beaten : ℕ → World
beaten n = pipe_with (frame heartbeat option_none (n ∷ []) ++ then_refusal) tt

beaten-HasBeaten :
    (n : ℕ) → HasBeaten pipe-IsReliable counting meta n (n ∷ []) then_refusal (beaten n)
beaten-HasBeaten n = record {
  arrived = refl;
  writes = refl;
  fits = omega arith;
  encoded = (refl, refl);
}

five-Beats : Beats pipe-IsReliable counting meta 5 3 (3 ∷ [])
five-Beats = record { made = λ v. refl; taken = λ v. (5, refl); encodes = refl }

serve_heartbeat-answers_example :
    (w' : World) × (serve_heartbeat counting meta (beaten 5) ≡ (err (error_code 21), w'))
    × (w'.inbox ≡ 77 ∷ [])
    × (w'.outbox ≡ [] ++ frame heartbeat option_none (3 ∷ []))
unfolding read_u32_le
serve_heartbeat-answers_example =
    serve_heartbeat-answers pipe-IsReliable counting meta refusal (beaten-HasBeaten 5) five-Beats
      (refl, refl) (omega arith)

abbrev small : ℕ → Result CrabError ℕ
small n = if ltb n 7 then ok (n * 2) else err (error_code Codes.bad_parameter)
