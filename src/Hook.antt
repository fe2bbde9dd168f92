-- ===== src/Hook.antt =====
-- crab/proto/hook.rs and crab/proto/hook_wrapper.rs: the trait `Protocol`, and `ProtoWrapper`,
-- which drives a protocol over streams.
--
-- The cancellation token that the methods pass on is part of the world.
pub mod Laws
pub mod Heartbeats
pub mod Methods
pub mod Meeting
use crab_rs.Prelude.{String, Bool, true, false, none, ◌==◌, not, if◌then◌else◌}
use crab_rs.Prelude.Io.{Io, pure, raise, from, match_on, ◌>>=◌, ◌>>◌}
use crab_rs.Errors.{CrabError, error_code, quic_connection_error}
use crab_rs.Errors.Codes
use crab_rs.Message.{
  Method, handshake, heartbeat, method_code, MessageHeader, AckMessage, option_none, option_error,
}
use crab_rs.Transport.{Transport, Codec}
use crab_rs.Stream.{read_message, write_message, write_error}
use crab_rs.Types.{NodeMetadata, SocketAddr}

-- What is asked of a connection of quinn: a new stream becomes the stream of the world.
pub record Connection (W : Type 0) : Type 0 where
  pub accept_bi : Io String W (Unit {0})
  pub open_bi : Io String W (Unit {0})
  pub remote_address : SocketAddr

-- `Stream::accept` and `Stream::open`
abbrev pub accept_stream : {W : Type 0} → Connection W → Io CrabError W (Unit {0})
accept_stream conn = from quic_connection_error conn.accept_bi

abbrev pub open_stream : {W : Type 0} → Connection W → Io CrabError W (Unit {0})
open_stream conn = from quic_connection_error conn.open_bi

-- `Handle` is the program's type of node handles.
pub record Protocol (W Handle : Type 0) : Type 1 where
  pub Handshake : Type 0
  pub Heartbeat : Type 0
  pub Command : Type 0
  pub node_id : Handshake → String
  pub handshake_codec : Codec Handshake
  pub heartbeat_codec : Codec Heartbeat
  pub command_codec : Codec Command
  pub make_handshake : Io CrabError W Handshake
  pub make_heartbeat : Io CrabError W Heartbeat
  pub on_handshake : NodeMetadata → Handshake → Io CrabError W Handshake
  pub on_heartbeat : NodeMetadata → Heartbeat → Io CrabError W Heartbeat
  pub on_node_accepted : NodeMetadata → Handle → Handshake → Io CrabError W (Unit {0})
  pub on_node_exited : NodeMetadata → W → W
  pub handle_command : NodeMetadata → MessageHeader × Command → Io CrabError W (Unit {0})

-- `Box<dyn Any + Send>`: a value of the handshake's type, or of another.
pub data AnyBox (A : Type 0) : Type 0 where
  holds : A → AnyBox A
  other : AnyBox A

pub same_method : Method → Method → Bool
unfolding method_code
same_method a b = method_code a == method_code b

module _ {W Handle : Type 0} ⦃t : Transport W⦄ ⦃ack : Codec AckMessage⦄
    (p : Protocol W Handle) where
  open p use {
    Handshake, Heartbeat, Command, node_id, handshake_codec, heartbeat_codec, command_codec,
    make_handshake, make_heartbeat, on_handshake, on_heartbeat,
  }

  -- `ProtoWrapper::handle_heartbeat`
  pub handle_heartbeat : NodeMetadata → Io CrabError W Heartbeat
  handle_heartbeat meta = do (_, body) ← read_message heartbeat_codec; on_heartbeat meta body

  abbrev pub metadata : SocketAddr → Bool → Handshake → NodeMetadata
  metadata addr as_client packet = record {
    node_id = node_id packet;
    remote_addr = addr;
    as_client = as_client;
  }

  -- The `match` at the end of `handshake`.
  pub answer_handshake :
      NodeMetadata → MessageHeader → Handshake → Io CrabError W (NodeMetadata × AnyBox Handshake)
  answer_handshake meta header packet =
      match_on (on_handshake meta packet)
        (λ ret.
          match_on (write_message handshake_codec handshake header.option ret)
            (λ _. pure (meta, holds packet)) (λ _. raise (error_code Codes.io_bad_message)))
        (λ e. do write_error handshake option_error e; raise e)

  pub accept_handshake : Connection W → Io CrabError W (NodeMetadata × AnyBox Handshake)
  unfolding answer_handshake same_method
  accept_handshake conn = do
    accept_stream conn
    (header, packet) ← read_message handshake_codec
    if not (same_method header.method handshake)
        then raise (error_code Codes.bad_message_header)
        else answer_handshake (metadata conn.remote_address true packet) header packet

  pub handshake_as_client : Connection W → Io CrabError W (NodeMetadata × AnyBox Handshake)
  handshake_as_client conn = do
    packet ← make_handshake
    open_stream conn
    write_message handshake_codec handshake option_none packet
    (_, body) ← read_message handshake_codec
    pure (metadata conn.remote_address false body, holds body)

  finish_heartbeat : AckMessage → Io CrabError W (Unit {0})
  finish_heartbeat a = if not (a.code == Codes.no_error) then raise (error_code a.code) else pure tt

  pub serve_heartbeat : NodeMetadata → Io CrabError W (Unit {0})
  unfolding handle_heartbeat finish_heartbeat
  serve_heartbeat meta =
      match_on (do handle_heartbeat meta; make_heartbeat)
        (λ ret. do
          write_message heartbeat_codec heartbeat option_none ret
          (_, a) ← read_message ack
          finish_heartbeat a)
        (λ e. write_error heartbeat option_error e)

  unfoldable pub heartbeat_as_client : NodeMetadata → Io CrabError W (Unit {0})
  unfolding handle_heartbeat
  heartbeat_as_client meta = do
    match_on make_heartbeat (write_message heartbeat_codec heartbeat option_none)
        (write_error heartbeat option_error)
    match_on (handle_heartbeat meta)
        (λ _.
          write_message ack heartbeat option_none (record { code = Codes.no_error; msg = none }))
        (write_error heartbeat option_error)

  unfoldable pub on_node_accepted :
      NodeMetadata → Handle → AnyBox Handshake → Io CrabError W (Unit {0})
  on_node_accepted meta h (holds packet) = p.on_node_accepted meta h packet
  on_node_accepted meta h other = raise (error_code Codes.illegal_error)

  unfoldable pub on_node_exited : NodeMetadata → W → W
  on_node_exited meta = p.on_node_exited meta

  unfoldable pub handle_stream : NodeMetadata → Io CrabError W (Unit {0})
  handle_stream meta = do
    header_and_command ← read_message command_codec
    p.handle_command meta header_and_command
