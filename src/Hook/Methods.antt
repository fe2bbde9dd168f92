-- ===== src/Hook/Methods.antt =====
-- The trait `Hook` of hook.rs: what the endpoint and its nodes ask of the program, with the methods'
-- own bodies, and `ProtoWrapper` as one.
use crab_rs.Prelude.Io.{Io, pure, raise}
use crab_rs.Errors.{CrabError, error_code}
use crab_rs.Errors.Codes
use crab_rs.Message.{AckMessage}
use crab_rs.Transport.{Transport, Codec}
use crab_rs.Types.{NodeMetadata}
use crab_rs.Hook.{
  Connection, Protocol, AnyBox, accept_handshake, handshake_as_client, serve_heartbeat,
  heartbeat_as_client, on_node_accepted, on_node_exited, handle_stream,
}

-- `Any` is the type of what a handshake hands on to `on_node_accepted`.
pub record Hook (W Handle Any : Type 0) : Type 0 where
  pub handshake : Connection W → Io CrabError W (NodeMetadata × Any)
  pub handshake_as_client : Connection W → Io CrabError W (NodeMetadata × Any)
  pub heartbeat : NodeMetadata → Io CrabError W (Unit {0})
  pub heartbeat_as_client : NodeMetadata → Io CrabError W (Unit {0})
  pub on_connection_accepted : Connection W → Io CrabError W (Unit {0})
  pub on_node_accepted : NodeMetadata → Handle → Any → Io CrabError W (Unit {0})
  pub on_node_exited : NodeMetadata → W → W
  pub handle_stream : NodeMetadata → Io CrabError W (Unit {0})

abbrev unsupported : {W A : Type 0} → Io CrabError W A
unsupported = raise (error_code Codes.unsupported_error)

module _ {W Handle : Type 0} where
  -- The methods as the trait has them.
  abbrev pub default_hook : {Any : Type 0} → Hook W Handle Any
  default_hook = record {
    handshake = λ conn. unsupported;
    handshake_as_client = λ conn. unsupported;
    heartbeat = λ meta. unsupported;
    heartbeat_as_client = λ meta. unsupported;
    on_connection_accepted = λ conn. pure tt;
    on_node_accepted = λ meta h any. pure tt;
    on_node_exited = λ meta w. w;
    handle_stream = λ meta. unsupported;
  }

  -- `impl Hook for ProtoWrapper<P>`, which keeps the trait's `on_connection_accepted`.
  abbrev pub proto_wrapper :
      ⦃t : Transport W⦄ ⦃ack : Codec AckMessage⦄
      → (p : Protocol W Handle) → Hook W Handle (AnyBox p.Handshake)
  proto_wrapper p = record {
    handshake = accept_handshake p;
    handshake_as_client = handshake_as_client p;
    heartbeat = serve_heartbeat p;
    heartbeat_as_client = heartbeat_as_client p;
    on_connection_accepted = (default_hook {Any = AnyBox p.Handshake}).on_connection_accepted;
    on_node_accepted = on_node_accepted p;
    on_node_exited = on_node_exited p;
    handle_stream = handle_stream p;
  }
