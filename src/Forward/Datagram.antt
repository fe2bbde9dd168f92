-- ===== src/Forward/Datagram.antt =====
-- The handler of UDP forwarding, in udp.rs and udp_util.rs.
use crab_rs.Prelude.{ℕ, List, String, Option, none, some, replicate}
use crab_rs.Prelude.Io.{Io, pure, from, match_on, ◌>>◌}
use crab_rs.Errors.{CrabError, io}
use crab_rs.Message.{AckMessage}
use crab_rs.Transport.{Transport, Codec}
use crab_rs.Types.{SocketAddr, v4, v6}
use crab_rs.Command.Handlers.{Handler}
use crab_rs.Forward.Opening.{open_and_relay}
use crab_rs.Udp.Packet.{UdpSocket}
use crab_rs.Udp.Relay.{Turn, copy_udp_stream}
use crab_rs.Prelude.Bytes.{Bytes}

pub record UdpSockets (W : Type 0) : Type 0 where
  pub bind : SocketAddr → Io String W (Unit {0})
  pub local_addr : Io String W SocketAddr
  pub lookup_host : Bytes → ℕ → Io String W (List SocketAddr)
  -- What is received and sent by the socket that was bound.
  pub bound : UdpSocket W
  -- tokio's `read_u16` on the stream
  pub read_u16 : Io String W ℕ

abbrev pub unspecified_v6 : SocketAddr
unspecified_v6 = v6 (replicate 16 0) 0 0 0

abbrev pub unspecified_v4 : SocketAddr
unspecified_v4 = v4 (replicate 4 0) 0

module _ {W : Type 0} (sockets : UdpSockets W) where
  unfoldable pub bind_via : Option SocketAddr → Io CrabError W (Unit {0})
  bind_via none =
      match_on (from io (sockets.bind unspecified_v6)) pure
        (λ e. from io (sockets.bind unspecified_v4))
  bind_via (some addr) = from io (sockets.bind addr)

  -- `UdpForwardHandler::prepare_socket`
  pub prepare_socket : Option SocketAddr → Io CrabError W SocketAddr
  unfolding bind_via
  prepare_socket via = do bind_via via; from io sockets.local_addr

  -- `UdpForwardHandler::handle`, with so many turns of the relay; it goes on until it fails.
  module _ ⦃t : Transport W⦄ (turns : List Turn) where
    pub relay : Io CrabError W (Unit {0})
    unfolding copy_udp_stream
    relay = do copy_udp_stream sockets.lookup_host sockets.read_u16 sockets.bound turns; pure tt

    unfoldable pub handle_udp_forward :
        ⦃ack : Codec AckMessage⦄ → Codec SocketAddr → Option SocketAddr → Handler W
    unfolding prepare_socket relay
    handle_udp_forward addresses via = open_and_relay addresses (prepare_socket via) relay
