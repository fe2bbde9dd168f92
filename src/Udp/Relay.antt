-- ===== src/Udp/Relay.antt =====
-- udp_util.rs: the loop that copies packets from a reader to a writer, and the two of them that relay
-- a stream and a socket.
use crab_rs.Prelude.{ℕ, zero, suc, String, List, [], ◌∷◌, replicate}
use crab_rs.Prelude.Io.{Io, pure, raise, match_on, ◌>>=◌, ◌>>◌}
use crab_rs.Prelude.Bytes.{Bytes}
use crab_rs.Errors.{CrabError, error_code}
use crab_rs.Errors.Codes
use crab_rs.Transport.{Transport}
use crab_rs.Types.{SocketAddr}
use crab_rs.Udp.Address.{resolve}
use crab_rs.Udp.Packet.{
  Packet, UdpSocket, udp_forward_mtu, read_packet, send_packet, read_datagram, send_datagram,
}

module _ {W : Type 0} (lookup_host : Bytes → ℕ → Io String W (List SocketAddr))
    (read : Bytes → Io CrabError W Packet) (send : Bytes → SocketAddr → Io CrabError W ℕ) where
  -- One round of the loop, from the buffer to the buffer. A packet whose address cannot be resolved
  -- is dropped.
  unfoldable pub copy_round : Bytes → Io CrabError W Bytes
  copy_round buf = do
    (address, data_bytes, buf') ← read buf
    match_on (resolve lookup_host address) (λ addr. do send data_bytes addr; pure buf')
        (λ e. pure buf')

  -- So many rounds. The loop has no end of its own: it runs until a round fails or it is cancelled.
  unfoldable pub copy_rounds : ℕ → Bytes → Io CrabError W Bytes
  unfolding copy_round
  copy_rounds zero buf = pure buf
  copy_rounds (suc n) buf = copy_round buf >>= copy_rounds n

  unfoldable pub copy_udp_packet : ℕ → Io CrabError W Bytes
  copy_udp_packet n = copy_rounds n (replicate udp_forward_mtu 0)

-- The two copies of `try_join!`: each turn is a round of one of them, or the token's cancellation,
-- which both await.
pub data Turn : Type 0 where
  from_stream from_socket cancelled : Turn

-- The buffers of the two copies.
pub record Copies : Type 0 where
  pub stream_buf : Bytes
  pub socket_buf : Bytes

module _ {W : Type 0} ⦃t : Transport W⦄ (lookup_host : Bytes → ℕ → Io String W (List SocketAddr))
    (read_u16 : Io String W ℕ) (sock : UdpSocket W) where
  unfoldable pub copy_turn : Turn → Copies → Io CrabError W Copies
  unfolding copy_round
  copy_turn from_stream c = do
    buf ← copy_round lookup_host (read_packet read_u16) (send_datagram sock) c.stream_buf
    pure (record c { stream_buf = buf })
  copy_turn from_socket c = do
    buf ← copy_round lookup_host (read_datagram sock) send_packet c.socket_buf
    pure (record c { socket_buf = buf })
  copy_turn cancelled c = raise (error_code Codes.canceled_error)

  -- `copy_udp_stream` for so many turns: the first error of either copy ends both, and success says
  -- that both go on. The round during which the other copy ends is left out.
  unfoldable pub copy_turns : List Turn → Copies → Io CrabError W Copies
  unfolding copy_turn
  copy_turns [] c = pure c
  copy_turns (turn ∷ turns) c = copy_turn turn c >>= copy_turns turns

  unfoldable pub copy_udp_stream : List Turn → Io CrabError W Copies
  unfolding copy_turns
  copy_udp_stream turns = copy_turns turns (record {
    stream_buf = replicate udp_forward_mtu 0;
    socket_buf = replicate udp_forward_mtu 0;
  })
