-- ===== src/Udp/Crossing.antt =====
-- A datagram on its way from the socket of one node to the socket of another.
use mathlib.Core.List.{append_cancel_left}
use crab_rs.Prelude.{
  ℕ, ◌<◌, ◌≡◌, refl, sym, ap, ◌∙◌, arith, String, true, List, ◌∷◌, ◌++◌, length, replicate,
  length-replicate, err,
}
use crab_rs.Prelude.Io.{Io}
use crab_rs.Prelude.Bytes.{Bytes}
use crab_rs.Errors.{error_code}
use crab_rs.Errors.Codes
use crab_rs.Transport.{Transport, IsReliable}
use crab_rs.Types.{SocketAddr}
use crab_rs.Udp.Packet.{UdpSocket, udp_forward_mtu, read_packet, send_packet}
use crab_rs.Udp.PacketLaws.{
  packet_length, packet_bytes, ReadsU16, send_packet-bytes, read_packet-too_long,
}
use crab_rs.Udp.Relay.{Turn, from_stream, copy_udp_stream}

module _ {W : Type 0} ⦃t : Transport W⦄ (lookup_host : Bytes → ℕ → Io String W (List SocketAddr))
    (read_u16 : Io String W ℕ) (sock : UdpSocket W) where
  refused_round :
      (turns : List Turn) (w w1 : W)
      → read_packet read_u16 (replicate udp_forward_mtu 0) w
        ≡ (err (error_code Codes.no_enough_space), w1)
      → copy_udp_stream lookup_host read_u16 sock (from_stream ∷ turns) w
        ≡ (err (error_code Codes.no_enough_space), w1)
  unfolding copy_udp_stream
  refused_round turns w w1 e = rw e refl

-- The node `S` that received a datagram, and the node `W` that is to send it on.
module _ {S W : Type 0} ⦃here : Transport S⦄ ⦃there : Transport W⦄ (RS : IsReliable here)
    (RW : IsReliable there) {here_u16 : Io String S ℕ} (here_reads : ReadsU16 RS here_u16)
    {read_u16 : Io String W ℕ} (reads : ReadsU16 RW read_u16)
    (lookup_host : Bytes → ℕ → Io String W (List SocketAddr)) (sock : UdpSocket W) where
  -- If a datagram is sent on the stream, which can be written, and its data with the header takes more
  -- than 1500 bytes and less than 32768, then, when the packet arrives first, the relay at the other
  -- end stops, in both directions, with NO_ENOUGH_SPACE.
  pub copy_udp_stream-too_long :
      (data_bytes bytes rest : Bytes) (a : SocketAddr) (turns : List Turn) (s : S) (w : W)
      → udp_forward_mtu < packet_length a data_bytes
      → packet_length a data_bytes < 32768
      → RS.writable s ≡ true
      → RS.outbox (send_packet data_bytes a s).1 ≡ RS.outbox s ++ bytes
      → RW.inbox w ≡ bytes ++ rest
      → (copy_udp_stream lookup_host read_u16 sock (from_stream ∷ turns) w).0
        ≡ err (error_code Codes.no_enough_space)
  copy_udp_stream-too_long data_bytes bytes rest a turns s w long short x added arrived =
      let (s', sent, out) = send_packet-bytes RS here_reads data_bytes a s (omega arith) x in
      let same : bytes ≡ packet_bytes a data_bytes =
        append_cancel_left (RS.outbox s) bytes (packet_bytes a data_bytes)
          (sym added ∙ ap (λ p. RS.outbox p.1) sent ∙ out) in
      let full : length {A = ℕ} (replicate udp_forward_mtu 0) ≡ udp_forward_mtu =
        length-replicate {A = ℕ} udp_forward_mtu 0 in
      let (w', e, _) =
        read_packet-too_long RW reads a data_bytes rest (replicate udp_forward_mtu 0) w
          (omega arith) short (arrived ∙ ap (λ b. b ++ rest) same) in
      ap (λ p. p.0) (refused_round lookup_host read_u16 sock turns w w' e)
