-- ===== src/Tests/Relays.antt =====
-- Packets on a pipe, and a socket that keeps what it sends.
use crab_rs.Udp.Header.{write_host}
use crab_rs.Prelude.{
  ◌∙◌, ℕ, ◌≡◌, refl, arith, String, Bool, true, List, [], ◌∷◌, ◌++◌, length, replicate, ok, err,
}
use crab_rs.Prelude.Bytes.{Bytes}
use crab_rs.Prelude.Io.{Io}
use crab_rs.Types.{SocketAddr, v4}
use crab_rs.Udp.Header.{write_packet_header, header_of}
use crab_rs.Udp.Packet.{UdpSocket, read_packet, send_packet, send_datagram}
use crab_rs.Udp.Relay.{copy_udp_packet, copy_udp_stream, from_stream, from_socket}
use crab_rs.Udp.Crossing.{copy_udp_stream-too_long}
use crab_rs.Errors.{error_code}
use crab_rs.Errors.Codes
use crab_rs.Udp.RelayLaws.{
  Datagram, IsSocket, packets_bytes, AllFit, AllDelivered, copy_udp_packet-delivers,
}
use crab_rs.Tests.Datagrams.{read_u16, read_u16-ReadsU16, read_u16-state}
use crab_rs.Tests.Reports.{read_exact_keeps_state}
use crab_rs.Tests.Pipe.{Pipe, pipe, pipe_with, pipe-IsReliable}

abbrev World : Type 0
World = Pipe (List Datagram)

abbrev sock : UdpSocket World
sock = record {
  recv_from = λ n w. (err "would block", w);
  send_to = λ bytes a w. (ok (length bytes), record w { state = w.state ++ (a, bytes) ∷ [] });
}

abbrev lookup_host : Bytes → ℕ → Io String World (List SocketAddr)
lookup_host host port w = (err "no such host", w)

abbrev is_open : World → Bool
is_open w = true

sock-IsSocket : IsSocket pipe-IsReliable read_u16 sock
sock-IsSocket = record {
  sent = λ w. w.state;
  sends = is_open;
  send_to_ok =
      λ bytes a w x. (record w { state = w.state ++ (a, bytes) ∷ [] }, refl, refl, refl, refl);
  by_read = λ ds n. record { at = λ w h. (read_exact_keeps_state n w ∙ h.0, refl) };
  by_read_u16 = λ ds. record { at = λ w h. (read_u16-state w ∙ h.0, refl) };
}

abbrev address : SocketAddr
address = v4 (10 ∷ 0 ∷ 0 ∷ 7 ∷ []) 53

abbrev packets : List Datagram
packets = (address, 1 ∷ 2 ∷ []) ∷ (address, 3 ∷ []) ∷ []

abbrev arrived : World
arrived = pipe_with (packets_bytes packets ++ 9 ∷ []) []

packets-AllFit : AllFit packets
unfolding write_packet_header header_of write_host
packets-AllFit = (((refl, omega arith), omega arith), (((refl, omega arith), omega arith), tt))

copy_udp_packet-delivers_example :
    (buf' : Bytes) × (w' : World) × (ds : List Datagram) × (copy_udp_packet lookup_host
        (read_packet read_u16)
        (send_datagram sock)
        2
        arrived
      ≡ (ok buf', w'))
    × AllDelivered packets ds
    × (w'.state ≡ [] ++ ds)
    × (w'.inbox ≡ 9 ∷ [])
unfolding sock-IsSocket
copy_udp_packet-delivers_example =
    copy_udp_packet-delivers pipe-IsReliable read_u16-ReadsU16 sock-IsSocket lookup_host packets
      (9 ∷ []) arrived packets-AllFit refl refl

abbrev long_data : Bytes
long_data = replicate 1500 7

abbrev received : World
received = pipe_with [] []

abbrev crossing : Bytes
crossing = (send_packet long_data address received).1.outbox

copy_udp_stream-too_long_example :
    (copy_udp_stream lookup_host read_u16 sock
      (from_stream ∷ from_socket ∷ [])
      (pipe_with (crossing ++ []) [])).0
    ≡ err (error_code Codes.no_enough_space)
unfolding write_packet_header write_host header_of
copy_udp_stream-too_long_example =
    copy_udp_stream-too_long pipe-IsReliable pipe-IsReliable read_u16-ReadsU16 read_u16-ReadsU16
      lookup_host sock long_data crossing [] address (from_socket ∷ []) received
      (pipe_with (crossing ++ []) []) (omega arith) (omega arith) refl refl refl
