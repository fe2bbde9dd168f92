-- ===== src/Udp/Packet.antt =====
-- udp.rs: one datagram at a time, on the QUIC stream and on the UDP socket.
--
-- A reader fills a buffer that its caller keeps: it is given the bytes of the buffer and gives them
-- back as it leaves them, beside the slice of them that is the data.
use Prim.Native.Nat.{bit_and, bit_xor}
use crab_rs.Prelude.{
  ℕ, ◌+◌, ◌/◌, ◌%◌, ◌^◌, String, ◌∷◌, ◌++◌, length, take, drop, ltb, ◌==◌, if◌then◌else◌,
}
use crab_rs.Prelude.Io.{Io, pure, raise, lift, from, ◌>>=◌, ◌>>◌}
use crab_rs.Prelude.Bytes.{Bytes}
use crab_rs.Errors.{CrabError, error_code, io, quic_read_exact_error, quic_write_error}
use crab_rs.Errors.Codes
use crab_rs.Types.{SocketAddr}
use crab_rs.Transport.{Transport}
use crab_rs.Udp.Address.{Address, address_of}
use crab_rs.Udp.Header.{unpack, try_into_address, header_of, write_packet_header}

abbrev pub udp_forward_mtu : ℕ
udp_forward_mtu = 1500

abbrev pub over_packet_tag : ℕ
over_packet_tag = 2 ^ 15

abbrev pub packet_len_mask : ℕ
packet_len_mask = bit_xor 0xffff over_packet_tag

-- A socket of tokio. `recv_from` is given the length of the buffer, and gives at most so many bytes.
pub record UdpSocket (W : Type 0) : Type 0 where
  pub recv_from : ℕ → Io String W (Bytes × SocketAddr)
  pub send_to : Bytes → SocketAddr → Io String W ℕ

-- What a reader returns: the sender's address, the data, and the buffer.
abbrev pub Packet : Type 0
Packet = Address × Bytes × Bytes

module _ {W : Type 0} ⦃t : Transport W⦄ where
  -- `UdpPacketReader for RecvStream`; `read_u16` is that of tokio, which reads two bytes.
  unfoldable pub read_packet : Io String W ℕ → Bytes → Io CrabError W Packet
  read_packet read_u16 buf = do
    flag ← from io read_u16
    let size = bit_and flag packet_len_mask
    if size == 0
        then raise (error_code Codes.bad_message_header)
        else if ltb (length buf) size
        then raise (error_code Codes.no_enough_space)
        else (do
          bytes ← from quic_read_exact_error (t.read_exact size)
          let buf' = bytes ++ drop size buf
          (header, position) ← lift (unpack (take size buf'))
          address ← lift (try_into_address header)
          pure (address, drop position buf', buf'))

  -- `UdpPacketWriter for Mutex<SendStream>`; the lengths are added as `u32`.
  unfoldable pub send_packet : Bytes → SocketAddr → Io CrabError W ℕ
  send_packet buf addr = do
    let header = write_packet_header (header_of addr)
    let total_len = (length buf + length header) % 2 ^ 32
    from quic_write_error (t.write_all ((total_len / 256 % 256) ∷ (total_len % 256) ∷ header))
    from quic_write_error (t.write_all buf)
    pure (length buf)

module _ {W : Type 0} (socket : UdpSocket W) where
  -- `UdpPacketReader for Arc<UdpSocket>`
  unfoldable pub read_datagram : Bytes → Io CrabError W Packet
  read_datagram buf = do
    (bytes, addr) ← from io (socket.recv_from (length buf))
    let buf' = bytes ++ drop (length bytes) buf
    pure (address_of addr, take (length bytes) buf', buf')

  -- `UdpPacketWriter for Arc<UdpSocket>`
  unfoldable pub send_datagram : Bytes → SocketAddr → Io CrabError W ℕ
  send_datagram buf addr = from io (socket.send_to buf addr)
