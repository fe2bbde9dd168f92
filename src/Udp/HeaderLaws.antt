-- ===== src/Udp/HeaderLaws.antt =====
-- Laws of the packet header.
use crab_rs.Prelude.{◌≤◌, ◌≡◌, refl, arith, ◌++◌, some, length, length-append, append_assoc, ok}
use crab_rs.Prelude.Bytes.{
  Bytes, read_u8, read_u16_be, read_bytes-append, read_u16_be-write, write_u16_be,
}
use crab_rs.Types.{SocketAddr, v4, v6}
use crab_rs.Udp.Address.{address_of}
use crab_rs.Udp.Header.{
  PackageHost, ipv4, ipv6, domain, PacketHeader, IsHost, IsPacketHeader, IsPlain, read_host,
  write_host, read_packet_header, write_packet_header, unpack, header_of, try_into_address,
}

read_host-write_host :
    (a : PackageHost) (rest : Bytes) → IsHost a → read_host (write_host a ++ rest) ≡ some (a, rest)
unfolding read_host write_host read_u8
read_host-write_host (ipv4 octets) rest h = rw (rw h at (read_bytes-append octets rest))
read_host-write_host (ipv6 octets) rest h = rw (rw h at (read_bytes-append octets rest))
read_host-write_host (domain name) rest h = ground (arith, read_bytes-append name rest)

-- A header that was written reads back, and what follows it is left.
pub read_packet_header-write :
    (h : PacketHeader) (rest : Bytes)
    → IsPacketHeader h
    → read_packet_header (write_packet_header h ++ rest) ≡ some (h, rest)
unfolding read_packet_header write_packet_header read_u8 read_u16_be
read_packet_header-write h rest v = ground (
  arith,
  append_assoc (write_host h.addr) (write_u16_be h.port) rest,
  read_host-write_host h.addr (write_u16_be h.port ++ rest),
  read_u16_be-write h.port rest,
)

-- `unpack` finds a header whose fields are in range in front of any data, and says where the data
-- begins.
pub unpack-write_packet_header :
    (h : PacketHeader) (rest : Bytes)
    → IsPacketHeader h
    → unpack (write_packet_header h ++ rest) ≡ ok (h, length (write_packet_header h))
unfolding unpack
unpack-write_packet_header h rest v =
    ground (arith, read_packet_header-write h rest v, length-append (write_packet_header h) rest)

pub header_of-IsPacketHeader : (a : SocketAddr) → IsPlain a → IsPacketHeader (header_of a)
unfolding header_of
header_of-IsPacketHeader (v4 octets port) p = ground arith
header_of-IsPacketHeader (v6 octets port flow scope) p = ground arith

-- The address that the header made from a socket address stands for is that socket address, if it
-- has no flow information and no scope.
pub try_into_address-header_of :
    (a : SocketAddr) → IsPlain a → try_into_address (header_of a) ≡ ok (address_of a)
unfolding try_into_address header_of address_of
try_into_address-header_of (v4 octets port) p = refl
try_into_address-header_of (v6 octets port flow scope) p = ground arith

-- The header of a socket address without flow information and scope takes from 10 to 22 bytes, so
-- it fits the 22 bytes of the buffer behind the two bytes of the length.
pub length-write_packet_header :
    (a : SocketAddr)
    → IsPlain a
    → (10 ≤ length (write_packet_header (header_of a)))
      × (length (write_packet_header (header_of a)) ≤ 22)
unfolding write_packet_header header_of write_host
length-write_packet_header (v4 octets port) p =
    omega (arith, length-append octets (write_u16_be port))
length-write_packet_header (v6 octets port flow scope) p =
    omega (arith, length-append octets (write_u16_be port))
