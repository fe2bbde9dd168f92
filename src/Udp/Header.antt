-- ===== src/Udp/Header.antt =====
-- `PacketHeader` of types.rs: the header before each datagram on a stream. The layout is the one
-- that the attributes of the source give: big-endian, the reserved field zero, and the address
-- behind a byte that tells its kind.
use crab_rs.Prelude.{
  ℕ, ◌-◌, ◌%◌, ◌<◌, ◌≡◌, ◌∷◌, ◌++◌, none, some, length, Result, ok, err, ◌==◌, if◌then◌else◌,
}
use crab_rs.Prelude.Bytes.{
  Bytes, Reader, done, fail, ◌>>=◌, read_u8, read_u16_be, read_bytes, write_u16_be,
}
use crab_rs.Errors.{CrabError, error_code}
use crab_rs.Errors.Codes
use crab_rs.Types.{SocketAddr, v4, v6}
use crab_rs.Udp.Address.{Address, socket_address, domain_address, is_utf8}

pub data PackageHost : Type 0 where
  ipv4 : Bytes → PackageHost
  ipv6 : Bytes → PackageHost
  domain : Bytes → PackageHost

pub record PacketHeader : Type 0 where
  pub rsv : ℕ
  pub frag : ℕ
  pub addr : PackageHost
  pub port : ℕ

-- `DomainHost`: a length byte and so many bytes.
pub read_domain : Reader PackageHost
read_domain = do len ← read_u8; name ← read_bytes len; done (domain name)

read_tagged : ℕ → Reader PackageHost
unfolding read_domain
read_tagged tag =
    if tag == 1
    then (do octets ← read_bytes 4; done (ipv4 octets))
    else if tag == 4
    then (do octets ← read_bytes 16; done (ipv6 octets))
    else if tag == 3
    then read_domain
    else fail

unfoldable pub read_host : Reader PackageHost
unfolding read_tagged
read_host = do tag ← read_u8; read_tagged tag

unfoldable pub write_host : PackageHost → Bytes
write_host (ipv4 octets) = 1 ∷ octets
write_host (ipv6 octets) = 4 ∷ octets
write_host (domain name) = 3 ∷ (length name % 256) ∷ name

unfoldable pub read_packet_header : Reader PacketHeader
read_packet_header = do
  rsv ← read_u16_be
  if rsv == 0
      then (do
        frag ← read_u8
        addr ← read_host
        port ← read_u16_be
        done (record { rsv = rsv; frag = frag; addr = addr; port = port }))
      else fail

unfoldable pub write_packet_header : PacketHeader → Bytes
write_packet_header h =
    write_u16_be h.rsv ++ (h.frag % 256) ∷ (write_host h.addr ++ write_u16_be h.port)

-- `PacketHeader::unpack`: the header, and how many bytes it takes.
unfoldable pub unpack : Bytes → Result CrabError (PacketHeader × ℕ)
unpack buf = elim (read_packet_header buf) [
  | none ↦ err (error_code Codes.bad_message_header)
  | some (h, rest) ↦ ok (h, length buf - length rest)
]

-- `impl From<SocketAddr> for PackageHost`
pub host_of : SocketAddr → PackageHost
host_of (v4 octets port) = ipv4 octets
host_of (v6 octets port flow scope) = ipv6 octets

abbrev pub port_of : SocketAddr → ℕ
port_of (v4 octets port) = port
port_of (v6 octets port flow scope) = port

-- `impl From<SocketAddr> for PacketHeader`
unfoldable pub header_of : SocketAddr → PacketHeader
unfolding host_of
header_of addr = record { rsv = 0; frag = 0; addr = host_of addr; port = port_of addr }

-- `impl TryFrom<PacketHeader> for Address`
address_at : PackageHost → ℕ → Result CrabError Address
address_at (ipv4 octets) port = ok (socket_address (v4 octets port))
address_at (ipv6 octets) port = ok (socket_address (v6 octets port 0 0))
address_at (domain name) port =
    if is_utf8 name then ok (domain_address name port) else err (error_code Codes.encoding_error)

unfoldable pub try_into_address : PacketHeader → Result CrabError Address
unfolding address_at
try_into_address h = address_at h.addr h.port

-- What the types of the fields hold.
abbrev pub IsHost : PackageHost → Type 0
IsHost (ipv4 octets) = length octets ≡ 4
IsHost (ipv6 octets) = length octets ≡ 16
IsHost (domain name) = length name < 256

pub record IsPacketHeader (h : PacketHeader) : Type 0 where
  pub reserved : h.rsv ≡ 0
  pub frag_u8 : h.frag < 256
  pub host : IsHost h.addr
  pub port_u16 : h.port < 65536

-- The addresses that the wire form keeps whole: no flow information and no scope.
abbrev pub IsPlain : SocketAddr → Type 0
IsPlain (v4 octets port) = (length octets ≡ 4) × (port < 65536)
IsPlain (v6 octets port flow scope) =
    (length octets ≡ 16) × (port < 65536) × (flow ≡ 0) × (scope ≡ 0)
