-- ===== src/Udp/Address.antt =====
-- The type `Address` of types.rs. A host name is the bytes of its UTF-8.
use crab_rs.Prelude.{
  ℕ, zero, suc, Bool, true, false, ◌&&◌, List, [], ◌∷◌, String, ltb, leb, ◌==◌, if◌then◌else◌,
}
use crab_rs.Prelude.Io.{Io, pure, raise, from, ◌>>=◌}
use crab_rs.Prelude.Bytes.{Bytes}
use crab_rs.Errors.{CrabError, error_code, io}
use crab_rs.Errors.Codes
use crab_rs.Types.{SocketAddr}

pub data Address : Type 0 where
  socket_address : SocketAddr → Address
  domain_address : Bytes → ℕ → Address

-- How many continuation bytes are still to come, and between what bounds the next one lies.
record Pending : Type 0 where
  count : ℕ
  low : ℕ
  high : ℕ

abbrev pending : ℕ → ℕ → ℕ → Pending
pending n lo hi = record { count = n; low = lo; high = hi }

-- What the first byte of a character asks for; no valid byte follows `pending 1 1 0`.
first_byte : ℕ → Pending
first_byte b =
    if ltb b 0x80
    then pending 0 0 0
    else if ltb b 0xc2
    then pending 1 1 0
    else if ltb b 0xe0
    then pending 1 0x80 0xbf
    else if b == 0xe0
    then pending 2 0xa0 0xbf
    else if b == 0xed
    then pending 2 0x80 0x9f
    else if ltb b 0xf0
    then pending 2 0x80 0xbf
    else if b == 0xf0
    then pending 3 0x90 0xbf
    else if ltb b 0xf4
    then pending 3 0x80 0xbf
    else if b == 0xf4
    then pending 3 0x80 0x8f
    else pending 1 1 0

scan_utf8 : ℕ → ℕ → ℕ → Bytes → Bool
unfolding first_byte
scan_utf8 zero lo hi [] = true
scan_utf8 zero lo hi (b ∷ bs) = let p = first_byte b in scan_utf8 p.count p.low p.high bs
scan_utf8 (suc n) lo hi [] = false
scan_utf8 (suc n) lo hi (b ∷ bs) =
    let rest = scan_utf8 n 0x80 0xbf bs in if leb lo b && leb b hi then rest else false

-- Whether `String::from_utf8` takes the bytes.
unfoldable pub is_utf8 : Bytes → Bool
unfolding scan_utf8
is_utf8 = scan_utf8 0 0 0

first_address : {W : Type 0} → List SocketAddr → Io CrabError W SocketAddr
first_address [] = raise (error_code Codes.dns_resolve_error)
first_address (a ∷ _) = pure a

-- `lookup_host` is the resolver of the system.
unfoldable pub resolve :
    {W : Type 0} → (Bytes → ℕ → Io String W (List SocketAddr)) → Address → Io CrabError W SocketAddr
unfolding first_address
resolve lookup_host (socket_address addr) = pure addr
resolve lookup_host (domain_address host port) = do
  found ← from io (lookup_host host port)
  first_address found

-- `impl From<SocketAddr> for Address`
unfoldable pub address_of : SocketAddr → Address
address_of = socket_address
