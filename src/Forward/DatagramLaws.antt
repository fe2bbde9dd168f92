-- ===== src/Forward/DatagramLaws.antt =====
-- The socket that datagrams are forwarded by.
use crab_rs.Prelude.{String, none, Result, err, map_err, ◌≡◌, refl}
use crab_rs.Errors.{io}
use crab_rs.Forward.Datagram.{UdpSockets, unspecified_v6, unspecified_v4, bind_via}

module _ {W : Type 0} (sockets : UdpSockets W) where
  -- Without an address to send from, a socket of IPv4 is bound if one of IPv6 cannot be, and what
  -- becomes of that decides.
  pub bind_via-fallback :
      (w w1 w2 : W) (e : String) (r : Result String (Unit {0}))
      → sockets.bind unspecified_v6 w ≡ (err e, w1)
      → sockets.bind unspecified_v4 w1 ≡ (r, w2)
      → bind_via sockets none w ≡ (map_err io r, w2)
  unfolding bind_via
  bind_via-fallback w w1 w2 e r a b = rw a (rw b refl)
