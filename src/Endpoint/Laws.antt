-- ===== src/Endpoint/Laws.antt =====
-- How an endpoint reaches the nodes that it connects to.
use crab_rs.Prelude.{ℕ, String, true, false, some, List, [], ◌∷◌, ◌≡◌, refl, ◌++◌, ◌∙◌}
use crab_rs.Types.{SocketAddr}
use crab_rs.Endpoint.{Network, connect_first, try_connect, after_attempt}

module _ {W : Type 0} (net : Network W) (timeout : ℕ) (host : String) where
  -- The address cannot be reached: the attempt cannot be started, or it gives no connection.
  pub data IsUnreachable (addr : SocketAddr) (w : W) : W → Type 0 where
    not_started : {w1 : W} → net.connect addr host w ≡ (false, w1) → IsUnreachable addr w w1
    not_connected :
        {w1 w2 : W}
        → net.connect addr host w ≡ (true, w1)
        → net.connected timeout w1 ≡ (some false, w2)
        → IsUnreachable addr w w2

  -- None of the addresses can be reached, one after the other.
  pub data AllUnreachable : W → List SocketAddr → W → Type 0 where
    no_address : {w : W} → AllUnreachable w [] w
    one_more :
        {addr : SocketAddr} {rest : List SocketAddr} {w w1 w2 : W}
        → IsUnreachable addr w w1
        → AllUnreachable w1 rest w2
        → AllUnreachable w (addr ∷ rest) w2

  connect_first-skip :
      {addr : SocketAddr} (rest : List SocketAddr) {w w1 : W}
      → IsUnreachable addr w w1
      → connect_first net timeout host (addr ∷ rest) w ≡ connect_first net timeout host rest w1
  unfolding connect_first try_connect after_attempt
  connect_first-skip rest (not_started e) = rw e refl
  connect_first-skip rest (not_connected e1 e2) = rw (e1, e2) refl

  -- Of the addresses of a host those at the front that cannot be reached are passed over: the
  -- result is that of the addresses after them.
  pub connect_first-unreachable :
      {before : List SocketAddr} {w w1 : W} (after : List SocketAddr)
      → AllUnreachable w before w1
      → connect_first net timeout host (before ++ after) w ≡ connect_first net timeout host after w1
  connect_first-unreachable after no_address = refl
  connect_first-unreachable after (one_more u rest) =
      connect_first-skip _ u ∙ connect_first-unreachable after rest
