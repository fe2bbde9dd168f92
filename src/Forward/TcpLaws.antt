-- ===== src/Forward/TcpLaws.antt =====
-- Which connections of the forwarder are served.
use crab_rs.Prelude.{String, List, [], ◌∷◌, ◌++◌, ◌≡◌, refl}
use crab_rs.Manager.{DashMap, Node}
use crab_rs.Forward.Tcp.{TcpEvent, cancelled, accept_failed, accepted, serve_tcp}

module _ {NodeHandle Info : Type 0} (d : DashMap (Node NodeHandle Info)) (target : String) where
  -- An error of accepting a connection changes nothing: the connections around it are served as
  -- they are without it.
  pub serve_tcp-accept_failed :
      (before after : List (TcpEvent d)) (e : String)
      → serve_tcp d target (before ++ accept_failed e ∷ after)
        ≡ serve_tcp d target (before ++ after)
  unfolding serve_tcp
  serve_tcp-accept_failed [] after e = refl
  serve_tcp-accept_failed (cancelled ∷ before) after e = refl
  serve_tcp-accept_failed (accept_failed e' ∷ before) after e =
      serve_tcp-accept_failed before after e
  serve_tcp-accept_failed (accepted m keepalive sent ∷ before) after e =
      rw (serve_tcp-accept_failed before after e) refl
