-- ===== src/Socks/ServerLaws.antt =====
-- Which clients are served.
use crab_rs.Prelude.{String, List, [], ◌∷◌, ◌++◌, ◌≡◌, refl, ap}
use crab_rs.Manager.{DashMap, Node, Manager}
use crab_rs.Manager
use crab_rs.Socks.Server.{Config, AcceptEvent, cancelled, accept_failed, accepted, keep_sent, start}

module _ {NodeHandle Info : Type 0} (d : DashMap (Node NodeHandle Info)) (config : Config) where
  -- An error of accepting a client ends the server: whatever came before it, no client that comes
  -- after it is served.
  pub start-accept_failed :
      (before after : List (AcceptEvent d)) (e : String)
      → start d config (before ++ accept_failed e ∷ after) ≡ start d config before
  unfolding start
  start-accept_failed [] after e = refl
  start-accept_failed (cancelled ∷ before) after e = refl
  start-accept_failed (accept_failed e' ∷ before) after e = refl
  start-accept_failed (accepted m sent ∷ before) after e =
      ap (keep_sent d (Manager.get d config.target m) sent) (start-accept_failed before after e)
