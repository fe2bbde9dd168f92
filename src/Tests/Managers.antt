-- ===== src/Tests/Managers.antt =====
-- The table of nodes, as an association list.
use crab_rs.Manager.Table.{find}
use crab_rs.Prelude.{ℕ, refl, arith, String}
use crab_rs.Manager.{DashMap, Node, new, insert, exists}
use crab_rs.Manager.Table.{table}
use crab_rs.Manager.Connections.{
  shaken, serving, moved, Network, start, Step, accept_handshake, node_accepted, IsExclusive, here,
  next, IsRegistered, ReachAlone-IsRegistered,
}

abbrev nodes : DashMap (Node ℕ ℕ)
nodes = table (Node ℕ ℕ)

-- Every connection leads to the node "a".
abbrev id_of : ℕ → String
id_of c = "a"

abbrev info_of : ℕ → ℕ
info_of c = 7

abbrev Net : Type 0
Net = Network nodes id_of info_of

abbrev start_net : Net
start_net = start nodes id_of info_of

abbrev shaken_net : Net
shaken_net = record start_net { phase = moved nodes id_of info_of 3 shaken start_net.phase }

first_step : Step nodes id_of info_of start_net shaken_net
unfolding exists new find
first_step = accept_handshake 3 refl refl

abbrev serving_net : Net
serving_net = record {
  nodes = insert nodes "a" 3 7 start_net.nodes;
  phase = moved nodes id_of info_of 3 serving shaken_net.phase;
}

second_step : Step nodes id_of info_of shaken_net serving_net
second_step = node_accepted 3 refl

shaken_net-IsExclusive : IsExclusive nodes id_of info_of shaken_net
shaken_net-IsExclusive = record { one = λ a b ha hb e. ground arith }

serving_net-IsExclusive : IsExclusive nodes id_of info_of serving_net
serving_net-IsExclusive = record { one = λ a b ha hb e. ground arith }

ReachAlone-IsRegistered_example : IsRegistered nodes id_of info_of serving_net
ReachAlone-IsRegistered_example =
    ReachAlone-IsRegistered nodes id_of info_of
      (next (next here first_step shaken_net-IsExclusive) second_step serving_net-IsExclusive)
