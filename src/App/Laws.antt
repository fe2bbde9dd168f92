-- ===== src/App/Laws.antt =====
-- The manager's table as the application's protocol keeps it, up to a handshake on a stream.
use crab_rs.Prelude.{◌≡◌, err, eq_iff, arith}
use crab_rs.Errors.{error_code}
use crab_rs.Errors.Codes
use crab_rs.Types.{NodeMetadata}
use crab_rs.Manager.{DashMap, Node}
use crab_rs.Manager.Laws.{exists-insert, exists-remove}
use crab_rs.App.{
  Handshake, Provider, make_handshake, on_handshake, on_node_accepted, on_node_exited,
}

module _ {W Handle : Type 0} {d : DashMap (Node Handle Handshake)}
    (provider : Provider W Handle d) where
  -- From the acceptance of a node on, a handshake under its node id is refused with NODE_EXISTS;
  -- after its exit, one is answered.
  pub on_handshake-on_node_accepted :
      (meta : NodeMetadata) (h : Handle) (info packet : Handshake) (w : W)
      → let accepted = (on_node_accepted provider meta h info w).1 in
        let exited = on_node_exited provider meta accepted in
        (on_handshake provider meta packet accepted
          ≡ (err (error_code Codes.node_exists), accepted))
        × (on_handshake provider meta packet exited ≡ make_handshake provider exited)
  unfolding on_handshake on_node_accepted on_node_exited
  on_handshake-on_node_accepted meta h info packet w = (
    rw (provider.manager-set_manager, exists-insert)
        (ground (arith, eq_iff meta.node_id meta.node_id)),
    rw (provider.manager-set_manager, exists-remove)
        (ground (arith, eq_iff meta.node_id meta.node_id)),
  )
