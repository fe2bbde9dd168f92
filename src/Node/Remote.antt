-- ===== src/Node/Remote.antt =====
-- nodes.rs: a new node with its handle, and the two as `Node`.
use crab_rs.Prelude.{String, Bool}
use crab_rs.Types.{SocketAddr, NodeStatus, NodeMetadata, Options}
use crab_rs.Handle.{HandleInner}
use crab_rs.Node.{StatusCell, new_cell}
use crab_rs.Node.Tasks.{Tasks}
use crab_rs.Node.Tasks

-- `RemoteNodeInner`. The connection and the hook are those of the node's service; the ends of its
-- channels stand for the channels.
pub record RemoteNode (W : Type 0) : Type 0 where
  pub meta : NodeMetadata
  pub opts : Options
  pub status : StatusCell W
  pub tasks : Tasks

module _ {W : Type 0} where
  -- The handle that shares the node's metadata and its status channel.
  abbrev pub handle_of : RemoteNode W → HandleInner
  handle_of n = record { meta = n.meta; status_rx = n.status.status }

  -- `RemoteNode::new`: the node is ready, and no task was sent to it.
  unfoldable pub new : NodeMetadata → Options → W → RemoteNode W × HandleInner
  new meta opts world =
      let node : RemoteNode W = record {
        meta = meta;
        opts = opts;
        status = new_cell world;
        tasks = Tasks.start;
      } in
      (node, handle_of node)

  -- `impl Node for RemoteNode`
  module _ (n : RemoteNode W) where
    unfoldable pub id : String
    id = n.meta.node_id

    unfoldable pub status : NodeStatus
    status = n.status.status

    unfoldable pub addr : SocketAddr
    addr = n.meta.remote_addr

    unfoldable pub as_client : Bool
    as_client = n.meta.as_client
