-- ===== src/Control/NodeLaws.antt =====
-- The handlers, for a node that is not in the table.
use crab_rs.Control.Answers.{ret_from_result}
use crab_rs.Prelude.{String, Bool, none, List, ◌≡◌, refl}
use crab_rs.Errors.{error_code}
use crab_rs.Errors.Codes
use crab_rs.Message.{AckMessage}
use crab_rs.Transport.{Transport, Codec}
use crab_rs.Handle.{Handle, Channels}
use crab_rs.Manager.{DashMap, Node, Manager}
use crab_rs.Manager
use crab_rs.Command.Files.{FileMetadata, DirEntry, Cancellation}
use crab_rs.Command.Handlers.{WriteFile}
use crab_rs.Command.Dispatch.{Command}
use crab_rs.Control.Answers.{Ret, ret_error, error}
use crab_rs.Control.Nodes.{
  Pipes, node_info, node_ping, node_remove_dir, node_list_dir, read_node_file, node_write_file,
}

abbrev pub exited : {D : Type 0} → Ret D
exited = ret_error (error_code Codes.node_already_exit)

module _ {W HttpRequest TcpForwardParams NodeHandle Info : Type 0} ⦃t : Transport W⦄
    ⦃ack : Codec AckMessage⦄ (d : DashMap (Node NodeHandle Info))
    (handle_of : NodeHandle → Handle W (Command HttpRequest TcpForwardParams)) (m : Manager d)
    (node_id : String) where
  -- Whatever is asked of a node that is not in the table, the answer is NODE_ALREADY_EXIT, and
  -- nothing else happens.
  pub unknown_node :
      (entries : Codec (List DirEntry)) (metadata : Codec FileMetadata) (pipes : Pipes W)
      (cancel : Cancellation W) (channels : Channels W) (path : String) (dir : Bool)
      (param : WriteFile) (w : W)
      → Manager.get d node_id m ≡ none
      → (node_info d node_id m ≡ exited)
        × (node_ping d handle_of m node_id w ≡ (exited, w))
        × (node_remove_dir d handle_of m node_id path dir w ≡ (exited, w))
        × (node_list_dir d handle_of m node_id entries path w ≡ (exited, w))
        × (read_node_file d handle_of m node_id pipes metadata path w ≡ (error exited, w))
        × (node_write_file d handle_of m node_id pipes cancel channels param w ≡ (exited, w))
  unfolding node_info node_ping node_remove_dir node_list_dir read_node_file node_write_file
      ret_error ret_from_result
  unknown_node entries metadata pipes cancel channels path dir param w gone =
      (rw gone refl, rw gone refl, rw gone refl, rw gone refl, rw gone refl, rw gone refl)
