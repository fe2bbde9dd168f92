-- ===== src/Control/Nodes.antt =====
-- ctrl.rs: the handlers that ask a node, over the table of nodes as it is when the node is looked up.
--
-- The body of a request and the pipe of a response are taken as actions.
use crab_rs.Prelude.{ℕ, String, Bool, Option, none, some, List, Result, ok, err}
use crab_rs.Prelude.Io.{Io, pure, raise, lift, from, attempt, match_on, ignore, ◌>>=◌, ◌>>◌}
use crab_rs.Prelude.Text.{◌<>◌}
use crab_rs.Errors.{CrabError, error_code, io, to_string}
use crab_rs.Errors.Codes
use crab_rs.Message.{AckMessage}
use crab_rs.Transport.{Transport, Codec}
use crab_rs.Stream.{read_ack}
use crab_rs.Tasks.{Executor, send_or}
use crab_rs.Handle.{Handle, Channels, wrap}
use crab_rs.Manager.{DashMap, Node, Manager}
use crab_rs.Manager
use crab_rs.Command.Files.{FileMetadata, DirEntry, Cancellation}
use crab_rs.Command.Handlers.{WriteFile, or_cancelled}
use crab_rs.Command.Dispatch.{Command}
use crab_rs.Command.Executor.{ping, delete, read_file, write_file, read_dir}
use crab_rs.Control.Answers.{Ret, ret_error, ret_from, ret_from_result, StreamResponse, error, file}

-- What a handler of the interface uses beside the table.
pub record Pipes (W : Type 0) : Type 0 where
  pub write_text : String → Io String W ℕ
  -- `copy` from the stream to the pipe of the response, and from the request's body to the stream
  pub copy_from_stream : Io String W ℕ
  pub copy_to_stream : Io String W ℕ
  pub shutdown_pipe : Io String W (Unit {0})
  pub shutdown_stream : Io String W (Unit {0})

module _ {NodeHandle Info : Type 0} (d : DashMap (Node NodeHandle Info)) where
  info_or_error : Option (NodeHandle × Info) → Ret Info
  info_or_error none = ret_error (error_code Codes.node_already_exit)
  info_or_error (some (_, info)) = ret_from info

  unfoldable pub node_info : String → Manager d → Ret Info
  unfolding info_or_error
  node_info node_id m = info_or_error (Manager.get d node_id m)

module _ {W : Type 0} ⦃t : Transport W⦄ ⦃ack : Codec AckMessage⦄ (pipes : Pipes W) where
  -- What the stream of a file that is read goes through.
  unfoldable pub download : Executor W (Unit {0})
  download = do
    match_on read_ack pure
        (λ e. do ignore (from io (pipes.write_text ("read ack error " <> to_string e))); raise e)
    from io pipes.copy_from_stream
    from io pipes.shutdown_pipe

  unfoldable pub upload : Cancellation W → Executor W (Unit {0})
  upload cancel = do
    ret ← or_cancelled cancel (attempt (from io pipes.copy_to_stream))
    ignore (from io pipes.shutdown_stream)
    lift ret
    read_ack

module _ {W HttpRequest TcpForwardParams NodeHandle Info : Type 0} ⦃t : Transport W⦄
    ⦃ack : Codec AckMessage⦄ (d : DashMap (Node NodeHandle Info))
    (handle_of : NodeHandle → Handle W (Command HttpRequest TcpForwardParams)) where
  abbrev Asked : Type 0 → Type 1
  Asked A = Handle W (Command HttpRequest TcpForwardParams) → Io CrabError W A

  -- A question to the node that was found, or the error of a node that was not.
  abbrev ask : {A : Type 0} → Option (NodeHandle × Info) → Asked A → Io CrabError W A
  ask none f = raise (error_code Codes.node_already_exit)
  ask (some (h, _)) f = f (handle_of h)

  abbrev answer : {A : Type 0} → Io CrabError W A → W → Ret A × W
  answer m w = let (r, w') = m w in (ret_from_result r, w')

  module _ (m : Manager d) (node_id : String) where
    unfoldable pub node_ping : W → Ret (Unit {0}) × W
    node_ping = answer (ask (Manager.get d node_id m) ping)

    unfoldable pub node_remove_dir : String → Bool → W → Ret (Unit {0}) × W
    node_remove_dir path dir = answer (ask (Manager.get d node_id m) (λ h. delete h path dir))

    unfoldable pub node_list_dir : Codec (List DirEntry) → String → W → Ret (List DirEntry) × W
    node_list_dir entries path =
        answer (ask (Manager.get d node_id m) (λ h. read_dir h entries path))

    module _ (pipes : Pipes W) where
      abbrev streamed : Result CrabError FileMetadata × W → StreamResponse × W
      streamed (ok metadata, w) = (file metadata, w)
      streamed (err e, w) = (error (ret_error e), w)

      unfoldable pub read_node_file : Codec FileMetadata → String → W → StreamResponse × W
      unfolding download
      read_node_file metadata path w = streamed (
          ask (Manager.get d node_id m)
            (λ h. do
              (sender, m) ← read_file h metadata path
              send_or (error_code Codes.canceled_error) sender (ok (download pipes))
              pure m)
            w)

      -- The result of the upload comes back over a channel of its own.
      unfoldable pub node_write_file :
          Cancellation W → Channels W → WriteFile → W → Ret (Unit {0}) × W
      unfolding upload wrap
      node_write_file cancel channels param = answer (
          ask (Manager.get d node_id m) (λ h. do
            sender ← write_file h param
            (executor, err_rx) ← wrap channels (upload pipes cancel)
            send_or (error_code Codes.canceled_error) sender (ok executor)
            ret ← from (λ _. error_code Codes.canceled_error) err_rx
            lift ret))
