-- ===== src/Command/Dispatch.antt =====
-- app/protocol/types.rs: the commands, and which handler a command gets.
--
-- The handlers of the HTTP proxy and of TCP and UDP forwarding are taken as actions.
use crab_rs.Prelude.{String, Option, List}
use crab_rs.Message.{AckMessage, success}
use crab_rs.Transport.{Transport, Codec}
use crab_rs.Stream.{write_message}
use crab_rs.Types.{SocketAddr}
use crab_rs.Command.Files.{FileSystem, Paths, Cancellation, FileMetadata, DirEntry}
use crab_rs.Command.Handlers.{
  DeleteCommand, WriteFile, Handler, handle_delete, handle_list_dir, handle_read_file,
  handle_write_file,
}

pub data Command (HttpRequest TcpForwardParams : Type 0) : Type 0 where
  ping : Command HttpRequest TcpForwardParams
  delete : DeleteCommand → Command HttpRequest TcpForwardParams
  read_file list_dir : String → Command HttpRequest TcpForwardParams
  write_file : WriteFile → Command HttpRequest TcpForwardParams
  http_proxy : HttpRequest → Command HttpRequest TcpForwardParams
  tcp_forward : TcpForwardParams → Command HttpRequest TcpForwardParams
  udp_forward : Option SocketAddr → Command HttpRequest TcpForwardParams

-- What a handler of a command may use.
pub record Services (W HttpRequest TcpForwardParams : Type 0) : Type 1 where
  pub fs : FileSystem W
  pub paths : Paths
  pub cancel : Cancellation W
  pub file_metadata : Codec FileMetadata
  pub dir_entries : Codec (List DirEntry)
  pub http_proxy : HttpRequest → Handler W
  pub tcp_forward : TcpForwardParams → Handler W
  pub udp_forward : Option SocketAddr → Handler W

module _ {W HttpRequest TcpForwardParams : Type 0} ⦃t : Transport W⦄ ⦃ack : Codec AckMessage⦄
    (s : Services W HttpRequest TcpForwardParams) where
  -- `impl CommandHandler for Command`
  unfoldable pub handle : Command HttpRequest TcpForwardParams → Handler W
  unfolding handle_delete handle_list_dir handle_read_file handle_write_file
  handle ping = λ header. write_message ack header.method header.option success
  handle (delete cmd) = handle_delete s.fs cmd
  handle (read_file path) = handle_read_file s.fs s.cancel s.file_metadata path
  handle (write_file cmd) = handle_write_file s.fs s.paths cmd s.cancel
  handle (list_dir path) = handle_list_dir s.fs s.dir_entries path
  handle (http_proxy req) = s.http_proxy req
  handle (tcp_forward req) = s.tcp_forward req
  handle (udp_forward req) = s.udp_forward req
