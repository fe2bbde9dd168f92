-- ===== src/Command/Executor.antt =====
-- app/protocol/base.rs: the commands as a caller sends them through the handle of a node.
use crab_rs.Prelude.{String, Bool, List}
use crab_rs.Prelude.Io.{Io, pure, ◌>>=◌}
use crab_rs.Errors.{CrabError}
use crab_rs.Message.{AckMessage}
use crab_rs.Transport.{Transport, Codec}
use crab_rs.Stream.{read_message}
use crab_rs.Tasks.{Executor}
use crab_rs.Handle.{AckSender, Handle}
use crab_rs.Command.Files.{FileMetadata, DirEntry}
use crab_rs.Command.Handlers.{WriteFile}
use crab_rs.Command.Dispatch
use crab_rs.Command.Dispatch.{Command}

-- The callback of `ping` and `delete`: it reads nothing.
unfoldable pub no_answer : {W : Type 0} → Executor W (Unit {0})
no_answer = pure tt

module _ {W HttpRequest TcpForwardParams : Type 0} ⦃t : Transport W⦄ ⦃ack : Codec AckMessage⦄
    (h : Handle W (Command HttpRequest TcpForwardParams)) where
  unfoldable pub ping : Io CrabError W (Unit {0})
  unfolding no_answer
  ping = h.exec Dispatch.ping no_answer

  unfoldable pub delete : String → Bool → Io CrabError W (Unit {0})
  unfolding no_answer
  delete p dir = h.exec (Dispatch.delete (record { path = p; dir = dir })) no_answer

  unfoldable pub read_file :
      Codec FileMetadata → String → Io CrabError W (AckSender W × FileMetadata)
  read_file metadata filename = h.exec_ack metadata (Dispatch.read_file filename)

  unfoldable pub write_file : WriteFile → Io CrabError W (AckSender W)
  write_file cmd = do (sender, _) ← h.exec_ack ack (Dispatch.write_file cmd); pure sender

  unfoldable pub read_dir : Codec (List DirEntry) → String → Io CrabError W (List DirEntry)
  read_dir entries path = do
    (_, ret) ← h.exec (Dispatch.list_dir path) (read_message entries)
    pure ret
