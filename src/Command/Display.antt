-- ===== src/Command/Display.antt =====
-- app/protocol/types.rs: the printed form of a command.
use crab_rs.Prelude.{String, Bool, true, false}
use crab_rs.Prelude.Text.{◌<>◌}
use crab_rs.Command.Dispatch.{
  Command, ping, delete, read_file, list_dir, write_file, http_proxy, tcp_forward, udp_forward,
}

abbrev bool_to_string : Bool → String
bool_to_string true = "true"
bool_to_string false = "false"

-- `impl Display for Command`, from the printed forms of a request's URI and of a target's address
unfoldable pub to_string :
    {HttpRequest TcpForwardParams : Type 0}
    → (HttpRequest → String)
    → (TcpForwardParams → String)
    → Command HttpRequest TcpForwardParams
    → String
to_string uri address ping = "ping"
to_string uri address (delete cmd) = "delete(" <> cmd.path <> ")"
to_string uri address (read_file path) = "read_file(" <> path <> ")"
to_string uri address (write_file cmd) =
    "write_file("
    <> cmd.path
    <> ",mkdir="
    <> bool_to_string cmd.mkdir
    <> ",overwrite="
    <> bool_to_string cmd.overwrite
    <> ")"
to_string uri address (list_dir path) = "dir(" <> path <> ")"
to_string uri address (http_proxy req) = "http_proxy(" <> uri req <> ")"
to_string uri address (tcp_forward req) = "tcp_forward(" <> address req <> ")"
to_string uri address (udp_forward via) = "udp_forward"
