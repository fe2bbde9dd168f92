-- ===== src/Forward/Opening.antt =====
-- What the handlers of TCP and UDP forwarding have in common: a socket is opened, the peer is told
-- its address, and when the peer has agreed, the data is relayed.
use crab_rs.Prelude.Io.{Io, raise, match_on, ◌>>◌}
use crab_rs.Errors.{CrabError}
use crab_rs.Message.{AckMessage, success}
use crab_rs.Transport.{Transport, Codec}
use crab_rs.Stream.{read_ack, write_message, write_error}
use crab_rs.Types.{SocketAddr}
use crab_rs.Command.Handlers.{Handler}

unfoldable pub open_and_relay :
    {W : Type 0} ⦃t : Transport W⦄ ⦃ack : Codec AckMessage⦄
    → Codec SocketAddr
    → Io CrabError W SocketAddr
    → Io CrabError W (Unit {0})
    → Handler W
open_and_relay ⦃ack⦄ addresses open_socket relay h = do
  write_message ack h.method h.option success
  match_on open_socket (write_message addresses h.method h.option)
      (λ e. do write_error h.method h.option e; raise e)
  read_ack
  relay
