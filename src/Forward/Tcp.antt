-- ===== src/Forward/Tcp.antt =====
-- tcp.rs, tcp_util.rs and tcp_worker.rs.
use crab_rs.Prelude.{
  ℕ, String, Bool, true, false, Option, none, some, List, [], ◌∷◌, Result, ok, err, if◌then◌else◌,
}
use crab_rs.Prelude.Io.{Io, from, ◌>>=◌, ◌>>◌}
use crab_rs.Prelude.Bytes.{Bytes}
use crab_rs.Errors.{CrabError, error_code, io, join_error}
use crab_rs.Errors.Codes
use crab_rs.Message.{AckMessage}
use crab_rs.Transport.{Transport, Codec}
use crab_rs.Types.{SocketAddr}
use crab_rs.Udp.Address.{Address, resolve}
use crab_rs.Tasks.{send_or}
use crab_rs.Handle.{Handle}
use crab_rs.Manager.{DashMap, Node, Manager}
use crab_rs.Manager
use crab_rs.Command.Handlers.{Handler}
use crab_rs.Forward.Opening.{open_and_relay}

-- The numbers are seconds and a count, each an `u8`.
pub record TcpForwardParams : Type 0 where
  pub target_address : Address
  pub connect_timeout : ℕ
  pub keepalive_timeout : ℕ
  pub keepalive_interval : ℕ
  pub keepalive_retries : ℕ

pub record TcpKeepalive : Type 0 where
  pub time : ℕ
  pub interval : ℕ
  pub retries : ℕ

-- `impl From<&TcpForwardParams> for TcpKeepalive`
pub keepalive_of : TcpForwardParams → TcpKeepalive
keepalive_of value = record {
  time = value.keepalive_timeout;
  interval = value.keepalive_interval;
  retries = value.keepalive_retries;
}

-- `tokio::net::TcpStream`, with `timeout` of tokio: nothing if the time was over first.
pub record TcpSockets (W : Type 0) : Type 0 where
  pub lookup_host : Bytes → ℕ → Io String W (List SocketAddr)
  pub connect_in_time : ℕ → SocketAddr → W → Option (Result String (Unit {0})) × W
  pub set_tcp_keepalive : TcpKeepalive → Io String W (Unit {0})
  pub set_nodelay : Bool → Io String W (Unit {0})
  pub local_addr : Io String W SocketAddr
  -- `select!` between the token and both copies: nothing if the token came first
  pub copy_both : W → Option (Result String ℕ × Result String ℕ) × W

in_time : Option (Result String (Unit {0})) → Result CrabError (Unit {0})
in_time none = err (error_code Codes.timeout_error)
in_time (some (ok _)) = ok tt
in_time (some (err e)) = err (io e)

module _ {W : Type 0} (sockets : TcpSockets W) where
  -- `TcpForwardHandler::connect`; the name is looked up before the time runs.
  pub connect : TcpForwardParams → Io CrabError W SocketAddr
  unfolding in_time keepalive_of
  connect req = do
    target ← resolve sockets.lookup_host req.target_address
    λ w. let (r, w') = sockets.connect_in_time req.connect_timeout target w in (in_time r, w')
    from io (sockets.set_tcp_keepalive (keepalive_of req))
    from io (sockets.set_nodelay true)
    from io sockets.local_addr

  -- tcp_util.rs: an error of either copy is only logged.
  pub tcp_forward : Io CrabError W (Unit {0})
  tcp_forward w = (ok tt, (sockets.copy_both w).1)

  -- `TcpForwardHandler::handle`
  unfoldable pub handle_tcp_forward :
      ⦃t : Transport W⦄ ⦃ack : Codec AckMessage⦄ → Codec SocketAddr → TcpForwardParams → Handler W
  unfolding connect tcp_forward
  handle_tcp_forward addresses req = open_and_relay addresses (connect req) tcp_forward

  -- `TcpForwarder for Handle`; `command` makes the command from its parameters.
  unfoldable pub forward_tcp :
      {Command : Type 0}
      → (TcpForwardParams → Command)
      → Handle W Command
      → Codec SocketAddr
      → TcpForwardParams
      → Io CrabError W (Unit {0})
  unfolding tcp_forward
  forward_tcp command h addresses param = do
    (sender, _) ← h.exec_ack addresses (command param)
    send_or (error_code Codes.canceled_error) sender (ok tcp_forward)

-- The loop of `TcpForwarderWorker::serve`, one event for each round of its `select!`. An accepted
-- connection finds the table of nodes as it is then; whether its keepalive could be set, and whether
-- the worker could be sent, are the socket's and the channel's answers.
module _ {NodeHandle Info : Type 0} (d : DashMap (Node NodeHandle Info)) where
  pub data TcpEvent : Type 0 where
    cancelled : TcpEvent
    accept_failed : String → TcpEvent
    accepted : Manager d → Result String (Unit {0}) → Bool → TcpEvent

  -- What becomes of an accepted connection: whether the loop goes on, and the node that serves it.
  pub accept_tcp :
      Option (NodeHandle × Info) → Result String (Unit {0}) → Bool → Bool × Option NodeHandle
  accept_tcp none keepalive sent = (true, none)
  accept_tcp (some (handle, _)) (err e) sent = (true, none)
  accept_tcp (some (handle, _)) (ok _) false = (false, none)
  accept_tcp (some (handle, _)) (ok _) true = (true, some handle)

  abbrev keep_worker : Option NodeHandle → List NodeHandle → List NodeHandle
  keep_worker none rest = rest
  keep_worker (some handle) rest = handle ∷ rest

  -- The workers that were started, by the node that they forward to, in their order.
  unfoldable pub serve_tcp : String → List TcpEvent → List NodeHandle
  unfolding accept_tcp
  serve_tcp target [] = []
  serve_tcp target (cancelled ∷ events) = []
  serve_tcp target (accept_failed e ∷ events) = serve_tcp target events
  serve_tcp target (accepted m keepalive sent ∷ events) =
      let (goes_on, worker) = accept_tcp (Manager.get d target m) keepalive sent in
      let rest = serve_tcp target events in keep_worker worker (if goes_on then rest else [])

  -- `TcpForwarderWorker::serve`: once the port is bound, the loop, and then the end of the task that
  -- runs the workers, which `join` waits for.
  pub serve_forwarder :
      {W : Type 0}
      → (SocketAddr → Io String W (Unit {0}))
      → (List NodeHandle → Io String W (Unit {0}))
      → SocketAddr
      → String
      → List TcpEvent
      → Io CrabError W (Unit {0})
  unfolding serve_tcp
  serve_forwarder bind join listen target events = do
    from io (bind listen)
    from join_error (join (serve_tcp target events))
