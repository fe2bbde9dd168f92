-- ===== src/Socks/Server.antt =====
-- server.rs and types.rs: the loop that accepts clients, and the handshake with one of them.
use crab_rs.Prelude.{String, Bool, true, false, Option, none, some, List, [], ◌∷◌, Result, ok, err}
use crab_rs.Prelude.Io.{Io, pure, raise, from, ignore, ◌>>=◌, ◌>>◌}
use crab_rs.Errors.{CrabError, error_code, io}
use crab_rs.Prelude.Bytes.{Bytes}
use crab_rs.Errors.Codes
use crab_rs.Types.{SocketAddr}
use crab_rs.Manager.{DashMap, Node, Manager}
use crab_rs.Manager
use crab_rs.Command.Files.{Cancellation}
use crab_rs.Command.Handlers.{or_cancelled}
use crab_rs.Tasks.{Sender, send_or}
use crab_rs.Socks.Session.{Socks5Addr, Reply, command_not_supported, unspecified}

pub data AuthConfig : Type 0 where
  no_auth : AuthConfig
  password : String → String → AuthConfig

pub record Config : Type 0 where
  pub listen : SocketAddr
  pub target : String
  pub auth : AuthConfig

-- What a client asks for, once it has authenticated itself.
pub data Request : Type 0 where
  associate : Request
  connect : Socks5Addr → Request
  bind : Request

-- `IncomingConnection` of the crate. An error of it is only logged.
pub record Incoming (W : Type 0) : Type 0 where
  pub authenticate : W → Result String (Unit {0}) × W
  pub wait : Io String W Request
  pub reply : Reply → Socks5Addr → Io String W (Unit {0})

-- `enum Session`, by the handle of the node that is to serve it
pub data Session (NodeHandle : Type 0) : Type 0 where
  tcp : NodeHandle → Socks5Addr → Session NodeHandle
  udp : NodeHandle → Session NodeHandle

module _ {W NodeHandle : Type 0} (cancel : Cancellation W) (stream : Incoming W)
    (sender : Sender W (Session NodeHandle)) (handle : NodeHandle) where
  pub send_session : Request → Io CrabError W (Unit {0})
  send_session associate = send_or (error_code Codes.canceled_error) sender (udp handle)
  send_session (connect address) =
      send_or (error_code Codes.canceled_error) sender (tcp handle address)
  send_session bind = do
    ignore (
        from (λ _. error_code Codes.unsupported_error)
          (stream.reply command_not_supported unspecified))
    raise (error_code Codes.unsupported_error)

  abbrev attempted : {A : Type 0} → Io String W A → Io CrabError W (Result String A)
  attempted m w = let (r, w') = m w in (ok r, w')

  -- The two matches of `Handshake::serve`, the last one first.
  answer_command : Result String Request → Io CrabError W (Unit {0})
  answer_command (ok cmd) = send_session cmd
  answer_command (err e) = pure tt

  wait_command : Result String (Unit {0}) → Io CrabError W (Unit {0})
  unfolding answer_command
  wait_command (ok _) = attempted stream.wait >>= answer_command
  wait_command (err e) = pure tt

  -- `Handshake::serve`: a client that fails is given up without an error.
  unfoldable pub serve_handshake : Io CrabError W (Unit {0})
  unfolding send_session wait_command
  serve_handshake = do conn ← or_cancelled cancel (attempted stream.authenticate); wait_command conn

-- The loop of `Socks5Server::start`, one event for each round of its `select!`. An accepted client
-- finds the table of nodes as it is then; a handshake that cannot be sent is only logged.
module _ {NodeHandle Info : Type 0} (d : DashMap (Node NodeHandle Info)) where
  pub data AcceptEvent : Type 0 where
    cancelled : AcceptEvent
    accept_failed : String → AcceptEvent
    accepted : Manager d → Bool → AcceptEvent

  abbrev pub keep_sent : Option (NodeHandle × Info) → Bool → List NodeHandle → List NodeHandle
  keep_sent none sent rest = rest
  keep_sent (some (handle, _)) true rest = handle ∷ rest
  keep_sent (some (handle, _)) false rest = rest

  -- The handshakes that were sent to be served, by the node that they are to use, in their order.
  unfoldable pub start : Config → List AcceptEvent → List NodeHandle
  start config [] = []
  start config (cancelled ∷ events) = []
  start config (accept_failed e ∷ events) = []
  start config (accepted m sent ∷ events) =
      keep_sent (Manager.get d config.target m) sent (start config events)

-- `socks5_server::auth`: what a client has to show.
pub data Authenticator : Type 0 where
  anyone : Authenticator
  user : Bytes → Bytes → Authenticator

-- The texts are handed on as their UTF-8.
unfoldable pub authenticator : (String → Bytes) → AuthConfig → Authenticator
authenticator into_bytes no_auth = anyone
authenticator into_bytes (password username word) = user (into_bytes username) (into_bytes word)

-- `Socks5Server::serve`; `run` is `start` up to the ends of the loops that it spawned.
unfoldable pub serve :
    {W : Type 0}
    → (SocketAddr → Io String W (Unit {0}))
    → (String → Bytes)
    → (Authenticator → Io CrabError W (Unit {0}))
    → Config
    → Io CrabError W (Unit {0})
unfolding authenticator
serve listen_on into_bytes run config = do
  from io (listen_on config.listen)
  run (authenticator into_bytes config.auth)
