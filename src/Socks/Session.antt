-- ===== src/Socks/Session.antt =====
-- session.rs: what becomes of a client that asked for a connection or for an association.
use crab_rs.Prelude.{ℕ, String, Option, none, some, Result, ok, err, replicate, if◌then◌else◌}
use crab_rs.Prelude.Io.{Io, pure, raise, lift, from, match_on, ignore, ◌>>=◌, ◌>>◌}
use crab_rs.Prelude.Bytes.{Bytes}
use crab_rs.Prelude.Text.{◌<>◌}
use crab_rs.Errors.{CrabError, error_code, error_code_with_message, io}
use crab_rs.Errors.Codes
use crab_rs.Transport.{Codec}
use crab_rs.Types.{SocketAddr, v4}
use crab_rs.Udp.Address.{Address, is_utf8}
use crab_rs.Tasks.{Executor, send_or}
use crab_rs.Handle.{Handle}
use crab_rs.Forward.Tcp.{TcpForwardParams}

-- `socks5_server::proto`: addresses, a host being bytes, and the replies that the code uses.
pub data Socks5Addr : Type 0 where
  socket_address : SocketAddr → Socks5Addr
  domain_address : Bytes → ℕ → Socks5Addr

pub data Reply : Type 0 where
  succeeded address_type_not_supported network_unreachable command_not_supported : Reply

abbrev pub unspecified : Socks5Addr
unspecified = socket_address (v4 (replicate 4 0) 0)

-- The connection of a client that waits for a reply; the client is part of the world.
pub record Client (W : Type 0) : Type 0 where
  pub reply : Reply → Socks5Addr → Io String W (Unit {0})
  pub peer_addr : Io String W SocketAddr

-- `impl TryFrom<Socks5Addr> for Address`
unfoldable pub try_from : Socks5Addr → Result CrabError Address
try_from (socket_address address) = ok (Address.socket_address address)
try_from (domain_address host port) =
    if is_utf8 host
    then ok (Address.domain_address host port)
    else err (error_code Codes.bad_parameter)

abbrev pub default_timeout : ℕ
default_timeout = 10

abbrev pub default_keepalive_timeout : ℕ
default_keepalive_timeout = 60

abbrev pub default_keepalive_retry : ℕ
default_keepalive_retry = 15

abbrev pub default_keepalive_retry_interval : ℕ
default_keepalive_retry_interval = 3

pub forward_params : Address → TcpForwardParams
forward_params target = record {
  target_address = target;
  connect_timeout = default_timeout;
  keepalive_timeout = default_keepalive_timeout;
  keepalive_interval = default_keepalive_retry_interval;
  keepalive_retries = default_keepalive_retry;
}

-- `handle` is the node that forwards; of a command its maker is given, and `forward` is `tcp_forward`
-- between the client and the stream.
module _ {W Command : Type 0} (client : Client W) (handle : Handle W Command)
    (addresses : Codec SocketAddr) where
  -- `TcpSession::serve`
  unfoldable pub serve_tcp :
      (TcpForwardParams → Command) → Executor W (Unit {0}) → Socks5Addr → Io CrabError W (Unit {0})
  unfolding try_from forward_params
  serve_tcp command forward address = do
    target_address ←
        match_on (lift (try_from address)) pure
          (λ e. do ignore (from io (client.reply address_type_not_supported unspecified)); raise e)
    (sender, addr) ← handle.exec_ack addresses (command (forward_params target_address))
    from
        (λ e.
          error_code_with_message Codes.bad_status_error
            ("socks5 proxy forward tcp reply error " <> e))
        (client.reply succeeded (socket_address addr))
    send_or (error_code Codes.canceled_error) sender (ok forward)

  -- The socket that the client's datagrams come to; it is part of the world.
  pub record Associated : Type 0 where
    pub bind_localhost : Io String W (Unit {0})
    pub connect : SocketAddr → Io String W (Unit {0})
    pub local_addr : Io String W SocketAddr
    -- `select!` between the token, the end of the client's connection and `copy_udp_stream`
    pub copy_until_closed : W → Option (Result CrabError (Unit {0})) × W

  copied : Option (Result CrabError (Unit {0})) → Result CrabError (Unit {0})
  copied none = err (error_code Codes.canceled_error)
  copied (some r) = r

  module _ (sock : Associated) where
    -- `UdpSession::prepare`
    pub prepare : Io CrabError W SocketAddr
    prepare = do
      peer_addr ← from io client.peer_addr
      from io sock.bind_localhost
      from io (sock.connect peer_addr)
      from io sock.local_addr

    pub copy_udp : Executor W (Unit {0})
    unfolding copied
    copy_udp w = let (r, w') = sock.copy_until_closed w in (copied r, w')

    -- `UdpSession::serve`; `udp_forward` is the command.
    unfoldable pub serve_udp : Command → Io CrabError W (Unit {0})
    unfolding prepare copy_udp
    serve_udp udp_forward = do
      local_addr ← prepare
      (sender, _) ←
          match_on (handle.exec_ack addresses udp_forward) pure
            (λ e. do ignore (from io (client.reply network_unreachable unspecified)); raise e)
      from (error_code_with_message Codes.network_error)
          (client.reply succeeded (socket_address local_addr))
      send_or (error_code Codes.canceled_error) sender (ok copy_udp)
