-- ===== src/Socks/SessionLaws.antt =====
-- What a client of the server is told.
use crab_rs.Prelude.{ok, err, true, ◌≡◌, ◌≢◌, arith, refl, Result-cases, inl, inr}
use crab_rs.Prelude.Io.{Io, >>=-eq-ok, from, ◌>>◌}
use crab_rs.Prelude.Text.{◌<>◌}
use crab_rs.Errors.{CrabError, error_code, error_code_with_message}
use crab_rs.Errors.Codes
use crab_rs.Transport.{Codec}
use crab_rs.Types.{SocketAddr}
use crab_rs.Udp.Address.{Address}
use crab_rs.Tasks.{Executor, send_or}
use crab_rs.Handle.{Handle, AckSender}
use crab_rs.Forward.Tcp.{TcpForwardParams}
use crab_rs.Socks.Session.{
  Client, Socks5Addr, socket_address, succeeded, try_from, forward_params, serve_tcp,
}

module _ {W Command : Type 0} (client : Client W) (handle : Handle W Command)
    (addresses : Codec SocketAddr) where
  module _ (command : TcpForwardParams → Command) (forward : Executor W (Unit {0}))
      (address : Socks5Addr) where
    told : AckSender W → SocketAddr → Io CrabError W (Unit {0})
    told sender addr =
        from
          (λ e.
            error_code_with_message Codes.bad_status_error
              ("socks5 proxy forward tcp reply error " <> e))
          (client.reply succeeded (socket_address addr))
        >> send_or (error_code Codes.canceled_error) sender (ok forward)

    told-eq-ok :
        (sender : AckSender W) (addr : SocketAddr) (v w' : W)
        → told sender addr v ≡ (ok tt, w')
        → (u : W) × (client.reply succeeded (socket_address addr) v ≡ (ok tt, u))
          × (sender (ok forward) u ≡ (true, w'))
    unfolding told send_or
    told-eq-ok sender addr v w' h =
        ((client.reply succeeded (socket_address addr) v).1, ground arith, ground arith)

    refused :
        (e : CrabError)
        → try_from address ≡ err e
        → (w w' : W) → serve_tcp client handle addresses command forward address w ≢ (ok tt, w')
    unfolding serve_tcp
    refused e bad w w' h = ground arith

    -- If a connection is served, its target is an address for which the node has agreed, and then
    -- the client was told success and the address that the node gave, and then the node was handed
    -- what it is to run.
    pub serve_tcp-eq-ok :
        (w w' : W)
        → serve_tcp client handle addresses command forward address w ≡ (ok tt, w')
        → (target : Address) × (sender : AckSender W) × (addr : SocketAddr) × (v u : W) × (try_from
              address
            ≡ ok target)
          × (handle.exec_ack addresses (command (forward_params target)) w ≡ (ok (sender, addr), v))
          × (client.reply succeeded (socket_address addr) v ≡ (ok tt, u))
          × (sender (ok forward) u ≡ (true, w'))
    unfolding serve_tcp told
    serve_tcp-eq-ok w w' h = elim (Result-cases (try_from address)) [
      | inr (e, bad) ↦ absurd (refused e bad w w' h)
      | inl (target, good) ↦
          let ((sender, addr), v, e, rest) =
            >>=-eq-ok (handle.exec_ack addresses (command (forward_params target)))
              (λ (sender, addr). told sender addr) (rw good at h) in
          let (u, replied, sent) = told-eq-ok sender addr v w' rest in
          (target, sender, addr, v, u, good, e, replied, sent)
    ]

    -- If the node cannot make the connection, the session ends with the node's error, and the client
    -- is not told anything.
    pub serve_tcp-unreachable :
        (target : Address) (e : CrabError) (w v : W)
        → try_from address ≡ ok target
        → handle.exec_ack addresses (command (forward_params target)) w ≡ (err e, v)
        → serve_tcp client handle addresses command forward address w ≡ (err e, v)
    unfolding serve_tcp
    serve_tcp-unreachable target e w v good failed = rw good (rw failed refl)
