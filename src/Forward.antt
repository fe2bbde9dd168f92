-- ===== src/Forward.antt =====
-- app/protocol/forwarder: the handlers of the forwarding commands (http.rs, tcp.rs, udp.rs), and
-- the callers of these commands (http.rs, tcp_worker.rs).
--
-- The sockets, the name lookup, the copying between a socket and a stream and the timers are taken as
-- actions; the socket in use is part of the world.
pub mod Opening
pub mod Proxy
pub mod Tcp
pub mod Datagram
pub mod OpeningLaws
pub mod Calls
pub mod TcpLaws
pub mod DatagramLaws
pub mod Opened
pub mod Answered
pub mod ProxyLaws
