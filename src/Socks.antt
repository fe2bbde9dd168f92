-- ===== src/Socks.antt =====
-- app/protocol/socks5: a SOCKS5 server whose connections and datagrams another node forwards.
--
-- The crate `socks5_server` speaks the protocol; its connections are taken as actions, the sockets as
-- in Forward.
pub mod Session
pub mod Server
pub mod SessionLaws
pub mod ServerLaws
