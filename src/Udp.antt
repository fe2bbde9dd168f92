-- ===== src/Udp.antt =====
-- app/protocol/forwarder: addresses and packet headers (types.rs), packets on a stream and on a
-- socket (udp.rs), and the relay between the two (udp_util.rs).
pub mod Address
pub mod Header
pub mod Packet
pub mod Relay
pub mod HeaderLaws
pub mod PacketLaws
pub mod RelayLaws
pub mod Crossing
