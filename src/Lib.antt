-- ===== src/Lib.antt =====
-- A model of crab, nodes that serve each other commands over QUIC streams.
--
-- Two layers. The library (src/crab) carries messages: a header and a payload on a stream
-- (proto/types.rs, proto/util.rs), a handshake and heartbeats (proto/hook_wrapper.rs), the tasks of a
-- node (proto/tasks.rs, node_handle.rs), the life of a node (nodes.rs), the endpoint that comes to its
-- nodes (endpoint.rs), and the loops that run all these (utils/runit.rs). The application (src/app)
-- fills in the protocol (protocol/proto.rs) with its table of nodes (manager.rs), the commands
-- (protocol/types.rs, protocol/commands.rs, protocol/base.rs), the forwarding of connections, requests
-- and datagrams (protocol/forwarder), a SOCKS5 server (protocol/socks5) and an HTTP interface that
-- controls the nodes (workers/ctrl).
--
--   Errors          src/crab/errors.rs; Errors.Codes has the constants
--   Message         src/crab/proto/types.rs; Header and Ack have its laws
--   Transport       a stream and an encoding, as the libraries quinn and bincode give them
--   Stream          src/crab/proto/util.rs: MessageReader, MessageWriter and Stream as one
--   Types           src/crab/types.rs, and the addresses of the standard library
--   Hook            src/crab/proto/hook.rs, src/crab/proto/hook_wrapper.rs: ProtoWrapper::handshake is
--                   accept_handshake, and ProtoWrapper::heartbeat is serve_heartbeat; Methods has the
--                   trait Hook, and Meeting both sides of a handshake
--   Tasks           src/crab/proto/tasks.rs, and the sending of a task in src/crab/node_handle.rs
--   Handle          src/crab/node_handle.rs: the calls of a node's handle
--   Node            src/crab/nodes.rs: RemoteNode and RemoteNodeInner; Tasks has the steps of
--                   serve_all_tasks, and Streams those of accept and handle_all_streams; Remote has a new
--                   node with its handle; Status has the life of a node
--   Endpoint        src/crab/endpoint.rs and parse_remote_addr of src/crab/utils.rs; Pipeline has the
--                   steps of listen, serve_all_connection and serve_all_node, and Refines what the
--                   table sees of them; Rounds has the loop of start_remote_node; Race has two
--                   connections to one node id; Serve has
--                   EndpointConfig, LocalEndpoint::new and what serve and start_all_remote_node start
--   Workers         src/crab/utils/runit.rs, src/crab/utils/runit/utils.rs; Exit has the worker that a
--                   signal ends, with src/crab/utils/runit/linux.rs and src/crab/utils/runit/win.rs
--   Manager         src/app/manager.rs; Connections has its use by connections side by side, and Table
--                   an association list with the laws of the map
--   App             src/app/types.rs, src/app/protocol/proto.rs
--   Command         Files and Handlers: src/app/protocol/util.rs and src/app/protocol/commands.rs;
--                   Drives is the listing on Windows; Dispatch and Display: src/app/protocol/types.rs;
--                   Executor: src/app/protocol/base.rs; Calls has a caller and the handler of the other
--                   node together, Stages the caller of a task of two stages. Disk is what a file system
--                   promises, against which Upload, Download and Transfer are proved
--   Udp             src/app/protocol/forwarder: types.rs (Address, Header), udp.rs (Packet) and
--                   udp_util.rs (Relay); Crossing has a datagram on its way between two nodes
--   Forward         src/app/protocol/forwarder: Opening is what tcp.rs and udp.rs share, Tcp is tcp.rs,
--                   tcp_util.rs and tcp_worker.rs, Datagram is the handler in udp.rs, Proxy is http.rs;
--                   Calls, Opened and ProxyLaws have a caller and the handler of the other node together
--   Http            src/app/utils/http.rs
--   Socks           src/app/protocol/socks5: session.rs (Session), server.rs and types.rs (Server)
--   Control         src/app/workers/ctrl: types.rs (Answers), and the handlers of ctrl.rs that ask a node
--                   (Nodes) and that have a request sent by one (Proxy); Routes is workers.rs and the
--                   routes of ctrl.rs. UploadLaws and DownloadLaws have a client and the handler of
--                   the node together
--   Tls             src/crab/utils/crypto.rs
--   Start           src/main.rs, src/app/config.rs, src/app/provider.rs
--   Prelude         shared names, bytes, and Io: fallible actions on a world
--   Tests           the theorems at concrete inputs
--
-- An async function is an action on a world (Prelude.Io): it gives a result or an error, and the world
-- comes back beside either. The stream in use, the file system, the cancellation token and the table
-- of nodes are parts of the world. A choice of `tokio::select!` is the outcome of an action that is a
-- parameter, so that a theorem covers every outcome. Steps of tasks that run side by side are the
-- steps of a relation (Manager.Connections, Endpoint.Pipeline, Node.Tasks, Node.Streams, Workers).
--
-- Parameters, with the laws that are used of them: the QUIC stream (Transport, IsReliable), the
-- encoding of a type (Codec, RoundTrips), the map of the manager (DashMap), the map of HTTP headers
-- (HeaderMap), the file system (IsStore), the paths and the cancellation of the commands, the sockets (IsSocket) and the
-- name lookup, the client of hyper, the connections of socks5_server, URLs, rustls with its store of
-- roots (Roots), timers, channels and signals.
--
-- Numbers are unbounded with the bounds of their types written out: the length of a payload is taken
-- modulo 2^32, that of a packet's fields modulo 2^16, and IsHeader and IsPacketHeader say what the
-- fields can hold. A payload has at most 16 MiB, and a packet is read into 1500 bytes. Three loops may
-- run for ever: the heartbeat of a node, the attempts at a remote, and the copying of datagrams. They
-- take fuel, the relay of datagrams a sequence of turns; the first two give nothing when it runs out.
-- Either of the first two returns on any fuel above the number of rounds that another one follows.
--
-- Not modelled: the matching of a request with a route and the server of axum; the printed forms of
-- addresses, which only the log uses; the constructors and accessors that store or return a field. The
-- dispatch of commands takes the handlers of Forward as arguments. What the workers do until they end is
-- one action, the join set of the start of the program and of the control interface. Of the two copies of
-- a UDP relay, the round that is under way when the other copy ends is left out.
pub mod Prelude
pub mod Errors
pub mod Message
pub mod Transport
pub mod Stream
pub mod Types
pub mod Hook
pub mod Tasks
pub mod Manager
pub mod Udp
pub mod Command
pub mod Node
pub mod Forward
pub mod Http
pub mod Handle
pub mod Control
pub mod Tls
pub mod Start
pub mod Socks
pub mod Tests
pub mod App
pub mod Endpoint
pub mod Workers
