-- ===== src/Types.antt =====
-- crab/types.rs, and the address types of the standard library that the program uses.
use crab_rs.Prelude.{ℕ, String, Bool}
use crab_rs.Prelude.Bytes.{Bytes}

-- std::net::SocketAddr. An IPv6 address also has its flow information and its scope.
pub data SocketAddr : Type 0 where
  v4 : Bytes → ℕ → SocketAddr
  v6 : Bytes → ℕ → ℕ → ℕ → SocketAddr

pub data NodeStatus : Type 0 where
  ready running stopping stopped : NodeStatus

pub NodeStatus-discrete : Discrete NodeStatus
NodeStatus-discrete = hlevel

-- `impl Display for NodeStatus`
unfoldable pub status_to_string : NodeStatus → String
status_to_string ready = "Ready"
status_to_string running = "Running"
status_to_string stopping = "Stopping"
status_to_string stopped = "Stopped"

-- Durations are in seconds.
pub record Options : Type 0 where
  pub connect_timeout : ℕ
  pub handshake_timeout : ℕ
  pub first_heartbeat : ℕ
  pub heartbeat_interval : ℕ
  pub heartbeat_timeout : ℕ

abbrev pub default_options : Options
default_options = record {
  connect_timeout = 10;
  handshake_timeout = 10;
  first_heartbeat = 3;
  heartbeat_interval = 15;
  heartbeat_timeout = 30;
}

pub record NodeMetadata : Type 0 where
  pub node_id : String
  pub remote_addr : SocketAddr
  pub as_client : Bool
