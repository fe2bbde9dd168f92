-- ===== src/App.antt =====
-- app/types.rs and app/protocol/proto.rs: the protocol of the application, from its manager and the
-- handlers of its commands.
--
-- The manager is part of the world, and what the library sysinfo tells of the host comes from it.
pub mod Laws
use crab_rs.Prelude.{
  ℕ, String, Bool, true, false, Option, none, some, List, map, ok, ◌≡◌, if◌then◌else◌,
}
use crab_rs.Prelude.Io.{Io, pure, raise, ◌>>=◌}
use crab_rs.Errors.{CrabError, error_code}
use crab_rs.Errors.Codes
use crab_rs.Message.{MessageHeader, AckMessage}
use crab_rs.Transport.{Transport, Codec}
use crab_rs.Types.{NodeMetadata}
use crab_rs.Hook.{Protocol}
use crab_rs.Manager.{DashMap, Node, Manager, exists, insert, remove}
use crab_rs.Command.Dispatch.{Command, ping, Services, handle}

pub record DiskInfo : Type 0 where
  pub path : String
  pub size : ℕ
  pub free : ℕ

pub record HostInfo : Type 0 where
  pub version : String
  pub hostname : String
  pub os_version : String
  pub disk_info : List DiskInfo

pub record Handshake : Type 0 where
  pub device_id : String
  pub host_info : HostInfo

-- The crate sysinfo: the names of the host and of its system, where they are known, and for each disk
-- where it is mounted, its total and its available space.
pub record System : Type 0 where
  pub host_name : Option String
  pub long_os_version : Option String
  pub disks : List (String × ℕ × ℕ)

abbrev or_unknown : Option String → String
or_unknown none = "unknown"
or_unknown (some s) = s

abbrev disk_info : String × ℕ × ℕ → DiskInfo
disk_info (mount_point, total, available) = record {
  path = mount_point;
  size = total;
  free = available;
}

-- `HostInfo::new`, from the version that the program was built with.
unfoldable pub new_host_info : String → System → HostInfo
new_host_info version system = record {
  version = version;
  hostname = or_unknown system.host_name;
  os_version = or_unknown system.long_os_version;
  disk_info = map disk_info system.disks;
}

-- What the protocol has of its `ServiceProvider`: the manager's table is a part of the world, which
-- can be read and replaced.
pub record Provider (W Handle : Type 0) (d : DashMap (Node Handle Handshake)) : Type 0 where
  pub local_node_id : String
  pub host_info : W → HostInfo × W
  pub manager : W → Manager d
  pub set_manager : Manager d → W → W
  pub manager-set_manager : (m : Manager d) (w : W) → manager (set_manager m w) ≡ m

module _ {W Handle : Type 0} {d : DashMap (Node Handle Handshake)}
    (provider : Provider W Handle d) where
  pub make_handshake : Io CrabError W Handshake
  make_handshake w =
      let (info, w') = provider.host_info w in
      (ok (record { device_id = provider.local_node_id; host_info = info }), w')

  pub on_handshake : NodeMetadata → Handshake → Io CrabError W Handshake
  unfolding make_handshake
  on_handshake meta _ w =
      (if exists d meta.node_id (provider.manager w)
          then raise (error_code Codes.node_exists)
          else make_handshake)
        w

  pub on_node_accepted : NodeMetadata → Handle → Handshake → Io CrabError W (Unit {0})
  on_node_accepted meta h info w =
      (ok tt, provider.set_manager (insert d meta.node_id h info (provider.manager w)) w)

  pub on_node_exited : NodeMetadata → W → W
  on_node_exited meta w = provider.set_manager (remove d meta.node_id (provider.manager w)) w

module _ {W Handle HttpRequest TcpForwardParams : Type 0} ⦃t : Transport W⦄ ⦃ack : Codec AckMessage⦄
    {d : DashMap (Node Handle Handshake)} (provider : Provider W Handle d)
    (s : Services W HttpRequest TcpForwardParams) (handshake_codec : Codec Handshake)
    (command_codec : Codec (Command HttpRequest TcpForwardParams)) where
  -- `impl Protocol for AppProtocol`
  unfoldable pub app_protocol : Protocol W Handle
  unfolding on_handshake on_node_accepted on_node_exited make_handshake
  app_protocol = record {
    Handshake = Handshake;
    Heartbeat = Command HttpRequest TcpForwardParams;
    Command = Command HttpRequest TcpForwardParams;
    node_id = λ h. h.device_id;
    handshake_codec = handshake_codec;
    heartbeat_codec = command_codec;
    command_codec = command_codec;
    make_handshake = make_handshake provider;
    make_heartbeat = pure ping;
    on_handshake = on_handshake provider;
    on_heartbeat = λ _ _. pure ping;
    on_node_accepted = on_node_accepted provider;
    on_node_exited = on_node_exited provider;
    handle_command = λ _ (header, cmd). handle s cmd header;
  }
