-- ===== src/Endpoint/Serve.antt =====
-- endpoint.rs: an endpoint's configuration, how it is made, and the loops that it starts.
use crab_rs.Prelude.{
  String, Bool, true, false, Option, none, some, List, [], ◌∷◌, ◌++◌, Result, ok, err,
}
use crab_rs.Prelude.Io.{act, Io, lift, from, ◌>>=◌, ◌>>◌}
use crab_rs.Errors.{CrabError, error_code, io}
use crab_rs.Errors.Codes
use crab_rs.Types.{SocketAddr, Options}
use crab_rs.Tls.{Rustls, build_server_config, build_client_config}
use crab_rs.Tls

pub record EndpointConfig : Type 0 where
  pub bind_address : SocketAddr
  pub listen : Bool
  pub remote_addr : Option (List String)
  pub options : Options

pub data EndpointLoop : Type 0 where
  listen start_all_remote_node serve_all_connection : EndpointLoop

abbrev listeners : Bool → List EndpointLoop
listeners true = listen ∷ []
listeners false = []

abbrev connectors : Option (List String) → List EndpointLoop
connectors none = []
connectors (some remotes) = start_all_remote_node ∷ []

with_connections : List EndpointLoop → List EndpointLoop
with_connections [] = []
with_connections (l ∷ loops) = (l ∷ loops) ++ serve_all_connection ∷ []

-- The loops that `LocalEndpointInner::serve` spawns: none if there is nothing to wait for.
unfoldable pub spawned : EndpointConfig → List EndpointLoop
unfolding with_connections
spawned cfg = with_connections (listeners cfg.listen ++ connectors cfg.remote_addr)

-- The remotes of `start_all_remote_node`, for each of which `start_remote_node` is run.
unfoldable pub remotes : EndpointConfig → List String
remotes cfg = listed cfg.remote_addr
  where
    listed : Option (List String) → List String
    listed none = []
    listed (some list) = list

-- quinn: the conversion of the two TLS configurations, which may fail, and the endpoint.
pub record Quinn (W ServerConfig ClientConfig : Type 0) : Type 0 where
  pub quic_server_config : ServerConfig → Result String (Unit {0})
  pub quic_client_config : ClientConfig → Result String (Unit {0})
  pub server : ServerConfig → SocketAddr → Io String W (Unit {0})
  pub set_default_client_config : ClientConfig → W → W
  pub local_addr : Io String W SocketAddr

usable : Result String (Unit {0}) → Result CrabError (Unit {0})
usable (ok _) = ok tt
usable (err e) = err (error_code Codes.crypto_error)

-- `LocalEndpoint::new`: the address that the endpoint has.
unfoldable pub local_endpoint :
    {W : Type 0} (r : Rustls W)
    → Quinn W r.ServerConfig r.ClientConfig
    → Tls.Config
    → EndpointConfig
    → Io CrabError W SocketAddr
unfolding usable
local_endpoint r q tls cfg = do
  server_config ← build_server_config r tls
  lift (usable (q.quic_server_config server_config))
  client_config ← build_client_config r tls
  lift (usable (q.quic_client_config client_config))
  from io (q.server server_config cfg.bind_address)
  act (q.set_default_client_config client_config)
  from io q.local_addr
