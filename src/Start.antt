-- ===== src/Start.antt =====
-- main.rs, app/config.rs and app/provider.rs: from the configuration to the workers that run.
--
-- TOML, the files, the crate hyper, the signals and what the workers do are taken as an interface.
pub mod Laws
use crab_rs.Prelude.{
  ℕ, String, Bool, true, false, Option, none, some, List, [], ◌∷◌, ◌++◌, map, Result, ok, err,
}
use crab_rs.Prelude.Io.{Io, pure, lift, from, ◌>>=◌, ◌>>◌}
use crab_rs.Errors.{CrabError, error_code, io}
use crab_rs.Errors.Codes
use crab_rs.Types.{SocketAddr}
use crab_rs.Tls
use crab_rs.Tls.{Rustls}
use crab_rs.Endpoint.Serve.{EndpointConfig, Quinn, local_endpoint}
use crab_rs.Forward.Tcp.{TcpForwardParams}
use crab_rs.Socks.Server
use crab_rs.Http.{create}
use crab_rs.Workers.{Joined}
use crab_rs.Workers.Exit.{Signals, serve_wait_exit, serve_workers}

-- `TcpForwardOption` of tcp_worker.rs
pub record TcpForwardOption : Type 0 where
  pub listen : SocketAddr
  pub target : String
  pub params : TcpForwardParams

pub record Config : Type 0 where
  pub node_id : String
  pub http_api : Option SocketAddr
  pub endpoint : EndpointConfig
  pub tls : Tls.Config
  pub tcp_forward : Option (List TcpForwardOption)
  pub socks5_proxy : Option (List Server.Config)

abbrev pub default_config_file : String
default_config_file = "@config.toml"

-- The workers that `start` may push.
pub data AppWorker : Type 0 where
  api : SocketAddr → AppWorker
  tcp_forwarder : TcpForwardOption → AppWorker
  socks5_server : Server.Config → AppWorker
  local_node : AppWorker

pub record Runtime (W : Type 0) : Type 1 where
  pub rustls : Rustls W
  pub quinn : Quinn W rustls.ServerConfig rustls.ClientConfig
  pub Client : Type 0
  pub connector : rustls.ClientConfig → ℕ → Client
  pub strip_at : String → Option String
  pub read_to_string : String → Io String W String
  pub toml_from_str : String → Result String Config
  pub signals : Signals W
  -- The join set of the workers, until all have ended: their results, in the order of their ends.
  pub join_set : List AppWorker → W → List Joined × W

-- `ServiceProvider`; the table of nodes that it shares is part of the world.
pub record Provider (Client : Type 0) : Type 0 where
  pub local_node_id : String
  pub tls_cfg : Tls.Config
  pub http_client : Client

abbrev pub or_none : {A : Type 0} → Option (List A) → List A
or_none none = []
or_none (some list) = list

abbrev pub apis : Option SocketAddr → List AppWorker
apis none = []
apis (some addr) = api addr ∷ []

-- The workers in the order in which they are pushed, the endpoint last.
unfoldable pub workers : Config → List AppWorker
workers cfg =
    apis cfg.http_api
    ++ map tcp_forwarder (or_none cfg.tcp_forward)
    ++ map socks5_server (or_none cfg.socks5_proxy)
    ++ local_node ∷ []

module _ {W : Type 0} (r : Runtime W) where
  parsed : Result String Config → Result CrabError Config
  parsed (ok cfg) = ok cfg
  parsed (err e) = err (error_code Codes.parse_error)

  parse_text : Option String → String → Io CrabError W Config
  unfolding parsed
  parse_text none s = lift (parsed (r.toml_from_str s))
  parse_text (some filename) s = do
    content ← from io (r.read_to_string filename)
    lift (parsed (r.toml_from_str content))

  -- `impl FromStr for Config`: the text itself, or the file that it names after an `@`.
  unfoldable pub from_str : String → Io CrabError W Config
  unfolding parse_text
  from_str s = parse_text (r.strip_at s) s

  -- `ServiceProvider::new`
  unfoldable pub new_provider : String → Tls.Config → Io CrabError W (Provider r.Client)
  new_provider node_id cfg = do
    http_client ← create r.rustls r.connector cfg
    pure (record { local_node_id = node_id; tls_cfg = cfg; http_client = http_client })

  unfoldable pub start : Config → Io CrabError W (Unit {0})
  unfolding new_provider workers serve_wait_exit serve_workers
  start cfg = do
    provider ← new_provider cfg.node_id cfg.tls
    local_endpoint r.rustls r.quinn provider.tls_cfg cfg.endpoint
    serve_wait_exit r.signals (serve_workers (r.join_set (workers cfg)))

  -- Whether `main` exits with success.
  abbrev pub succeeded : {A : Type 0} → Result CrabError A × W → Bool × W
  succeeded (ok _, w) = (true, w)
  succeeded (err e, w) = (false, w)

  unfoldable pub main : W → Bool × W
  unfolding from_str start
  main w = succeeded ((from_str default_config_file >>= start) w)
