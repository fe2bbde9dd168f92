-- ===== src/Control/Routes.antt =====
-- workers.rs and the routes of ctrl.rs: which handler a request gets, and the workers of the
-- interface.
--
-- A path is matched with a route, and a request served by its handler, by axum.
use crab_rs.Prelude.{String, List, [], ◌∷◌, ◌++◌, map}
use crab_rs.Prelude.Text.{◌<>◌}
use crab_rs.Prelude.Io.{Io, pure, from, ◌>>◌}
use crab_rs.Errors.{CrabError, io}
use crab_rs.Types.{SocketAddr}
use crab_rs.Workers.{Joined}
use crab_rs.Workers.Exit.{serve_workers}

pub data MethodFilter : Type 0 where
  get post delete any : MethodFilter

-- The handlers of ctrl.rs
pub data Endpoint : Type 0 where
  node_info node_ping node_remove_dir read_node_file node_write_file node_list_dir http_proxy :
      Endpoint

pub record Route : Type 0 where
  pub path : String
  pub filter : MethodFilter
  pub handler : Endpoint

abbrev pub route : String → MethodFilter → Endpoint → Route
route path filter handler = record { path = path; filter = filter; handler = handler }

-- `CtrlWorker::routers`
abbrev pub routers : List Route
routers =
    route "/{node_id}" get node_info
    ∷ route "/{node_id}/ping" get node_ping
    ∷ route "/{node_id}/dir" delete node_remove_dir
    ∷ route "/{node_id}/file" get read_node_file
    ∷ route "/{node_id}/file" post node_write_file
    ∷ route "/{node_id}/dir" get node_list_dir
    ∷ route "/{node_id}/proxy" any http_proxy
    ∷ route "/{node_id}/proxy/{*target_path}" any http_proxy
    ∷ []

-- A trait object `ApiWorker`
pub record ApiWorker : Type 0 where
  pub tag : String
  pub routes : List Route

-- `impl ApiWorker for CtrlWorker`
abbrev pub ctrl_worker : ApiWorker
ctrl_worker = record { tag = "ctrl"; routes = routers }

-- `Router::nest`
unfoldable pub nest : String → List Route → List Route
nest prefix routes = map (λ r. route (prefix <> r.path) r.filter r.handler) routes

-- The router that `BaseApiWorker::serve` builds.
unfoldable pub nested : List ApiWorker → List Route
unfolding nest
nested [] = []
nested (w ∷ workers) = nest ("/" <> w.tag) w.routes ++ nested workers

-- What the interface starts: its workers, and after them the HTTP server of all routes.
pub data Started : Type 0 where
  api_worker : ApiWorker → Started
  http_worker : SocketAddr → List Route → Started

unfoldable pub started : SocketAddr → List ApiWorker → List Started
unfolding nested
started addr workers = map api_worker workers ++ http_worker addr (nested workers) ∷ []

module _ {W : Type 0} where
  -- `impl Worker for CtrlWorker`
  unfoldable pub serve_ctrl : Io CrabError W (Unit {0})
  serve_ctrl = pure tt

  -- `impl Worker for HttpWorker`; `serve` is the server of axum, which ends with the token.
  unfoldable pub serve_http :
      (SocketAddr → Io String W (Unit {0}))
      → Io String W (Unit {0})
      → SocketAddr
      → Io CrabError W (Unit {0})
  serve_http bind serve addr = do from io (bind addr); from io serve

  -- `impl Worker for BaseApiWorker`, over the join set of what it starts
  unfoldable pub serve_api :
      (List Started → W → List Joined × W) → SocketAddr → List ApiWorker → Io CrabError W (Unit {0})
  unfolding started serve_workers
  serve_api join_set addr workers = serve_workers (join_set (started addr workers))
