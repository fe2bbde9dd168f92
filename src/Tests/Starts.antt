-- ===== src/Tests/Starts.antt =====
-- The program with one worker that ends, over the TLS configurations of Tests.Trust.
use crab_rs.Workers.{serve_vec}
use crab_rs.Tls.{build_server_config}
use crab_rs.Endpoint.Serve.{local_endpoint}
use crab_rs.Tls.{build_client_config}
use crab_rs.Http.{create}
use crab_rs.Prelude.{ℕ, refl, true, Option, none, some, List, [], ◌∷◌, ok}
use crab_rs.Types.{SocketAddr, v4, default_options}
use crab_rs.Tls.{default_config}
use crab_rs.Endpoint.Serve.{Quinn}
use crab_rs.Workers.Exit.{Signals}
use crab_rs.Start.{Config, Runtime, main}
use crab_rs.Start.Laws.{IsRun, main-IsRun}
use crab_rs.Tests.Trust.{rustls}

abbrev anywhere : SocketAddr
anywhere = v4 (0 ∷ 0 ∷ 0 ∷ 0 ∷ []) 0

abbrev quinn : Quinn (Unit {0}) (Option (List ℕ)) (List ℕ)
quinn = record {
  quic_server_config = λ c. ok tt;
  quic_client_config = λ c. ok tt;
  server = λ c a w. (ok tt, w);
  set_default_client_config = λ c w. w;
  local_addr = λ w. (ok anywhere, w);
}

abbrev signals : Signals (Unit {0})
signals = record {
  signal = λ k w. (ok tt, w);
  first = λ w. w;
  cancel = λ w. w;
  spawn = λ task w. (task w).1;
}

abbrev config : Config
config = record {
  node_id = "a";
  http_api = none;
  endpoint = record {
    bind_address = anywhere;
    listen = true;
    remote_addr = none;
    options = default_options;
  };
  tls = default_config;
  tcp_forward = none;
  socks5_proxy = none;
}

-- Its workers all end without an error.
abbrev runtime : Runtime (Unit {0})
runtime = record {
  rustls = rustls;
  quinn = quinn;
  Client = List ℕ;
  connector = λ c seconds. c;
  strip_at = λ s. some "config.toml";
  read_to_string = λ s w. (ok "", w);
  toml_from_str = λ s. ok config;
  signals = signals;
  join_set = λ workers w. (ok (ok tt) ∷ [], w);
}

main-IsRun_example : IsRun runtime tt
unfolding main create build_client_config local_endpoint build_server_config serve_vec
main-IsRun_example = (main-IsRun runtime tt).0 refl
