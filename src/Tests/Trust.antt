-- ===== src/Tests/Trust.antt =====
-- The TLS configurations from certificates that are numbers.
use crab_rs.Prelude.{ℕ, ◌≡◌, refl, String, true, Option, some, List, [], ◌∷◌, ◌++◌, Result, ok}
use crab_rs.Tls.{Config, Roots, Rustls, default_config, load_root_cert, build_server_config}
use crab_rs.Tls.Laws.{IsSystem, IsOwn, load_root_cert-held}
use crab_rs.Tls.ClientAuth.{IsAuth, build_server_config-IsAuth}

pub added :
    (c : ℕ) (s s' : List ℕ)
    → ◌≡◌ {A = Result String (List ℕ)} (ok (s ++ c ∷ [])) (ok s')
    → s' ≡ s ++ c ∷ []
added c s s' e = cc

abbrev pub roots : Roots ℕ
roots = record {
  Store = List ℕ;
  empty = [];
  add = λ c s. ok (s ++ c ∷ []);
  held = λ s. s;
  held-empty = refl;
  held-add = added;
}

-- The system has the certificates 1 and 2, and every file has the certificate 3 and the key 9.
abbrev pub rustls : Rustls (Unit {0})
rustls = record {
  Cert = ℕ;
  Key = ℕ;
  roots = roots;
  Verifier = List ℕ;
  ServerConfig = Option (List ℕ);
  ClientConfig = List ℕ;
  toml_from_str = λ s. ok default_config;
  read_to_string = λ s w. (ok "", w);
  load_native_certs = λ w. (1 ∷ 2 ∷ [], w);
  certs = λ p w. (ok (ok 3 ∷ []), w);
  private_key = λ p w. (ok (some 9), w);
  client_verifier = λ s. ok s;
  server_config = λ auth certs key. ok auth;
  client_config = λ s own. ok s;
}

abbrev config : Config
config = record default_config { ca_path = some "ca.pem"; verify_client = true }

load_root_cert-held_example :
    (system own : List ℕ) × IsSystem rustls config tt system
    × IsOwn rustls config own
    × (1 ∷ 2 ∷ 3 ∷ [] ≡ system ++ own)
unfolding load_root_cert
load_root_cert-held_example = load_root_cert-held rustls config tt tt (1 ∷ 2 ∷ 3 ∷ []) refl

build_server_config-IsAuth_example :
    (auth : Option (List ℕ)) × (certs : List ℕ) × (key : ℕ) × (rustls.server_config auth certs key
      ≡ ok (some (1 ∷ 2 ∷ 3 ∷ [])))
    × IsAuth rustls config tt auth
unfolding build_server_config
build_server_config-IsAuth_example =
    build_server_config-IsAuth rustls config tt tt (some (1 ∷ 2 ∷ 3 ∷ [])) refl
