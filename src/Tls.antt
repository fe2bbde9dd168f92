-- ===== src/Tls.antt =====
-- crab/utils/crypto.rs: the TLS configurations of the two sides, made from one `Config`.
--
-- rustls, rustls_pemfile, the system's certificates and the files are taken as an interface; a failure
-- of these is a text.
pub mod Laws
pub mod ClientAuth
use crab_rs.Prelude.{
  String, Bool, true, false, Option, none, some, List, [], ◌∷◌, ◌++◌, Result, ok, err, map_err,
  if◌then◌else◌, ◌≡◌,
}
use crab_rs.Prelude.Io.{Io, pure, raise, lift, from, match_on, ◌>>=◌, ◌>>◌}
use crab_rs.Errors.{CrabError, error_code, tls, io, tls_verifier}
use crab_rs.Errors.Codes

pub record Config : Type 0 where
  pub use_system_ca : Bool
  pub ca_path : Option String
  pub priv_key : String
  pub cert : String
  pub verify_client : Bool

abbrev pub default_priv_key : String
default_priv_key = "private.key"

abbrev pub default_cert : String
default_cert = "cert.pem"

abbrev pub default_config_filename : String
default_config_filename = "config.toml"

-- `impl Default for Config`
abbrev pub default_config : Config
default_config = record {
  use_system_ca = true;
  ca_path = none;
  priv_key = default_priv_key;
  cert = default_cert;
  verify_client = false;
}

-- `RootCertStore`: it holds the certificates that were added, in their order.
pub record Roots (Cert : Type 0) : Type 1 where
  pub Store : Type 0
  pub empty : Store
  pub add : Cert → Store → Result String Store
  pub held : Store → List Cert
  pub held-empty : held empty ≡ []
  pub held-add : (c : Cert) (s s' : Store) → add c s ≡ ok s' → held s' ≡ held s ++ c ∷ []

-- The files and the builders. A file gives its certificates one after the other, and its key if it
-- has one.
pub record Rustls (W : Type 0) : Type 1 where
  pub Cert : Type 0
  pub Key : Type 0
  pub roots : Roots Cert
  pub Verifier : Type 0
  pub ServerConfig : Type 0
  pub ClientConfig : Type 0
  pub toml_from_str : String → Result String Config
  pub read_to_string : String → Io String W String
  pub load_native_certs : W → List Cert × W
  pub certs : String → Io String W (List (Result String Cert))
  pub private_key : String → Io String W (Option Key)
  pub client_verifier : roots.Store → Result String Verifier
  pub server_config : Option Verifier → List Cert → Key → Result String ServerConfig
  pub client_config : roots.Store → Option (List Cert × Key) → Result String ClientConfig

module _ {W : Type 0} (r : Rustls W) where
  open r use {Cert, roots}

  or_default : Result String Config → Config
  or_default (ok cfg) = cfg
  or_default (err e) = default_config

  -- `Config::load_config_file`: a file that cannot be read or understood gives the default.
  unfoldable pub load_config_file : String → Io CrabError W Config
  unfolding or_default
  load_config_file filename =
      match_on (from io (r.read_to_string filename))
        (λ content. pure (or_default (r.toml_from_str content))) (λ e. pure default_config)

  -- `Config::load_default_config_file`, and with it `TLSProvider::from_default_config_file`, whose
  -- provider is its configuration.
  unfoldable pub load_default_config_file : Io CrabError W Config
  unfolding load_config_file
  load_default_config_file = load_config_file default_config_filename

  -- The two `try_for_each` of `load_root_cert`.
  unfoldable pub add_native : List Cert → roots.Store → Io CrabError W roots.Store
  add_native [] store = pure store
  add_native (c ∷ certs) store = lift (map_err tls (roots.add c store)) >>= add_native certs

  unfoldable pub add_read : List (Result String Cert) → roots.Store → Io CrabError W roots.Store
  add_read [] store = pure store
  add_read (err e ∷ certs) store = raise (io e)
  add_read (ok c ∷ certs) store = lift (map_err tls (roots.add c store)) >>= add_read certs

  add_system : Bool → roots.Store → Io CrabError W roots.Store
  unfolding add_native
  add_system true store w = let (certs, w') = r.load_native_certs w in add_native certs store w'
  add_system false store w = (ok store, w)

  add_file : Option String → roots.Store → Io CrabError W roots.Store
  unfolding add_read
  add_file none store = pure store
  add_file (some ca_path) store = do certs ← from io (r.certs ca_path); add_read certs store

  module _ (cfg : Config) where
    -- `TLSProvider::load_root_cert`
    unfoldable pub load_root_cert : Io CrabError W roots.Store
    unfolding add_system add_file
    load_root_cert = add_system cfg.use_system_ca roots.empty >>= add_file cfg.ca_path

    collected : List (Result String Cert) → Result String (List Cert)
    collected [] = ok []
    collected (err e ∷ certs) = err e
    collected (ok c ∷ certs) = with_first c (collected certs)
      where
        with_first : Cert → Result String (List Cert) → Result String (List Cert)
        with_first c (ok certs) = ok (c ∷ certs)
        with_first c (err e) = err e

    unfoldable pub load_cert : Io CrabError W (List Cert)
    unfolding collected
    load_cert = do certs ← from io (r.certs cfg.cert); lift (map_err io (collected certs))

    key_or_missing : Option r.Key → Result CrabError r.Key
    key_or_missing none = err (error_code Codes.key_not_found)
    key_or_missing (some key) = ok key

    unfoldable pub load_priv_key : Io CrabError W r.Key
    unfolding key_or_missing
    load_priv_key = do key ← from io (r.private_key cfg.priv_key); lift (key_or_missing key)

    -- Whom a server asks for a certificate: the clients whose roots are those of the server.
    client_auth : Bool → Io CrabError W (Option r.Verifier)
    unfolding load_root_cert
    client_auth false = pure none
    client_auth true = do
      root_ca ← load_root_cert
      verifier ← lift (map_err tls_verifier (r.client_verifier root_ca))
      pure (some verifier)

    -- `TLSProvider::build_server_config`
    unfoldable pub build_server_config : Io CrabError W r.ServerConfig
    unfolding client_auth load_cert load_priv_key
    build_server_config = do
      auth ← client_auth cfg.verify_client
      certs ← load_cert
      key ← load_priv_key
      lift (map_err tls (r.server_config auth certs key))

    own_cert : Bool → Io CrabError W (Option (List Cert × r.Key))
    unfolding load_cert load_priv_key
    own_cert false = pure none
    own_cert true = do certs ← load_cert; key ← load_priv_key; pure (some (certs, key))

    -- `TLSProvider::build_client_config`
    unfoldable pub build_client_config : Io CrabError W r.ClientConfig
    unfolding load_root_cert own_cert
    build_client_config = do
      root_ca ← load_root_cert
      own ← own_cert cfg.verify_client
      lift (map_err tls (r.client_config root_ca own))
