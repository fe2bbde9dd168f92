-- ===== src/Tls/ClientAuth.antt =====
-- Whom a server lets in.
use crab_rs.Prelude.{
  String, Bool, true, false, Option, none, some, List, Result, ok, err, map_err, ◌≡◌, refl,
}
use crab_rs.Prelude.Io.{>>=-eq-ok, lift, pure, ◌>>=◌}
use crab_rs.Errors.{CrabError, tls, tls_verifier}
use crab_rs.Tls.{
  Config, Rustls, load_root_cert, build_server_config, client_auth, load_cert, load_priv_key,
}

module _ {W : Type 0} (r : Rustls W) where
  open r use {Cert, roots}

  lifted :
      {A : Type 0} (f : String → CrabError) (x : Result String A) {a : A} {w v : W}
      → lift (map_err f x) w ≡ (ok a, v)
      → x ≡ ok a
  lifted f (ok b) h = cc
  lifted f (err e) h = cc

  -- Whom a server with this authentication lets in: everyone, or the clients whose certificate stands
  -- against the roots.
  pub record IsAuth (cfg : Config) (w : W) (auth : Option r.Verifier) : Type 0 where
    pub everyone : cfg.verify_client ≡ false → auth ≡ none
    pub verified :
        cfg.verify_client ≡ true
        → (s : roots.Store) × (v : W) × (verifier : r.Verifier) × (load_root_cert r cfg w
            ≡ (ok s, v))
          × (r.client_verifier s ≡ ok verifier)
          × (auth ≡ some verifier)

  client_auth-IsAuth :
      (cfg : Config) (verify : Bool) (same : cfg.verify_client ≡ verify) (w v : W)
      (auth : Option r.Verifier)
      → client_auth r cfg verify w ≡ (ok auth, v)
      → IsAuth cfg w auth
  unfolding client_auth
  client_auth-IsAuth cfg false same w v auth h = record {
    everyone = λ e. cc;
    verified = λ e. cc (e, same);
  }
  client_auth-IsAuth cfg true same w v auth h =
      let (s, u, e, rest) =
        >>=-eq-ok (load_root_cert r cfg)
          (λ root_ca. lift (map_err tls_verifier (r.client_verifier root_ca)) >>= λ verifier.
            pure (some verifier))
          h in
      let (verifier, u', e', done) =
        >>=-eq-ok (lift (map_err tls_verifier (r.client_verifier s)))
          (λ verifier. pure (some verifier)) rest in
      record {
        everyone = λ e. cc (e, same);
        verified = λ _. (s, u, verifier, e, lifted tls_verifier (r.client_verifier s) e', cc);
      }

  -- A server configuration that is made asks for a certificate of the client just if the
  -- configuration says so, and then takes the clients whose certificates stand against the roots that
  -- the node trusts.
  pub build_server_config-IsAuth :
      (cfg : Config) (w w' : W) (c : r.ServerConfig)
      → build_server_config r cfg w ≡ (ok c, w')
      → (auth : Option r.Verifier) × (certs : List Cert) × (key : r.Key) × (r.server_config auth
            certs key
          ≡ ok c)
        × IsAuth cfg w auth
  unfolding build_server_config
  build_server_config-IsAuth cfg w w' c h =
      let (auth, v, e, rest) =
        >>=-eq-ok (client_auth r cfg cfg.verify_client)
          (λ auth. load_cert r cfg >>= λ certs.
            load_priv_key r cfg >>= λ key. lift (map_err tls (r.server_config auth certs key)))
          h in
      let (certs, v', e', rest') =
        >>=-eq-ok (load_cert r cfg)
          (λ certs.
            load_priv_key r cfg >>= λ key. lift (map_err tls (r.server_config auth certs key)))
          rest in
      let (key, u, e'', rest'') =
        >>=-eq-ok (load_priv_key r cfg) (λ key. lift (map_err tls (r.server_config auth certs key)))
          rest' in
      (
        auth,
        certs,
        key,
        lifted tls (r.server_config auth certs key) rest'',
        client_auth-IsAuth cfg cfg.verify_client refl w v auth e,
      )
