-- ===== src/Start/Laws.antt =====
-- When the program exits with success.
use crab_rs.Prelude.{true, Option, none, some, ◌≡◌, ◌↔◌, refl, ap, sym, ◌∙◌, Result, ok, err}
use crab_rs.Prelude.Io.{◌>>=◌, >>=-eq-ok}
use crab_rs.Errors.{CrabError}
use crab_rs.Types.{SocketAddr}
use crab_rs.Endpoint.Serve.{local_endpoint}
use crab_rs.Workers.{first_result}
use crab_rs.Workers.Laws.{first_failure, serve_vec-first_failure}
use crab_rs.Workers.Exit.{wait_exit, serve_wait_exit, serve_workers}
use crab_rs.Start.{
  Config, Runtime, Provider, default_config_file, workers, from_str, new_provider, start, main,
  succeeded,
}

module _ {W : Type 0} (r : Runtime W) where
  -- The program comes to run its workers, and no one of them fails.
  pub record IsRun (w : W) : Type 0 where
    pub cfg : Config
    pub provider : Provider r.Client
    pub addr : SocketAddr
    pub parsed : W
    pub provided : W
    pub started : W
    pub reads : from_str r default_config_file w ≡ (ok cfg, parsed)
    pub provides : new_provider r cfg.node_id cfg.tls parsed ≡ (ok provider, provided)
    pub binds :
        local_endpoint r.rustls r.quinn provider.tls_cfg cfg.endpoint provided ≡ (ok addr, started)
    pub unfailed :
        first_failure (r.join_set (workers cfg) (r.signals.spawn (wait_exit r.signals) started)).0
        ≡ none

  none_failed : (failure : Option CrabError) → first_result failure ≡ ok tt → failure ≡ none
  none_failed none e = refl
  none_failed (some x) e = cc

  succeeded-ok : (p : Result CrabError (Unit {0}) × W) → (succeeded r p).0 ≡ true → p ≡ (ok tt, p.1)
  succeeded-ok (ok _, w) e = refl
  succeeded-ok (err x, w) e = cc

  ok-succeeded : (p : Result CrabError (Unit {0}) × W) → p.0 ≡ ok tt → (succeeded r p).0 ≡ true
  ok-succeeded (ok _, w) e = refl
  ok-succeeded (err x, w) e = cc

  -- What the workers come to, once they run.
  abbrev failure : Config → W → Option CrabError
  failure cfg v =
      first_failure (r.join_set (workers cfg) (r.signals.spawn (wait_exit r.signals) v)).0

  served :
      (cfg : Config) (v : W)
      → (serve_wait_exit r.signals (serve_workers (r.join_set (workers cfg))) v).0
        ≡ first_result (failure cfg v)
  unfolding serve_wait_exit serve_workers
  served cfg v =
      ap (λ p. p.0)
        (serve_vec-first_failure
          (r.join_set (workers cfg) (r.signals.spawn (wait_exit r.signals) v)).0)

  main-succeeds : (w : W) → (main r w).0 ≡ true → IsRun w
  unfolding main start
  main-succeeds w e =
      let run = succeeded-ok ((from_str r default_config_file >>= start r) w) e in
      let (cfg, v, e1, rest) = >>=-eq-ok (from_str r default_config_file) (start r) run in
      let (provider, v1, e2, rest1) = >>=-eq-ok (new_provider r cfg.node_id cfg.tls) _ rest in
      let (addr, v2, e3, rest2) =
        >>=-eq-ok (local_endpoint r.rustls r.quinn provider.tls_cfg cfg.endpoint) _ rest1 in
      record {
        cfg = cfg;
        provider = provider;
        addr = addr;
        parsed = v;
        provided = v1;
        started = v2;
        reads = e1;
        provides = e2;
        binds = e3;
        unfailed = none_failed (failure cfg v2) (sym (served cfg v2) ∙ ap (λ p. p.0) rest2);
      }

  main-runs : (w : W) → IsRun w → (main r w).0 ≡ true
  unfolding main start
  main-runs w i =
      let run : (from_str r default_config_file >>= start r) w
          ≡ serve_wait_exit r.signals (serve_workers (r.join_set (workers i.cfg))) i.started =
        rw i.reads (rw i.provides (rw i.binds refl)) in
      ap (λ p. (succeeded r p).0) run
      ∙ ok-succeeded
          (serve_wait_exit r.signals (serve_workers (r.join_set (workers i.cfg))) i.started)
          (served i.cfg i.started ∙ ap first_result i.unfailed)

  -- The program exits with success just if its configuration is read, the provider and the endpoint
  -- are made, and then no worker fails, whatever the signals do.
  pub main-IsRun : (w : W) → ((main r w).0 ≡ true) ↔ IsRun w
  main-IsRun w = (main-succeeds w, main-runs w)
