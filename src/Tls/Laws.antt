-- ===== src/Tls/Laws.antt =====
-- Whom a node trusts.
use crab_rs.Prelude.{
  String, Bool, true, false, Option, none, some, List, [], ◌∷◌, ◌++◌, map, Result, ok, err, ◌≡◌,
  ◌≢◌, refl, sym, ap, ◌∙◌, append-nil, append_assoc, Result-cases, inl, inr,
}
use crab_rs.Prelude.Io.{>>=-eq-ok, from, from-eq-ok}
use crab_rs.Errors.{CrabError, io}
use crab_rs.Tls.{Config, Rustls, add_native, add_read, add_system, add_file, load_root_cert}

module _ {W : Type 0} (r : Rustls W) where
  open r use {Cert, roots}

  same_store :
      {s s' : roots.Store} {w w' : W}
      → ◌≡◌ {A = Result CrabError roots.Store × W} (ok s, w) (ok s', w')
      → s' ≡ s
  same_store h = cc

  no_store :
      {x : CrabError} {s : roots.Store} {w w' : W}
      → ◌≢◌ {A = Result CrabError roots.Store × W} (err x, w) (ok s, w')
  no_store h = cc

  same_path : {p q : String} → ◌≡◌ {A = Option String} (some p) (some q) → p ≡ q
  same_path h = cc

  add_native-eq-ok :
      (certs : List Cert) (s s' : roots.Store) (w w' : W)
      → add_native r certs s w ≡ (ok s', w')
      → roots.held s' ≡ roots.held s ++ certs
  unfolding add_native
  add_native-eq-ok [] s s' w w' h = ap roots.held (same_store h) ∙ sym (append-nil (roots.held s))
  add_native-eq-ok (c ∷ certs) s s' w w' h = elim (Result-cases (roots.add c s)) [
    | inl (t, e) ↦
        add_native-eq-ok certs t s' w w' (rw e at h)
        ∙ ap (λ l. l ++ certs) (roots.held-add c s t e)
        ∙ append_assoc (roots.held s) (c ∷ []) certs
    | inr (x, e) ↦ let bad = rw e at h in absurd (no_store bad)
  ]

  add_read-eq-ok :
      (certs : List (Result String Cert)) (s s' : roots.Store) (w w' : W)
      → add_read r certs s w ≡ (ok s', w')
      → (cs : List Cert) × (certs ≡ map ok cs) × (roots.held s' ≡ roots.held s ++ cs)
  unfolding add_read
  add_read-eq-ok [] s s' w w' h =
      ([], refl, ap roots.held (same_store h) ∙ sym (append-nil (roots.held s)))
  add_read-eq-ok (err x ∷ certs) s s' w w' h = cc
  add_read-eq-ok (ok c ∷ certs) s s' w w' h = elim (Result-cases (roots.add c s)) [
    | inl (t, e) ↦
        let (cs, same, held) = add_read-eq-ok certs t s' w w' (rw e at h) in
        (
          c ∷ cs,
          ap (λ l. ok c ∷ l) same,
          held
              ∙ ap (λ l. l ++ cs) (roots.held-add c s t e)
              ∙ append_assoc (roots.held s) (c ∷ []) cs,
        )
    | inr (x, e) ↦ let bad = rw e at h in absurd (no_store bad)
  ]

  -- The certificates of the system, if they are used.
  pub record IsSystem (cfg : Config) (w : W) (system : List Cert) : Type 0 where
    pub used : cfg.use_system_ca ≡ true → system ≡ (r.load_native_certs w).0
    pub unused : cfg.use_system_ca ≡ false → system ≡ []

  -- The certificates of the file of the configuration, if it names one.
  pub record IsOwn (cfg : Config) (own : List Cert) : Type 0 where
    pub unnamed : cfg.ca_path ≡ none → own ≡ []
    pub named :
        (ca_path : String)
        → cfg.ca_path ≡ some ca_path
        → (v v' : W) × (r.certs ca_path v ≡ (ok (map ok own), v'))

  add_system-IsSystem :
      (cfg : Config) (used : Bool) (same : cfg.use_system_ca ≡ used) (w v : W) (s : roots.Store)
      → add_system r used roots.empty w ≡ (ok s, v)
      → (system : List Cert) × IsSystem cfg w system × (roots.held s ≡ system)
  unfolding add_system
  add_system-IsSystem cfg true same w v s h = (
    (r.load_native_certs w).0,
    record { used = λ e. refl; unused = λ e. cc (e, same) },
    add_native-eq-ok _ roots.empty s _ v h
        ∙ ap (λ l. l ++ (r.load_native_certs w).0) roots.held-empty,
  )
  add_system-IsSystem cfg false same w v s h = (
    [],
    record { used = λ e. cc (e, same); unused = λ e. refl },
    ap roots.held (same_store h) ∙ roots.held-empty,
  )

  add_file-IsOwn :
      (cfg : Config) (path : Option String) (same : cfg.ca_path ≡ path) (v w' : W)
      (s s' : roots.Store)
      → add_file r path s v ≡ (ok s', w')
      → (own : List Cert) × IsOwn cfg own × (roots.held s' ≡ roots.held s ++ own)
  unfolding add_file
  add_file-IsOwn cfg none same v w' s s' h = (
    [],
    record { unnamed = λ e. refl; named = λ p e. cc (e, same) },
    ap roots.held (same_store h) ∙ sym (append-nil (roots.held s)),
  )
  add_file-IsOwn cfg (some path) same v w' s s' h =
      let (certs, u, e, rest) =
        >>=-eq-ok (from io (r.certs path)) (λ certs. add_read r certs s) h in
      let (cs, read, held) = add_read-eq-ok certs s s' u w' rest in
      (
        cs,
        record {
          unnamed = λ e. cc (e, same);
          named = λ p e'. (
            v,
            u,
            ap (λ q. r.certs q v) (same_path (sym e' ∙ same))
                ∙ from-eq-ok io (r.certs path) e
                ∙ ap (λ l. (ok l, u)) read,
          );
        },
        held,
      )

  -- A node trusts the certificates of the system, if its configuration uses them, and those of the
  -- file that the configuration names, each of which could be read, and no other.
  pub load_root_cert-held :
      (cfg : Config) (w w' : W) (s : roots.Store)
      → load_root_cert r cfg w ≡ (ok s, w')
      → (system own : List Cert) × IsSystem cfg w system
        × IsOwn cfg own
        × (roots.held s ≡ system ++ own)
  unfolding load_root_cert
  load_root_cert-held cfg w w' s h =
      let (t, v, e, rest) =
        >>=-eq-ok (add_system r cfg.use_system_ca roots.empty) (add_file r cfg.ca_path) h in
      let (system, a, held) = add_system-IsSystem cfg cfg.use_system_ca refl w v t e in
      let (own, b, held') = add_file-IsOwn cfg cfg.ca_path refl v w' t s rest in
      (system, own, a, b, held' ∙ ap (λ l. l ++ own) held)
