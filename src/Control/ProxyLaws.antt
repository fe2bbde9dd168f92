-- ===== src/Control/ProxyLaws.antt =====
-- What the proxy forwards, and the errors that it answers.
use crab_rs.Prelude.{
  ℕ, String, Option, none, some, List, [], ◌∷◌, ◌++◌, All, ok, err, ◌≡◌, ◌≢◌, ◌⊎◌, Result-cases,
  inl, inr, refl, sym, subst, ap, ◌∙◌, arith, eq_iff,
}
use crab_rs.Prelude.Io.{Io}
use crab_rs.Errors.{CrabError}
use crab_rs.Message.{AckMessage}
use crab_rs.Transport.{Transport, Codec}
use crab_rs.Handle.{Handle, Channels}
use crab_rs.Manager.{DashMap, Node, Manager}
use crab_rs.Manager
use crab_rs.Http.{HttpMethod, hyper_method, try_from, HttpRequest, HttpResponse, text_header}
use crab_rs.Http.Laws.{hyper_method-try_from}
use crab_rs.Command.Files.{Cancellation}
use crab_rs.Control.Answers.{ProxyResponse}
use crab_rs.Control.Proxy.{
  Urls, Request, forwarded_headers, forwarded_request, is_excluded, send_through, handle_proxy,
}

-- A header's name is neither that of the target nor that of the host.
abbrev pub IsForwarded : String × String → Type 0
IsForwarded kv = (kv.0 ≢ "x-target-host") × (kv.0 ≢ "host")

forwarded_headers-IsForwarded :
    (headers : List (String × Option String)) → All IsForwarded (forwarded_headers headers)
unfolding forwarded_headers is_excluded
forwarded_headers-IsForwarded [] = tt
forwarded_headers-IsForwarded ((k, v) ∷ headers) =
    ground (arith, eq_iff k "x-target-host", eq_iff k "host", forwarded_headers-IsForwarded headers)

forwarded_headers-append :
    (before after : List (String × Option String))
    → forwarded_headers (before ++ after) ≡ forwarded_headers before ++ forwarded_headers after
unfolding forwarded_headers
forwarded_headers-append [] after = refl
forwarded_headers-append ((k, v) ∷ before) after =
    ground (arith, forwarded_headers-append before after)

forwarded_headers-keeps :
    (k : String) (v : Option String) (headers : List (String × Option String))
    → IsForwarded (k, "")
    → forwarded_headers ((k, v) ∷ headers) ≡ text_header (k, v) ∷ forwarded_headers headers
unfolding forwarded_headers is_excluded
forwarded_headers-keeps k v headers (a, b) =
    ground (arith, eq_iff k "x-target-host", eq_iff k "host")

options_refused : (m : HttpMethod) → try_from "OPTIONS" ≢ ok m
unfolding try_from
options_refused m e = cc

module _ (u : Urls) (target_path : Option String) (req : Request) where
  taken :
      (r : HttpRequest)
      → forwarded_request u target_path req ≡ ok r
      → (try_from req.method ≡ ok r.method) × (r.headers ≡ forwarded_headers req.headers)
  unfolding forwarded_request
  taken r e = ground arith

  -- A request that is forwarded keeps the method, leaves out the headers `x-target-host` and `host`,
  -- and has every other header, one whose value is no text as blank, in the place where it was.
  pub forwarded_request-eq-ok :
      (r : HttpRequest)
      → forwarded_request u target_path req ≡ ok r
      → (hyper_method r.method ≡ req.method)
        × All IsForwarded r.headers
        × ((before after : List (String × Option String)) (k : String) (v : Option String)
            → req.headers ≡ before ++ (k, v) ∷ after
            → IsForwarded (k, "")
            → r.headers ≡ forwarded_headers before ++ text_header (k, v) ∷ forwarded_headers after)
  unfolding forwarded_request
  forwarded_request-eq-ok r e =
      let (m, same) = taken r e in
      (
        hyper_method-try_from req.method r.method m,
        subst (All IsForwarded) (sym same) (forwarded_headers-IsForwarded req.headers),
        λ before after k v split kept.
            same
            ∙ ap forwarded_headers split
            ∙ forwarded_headers-append before ((k, v) ∷ after)
            ∙ ap (λ hs. forwarded_headers before ++ hs) (forwarded_headers-keeps k v after kept),
      )

  -- Every refusal has the status 400.
  forwarded_request-eq-err :
      (status : ℕ) (e : CrabError)
      → forwarded_request u target_path req ≡ err (status, e)
      → status ≡ 400
  unfolding forwarded_request
  forwarded_request-eq-err status e h = ground arith

  -- The method OPTIONS is refused.
  forwarded_request-options :
      req.method ≡ "OPTIONS"
      → (e : CrabError) × (forwarded_request u target_path req ≡ err (400, e))
  forwarded_request-options h = elim (Result-cases (forwarded_request u target_path req)) [
    | inl (r, e) ↦ absurd (options_refused r.method (ap try_from (sym h) ∙ (taken r e).0))
    | inr ((status, e), r) ↦ (e, r ∙ ap (λ n. err (n, e)) (forwarded_request-eq-err status e r))
  ]

same_status :
    {n status : ℕ} {e e' : CrabError}
    → ◌≡◌ {A = ProxyResponse} (err (n, e)) (err (status, e'))
    → n ≡ status
same_status h = cc

module _ (u : Urls) {W NodeHandle Info Command : Type 0} ⦃t : Transport W⦄ ⦃ack : Codec AckMessage⦄
    (d : DashMap (Node NodeHandle Info)) (handle_of : NodeHandle → Handle W Command)
    (cancel : Cancellation W) (responses : Codec HttpResponse) (command : HttpRequest → Command)
    (channels : Channels W) (start_body : W → W) (copy_response : Io String W ℕ) (wait_body : W → W)
    (m : Manager d) (node_id : String) (target_path : Option String) (req : Request) (w : W) where
  abbrev handled : ProxyResponse × W
  handled =
      handle_proxy u d handle_of cancel responses command channels start_body copy_response
        wait_body m node_id target_path req w

  send_through-eq-err :
      (found : Option (NodeHandle × Info)) (r : HttpRequest) (status : ℕ) (e : CrabError)
      → (send_through u d handle_of cancel responses command channels start_body copy_response
          wait_body found r w).0
        ≡ err (status, e)
      → status ≡ 502
  unfolding send_through
  send_through-eq-err none r status e h = ground arith
  send_through-eq-err (some (handle, _)) r status e h = ground arith

  -- An error that the proxy answers has the status 400, and then no node was asked and nothing was
  -- done, or the status 502.
  pub handle_proxy-eq-err :
      (status : ℕ) (e : CrabError)
      → handled.0 ≡ err (status, e)
      → ((status ≡ 400) × (handled.1 ≡ w)) ⊎ (status ≡ 502)
  unfolding handle_proxy
  handle_proxy-eq-err status e h = elim (Result-cases (forwarded_request u target_path req)) [
    | inl (r, good) ↦ inr (send_through-eq-err (Manager.get d node_id m) r status e (rw good at h))
    | inr ((n, e'), bad) ↦
        let run : handled ≡ (err (n, e'), w) = rw bad refl in
        let same : n ≡ status = same_status (sym (ap (λ p. p.0) run) ∙ h) in
        inl (sym same ∙ forwarded_request-eq-err u target_path req n e' bad, ap (λ p. p.1) run)
  ]

  -- A request with the method OPTIONS is refused with the status 400, and nothing is done.
  pub handle_proxy-options :
      req.method ≡ "OPTIONS" → (e : CrabError) × (handled ≡ (err (400, e), w))
  unfolding handle_proxy
  handle_proxy-options h =
      let (e, refused) = forwarded_request-options u target_path req h in (e, rw refused refl)
