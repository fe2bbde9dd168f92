-- ===== src/Forward/ProxyLaws.antt =====
-- A request that another node sends: the caller and the handler of that node together.
use mathlib.Core.List.{append_cancel_left}
use crab_rs.Prelude.{
  ℕ, ◌≡◌, ◌≤◌, refl, sym, ap, subst, ◌∙◌, String, true, [], ◌∷◌, ◌++◌, append_assoc, length, Result,
  ok,
}
use crab_rs.Prelude.Io.{Io, from}
use crab_rs.Prelude.Bytes.{Bytes}
use crab_rs.Errors.{CrabError, io}
use crab_rs.Message.{Method, MessageHeader, AckMessage, command, option_none}
use crab_rs.Transport.{Transport, Codec, RoundTrips, IsReliable}
use crab_rs.Stream.{max_payload_size, frame, read_message, read_ack, write_message}
use crab_rs.Stream.RoundTrip.{header_for}
use crab_rs.Stream.Arrived.{read_message-arrived, read_ack-arrived}
use crab_rs.Stream.Keeps.{KeptByStream, write_message-Keeps, read_message-Keeps, read_ack-Keeps}
use crab_rs.Tasks.{Sender, send_or, base_async_task}
use crab_rs.Tasks.Reports.{Reported}
use crab_rs.Http.{HttpRequest, HttpResponse, Incoming, make_request}
use crab_rs.Command.Files.{Cancellation}
use crab_rs.Command.Handlers.{or_cancelled}
use crab_rs.Command.Remote.{AckEncodes}
use crab_rs.Forward.Proxy.{HttpService, handle_http_request, do_http_request_proxy}
use crab_rs.Forward.Answered.{answer_of, HasReply, handle_http_request-answers}

-- The pipe of a response. The task that sends the request's body reads nothing and does not write
-- to the pipe; the copy takes all that arrives on the stream.
pub record IsProxyPipe {W : Type 0} {t : Transport W} (R : IsReliable t)
    (start_body wait_body : W → W) (copy_response : Io String W ℕ)
    {tx : Sender W (Result CrabError HttpResponse)} (r : Reported t tx) : Type 0 where
  pub piped : W → Bytes
  pub by_stream : (bytes : Bytes) → KeptByStream t (λ w. piped w ≡ bytes)
  pub start_ok :
      (w : W)
      → (R.inbox (start_body w) ≡ R.inbox w)
        × (piped (start_body w) ≡ piped w)
        × (r.reported (start_body w) ≡ r.reported w)
  pub wait_ok :
      (w : W) → (piped (wait_body w) ≡ piped w) × (r.reported (wait_body w) ≡ r.reported w)
  pub takes :
      (v : Result CrabError HttpResponse) (w : W)
      → (w' : W) × (tx v w ≡ (true, w')) × (R.inbox w' ≡ R.inbox w) × (piped w' ≡ piped w)
  pub copy_ok :
      (w : W)
      → (n : ℕ) × (w' : W) × (copy_response w ≡ (ok n, w'))
        × (piped w' ≡ piped w ++ R.inbox w)
        × (r.reported w' ≡ r.reported w)

module _ {W : Type 0} ⦃t : Transport W⦄ ⦃ack : Codec AckMessage⦄ (cancel : Cancellation W)
    (responses : Codec HttpResponse) (start_body wait_body : W → W) (copy_response : Io String W ℕ)
    (tx : Sender W (Result CrabError HttpResponse)) {C : Type 0} (c : Codec C) (cmd : C) where
  -- The task that `http_proxy` hands to the node.
  abbrev pub proxy_task : Io CrabError W (Unit {0})
  proxy_task =
      base_async_task c cmd
        (do_http_request_proxy cancel responses start_body copy_response wait_body tx)

  module _ (lasts : (m : Io CrabError W ℕ) (w : W) → or_cancelled cancel m w ≡ m w) where
    proxy_task-steps :
        (x : MessageHeader × HttpResponse) (n : ℕ) (w w1 w2 w3 w4 w5 : W)
        → write_message c command option_none cmd w ≡ (ok tt, w1)
        → read_ack w1 ≡ (ok tt, w2)
        → read_message responses (start_body w2) ≡ (ok x, w3)
        → tx (ok x.1) w3 ≡ (true, w4)
        → copy_response w4 ≡ (ok n, w5)
        → proxy_task w ≡ (ok tt, wait_body w5)
    unfolding base_async_task do_http_request_proxy send_or
    proxy_task-steps x n w w1 w2 w3 w4 w5 e1 e2 e3 e4 e5 =
        let copied = lasts (from io copy_response) w4 in
        rw e1 (rw e2 (rw e3 (rw e4 (rw copied (rw e5 refl)))))

    module _ (R : IsReliable t) (r : Reported t tx)
        (pipe : IsProxyPipe R start_body wait_body copy_response r) (peer : Method)
        (ack_payload : Bytes) (acks : AckEncodes ack ack_payload) where
      -- The task of the caller, when all that the node answers has arrived.
      proxy_task-pipes :
          (resp : HttpResponse) (payload body : Bytes) (w w1 : W)
          → RoundTrips responses resp payload
          → length payload ≤ max_payload_size
          → write_message c command option_none cmd w ≡ (ok tt, w1)
          → R.inbox w1
            ≡ frame peer option_none ack_payload ++ (frame peer option_none payload ++ body)
          → (w' : W) × (proxy_task w ≡ (ok tt, w'))
            × (r.reported w' ≡ r.reported w ++ ok resp ∷ [])
            × (pipe.piped w' ≡ pipe.piped w ++ body)
      proxy_task-pipes resp payload body w w1 rt fits e1 arrived =
          let kept = r.by_stream (r.reported w) in
          let still = pipe.by_stream (pipe.piped w) in
          let k1 : r.reported w1 ≡ r.reported w =
            subst (λ p. r.reported p.1 ≡ r.reported w) e1
              ((write_message-Keeps kept c command option_none cmd).at w refl) in
          let p1 : pipe.piped w1 ≡ pipe.piped w =
            subst (λ p. pipe.piped p.1 ≡ pipe.piped w) e1
              ((write_message-Keeps still c command option_none cmd).at w refl) in
          let (w2, e2, i2, o2, x2) =
            read_ack-arrived R peer ack_payload (frame peer option_none payload ++ body) w1
              acks.round acks.fits arrived in
          let k2 : r.reported w2 ≡ r.reported w =
            subst (λ p. r.reported p.1 ≡ r.reported w) e2 ((read_ack-Keeps kept).at w1 k1) in
          let p2 : pipe.piped w2 ≡ pipe.piped w =
            subst (λ p. pipe.piped p.1 ≡ pipe.piped w) e2 ((read_ack-Keeps still).at w1 p1) in
          let (is, ps, ks) = pipe.start_ok w2 in
          let (w3, e3, i3, o3, x3) =
            read_message-arrived R responses peer payload body (start_body w2) rt fits (is ∙ i2) in
          let k3 : r.reported w3 ≡ r.reported w =
            subst (λ p. r.reported p.1 ≡ r.reported w) e3
              ((read_message-Keeps kept responses).at (start_body w2) (ks ∙ k2)) in
          let p3 : pipe.piped w3 ≡ pipe.piped w =
            subst (λ p. pipe.piped p.1 ≡ pipe.piped w) e3
              ((read_message-Keeps still responses).at (start_body w2) (ps ∙ p2)) in
          let (w4, e4, i4, p4) = pipe.takes (ok resp) w3 in
          let k4 : r.reported w4 ≡ r.reported w ++ ok resp ∷ [] =
            subst (λ p. r.reported p.1 ≡ r.reported w ++ ok resp ∷ []) e4
              (r.by_send (ok resp) w3 ∙ ap (λ l. l ++ ok resp ∷ []) k3) in
          let (n, w5, e5, p5, k5) = pipe.copy_ok w4 in
          let (pw, kw) = pipe.wait_ok w5 in
          (
            wait_body w5,
            proxy_task-steps (header_for peer option_none payload, resp) n w w1 w2 w3 w4 w5 e1 e2 e3
                e4 e5,
            kw ∙ k5 ∙ k4,
            pw ∙ p5 ∙ ap (λ b. b ++ R.inbox w4) (p4 ∙ p3) ∙ ap (λ b. pipe.piped w ++ b) (i4 ∙ i3),
          )

-- The node `S` that sends the request, and the caller `W`, on the two sides of one stream.
module _ {S W : Type 0} ⦃here : Transport S⦄ ⦃there : Transport W⦄ ⦃ack : Codec AckMessage⦄
    (RS : IsReliable here) (RW : IsReliable there) (service : HttpService S) (stop : Cancellation S)
    (lasts : (A : Type 0) (m : Io CrabError S A) (s : S) → or_cancelled stop m s ≡ m s)
    (cancel : Cancellation W)
    (goes_on : (m : Io CrabError W ℕ) (w : W) → or_cancelled cancel m w ≡ m w)
    (responses : Codec HttpResponse) (h : MessageHeader) (unmarked : h.option ≡ option_none)
    (ack_payload : Bytes) (acks : AckEncodes ack ack_payload) (start_body wait_body : W → W)
    (copy_response : Io String W ℕ) {tx : Sender W (Result CrabError HttpResponse)}
    (r : Reported there tx) (pipe : IsProxyPipe RW start_body wait_body copy_response r)
    {C : Type 0} (c : Codec C) (cmd : C) where
  -- If the request can be made, the client of hyper of the node answers it, neither node cancels,
  -- the acknowledgement and the response can be encoded and decoded, the node can write to the
  -- stream, and what it writes arrives at the caller, which waits for the answer, after the command
  -- was written under no option, then the caller's task succeeds: the caller is told the status and
  -- the headers of the response, once, and its body's bytes go into the pipe of the response.
  pub http_proxy-delivers :
      (this : HttpRequest) (req : service.Request) (resp : Incoming service.Body)
      (body payload bytes : Bytes) (s : S) (w w1 : W)
      → make_request service.builder this service.stream_body ≡ ok req
      → HasReply RS service req resp body
      → RoundTrips responses (answer_of resp) payload
      → length payload ≤ max_payload_size
      → RS.writable s ≡ true
      → RS.outbox (handle_http_request stop responses service this h s).1 ≡ RS.outbox s ++ bytes
      → write_message c command option_none cmd w ≡ (ok tt, w1)
      → RW.inbox w1 ≡ bytes
      → let p = proxy_task cancel responses start_body wait_body copy_response tx c cmd w in
        (p.0 ≡ ok tt)
        × (r.reported p.1 ≡ r.reported w ++ ok (answer_of resp) ∷ [])
        × (pipe.piped p.1 ≡ pipe.piped w ++ body)
  http_proxy-delivers this req resp body payload bytes s w w1 made a rt fits x added sent arrived =
      let (s', run, out) =
        handle_http_request-answers RS service stop lasts responses this h req resp body ack_payload
          payload s a made acks.round.0 rt.0 x in
      let f = frame h.method h.option ack_payload in
      let g = frame h.method h.option payload in
      let same : bytes ≡ f ++ (g ++ body) =
        append_cancel_left (RS.outbox s) bytes (f ++ (g ++ body)) (
          sym added
          ∙ ap (λ p. RS.outbox p.1) run
          ∙ out
          ∙ append_assoc (RS.outbox s ++ f) g body
          ∙ append_assoc (RS.outbox s) f (g ++ body)) in
      let plain =
        ap (λ o. frame h.method o ack_payload ++ (frame h.method o payload ++ body)) unmarked in
      let (w', done, told, piped) =
        proxy_task-pipes cancel responses start_body wait_body copy_response tx c cmd goes_on RW r
          pipe h.method ack_payload acks (answer_of resp) payload body w w1 rt fits sent
          (arrived ∙ same ∙ plain) in
      (
        ap (λ p. p.0) done,
        ap (λ p. r.reported p.1) done ∙ told,
        ap (λ p. pipe.piped p.1) done ∙ piped,
      )
