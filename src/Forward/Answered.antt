-- ===== src/Forward/Answered.antt =====
-- The node's part of a request that another node has it send: what it writes to the stream.
use crab_rs.Prelude.{ℕ, ◌≡◌, refl, ap, ◌∙◌, true, some, ◌++◌, map, Result, ok}
use crab_rs.Prelude.Io.{Io, from, attempt, pure, ◌>>◌}
use crab_rs.Prelude.Bytes.{Bytes}
use crab_rs.Errors.{CrabError, io}
use crab_rs.Message.{MessageHeader, AckMessage, success}
use crab_rs.Transport.{Transport, Codec, IsReliable}
use crab_rs.Stream.{frame, write_message}
use crab_rs.Stream.RoundTrip.{write_message-frame}
use crab_rs.Http.{HttpRequest, HttpResponse, Incoming, text_header, make_request, request}
use crab_rs.Command.Files.{Cancellation}
use crab_rs.Command.Handlers.{or_cancelled}
use crab_rs.Forward.Proxy.{HttpService, handle_http_request}

-- The response as the caller is to get it: a header whose value is no text is blank.
abbrev pub answer_of : {Body : Type 0} → Incoming Body → HttpResponse
answer_of resp = record { status_code = resp.status; headers = map text_header resp.headers }

module _ {S : Type 0} ⦃t : Transport S⦄ (R : IsReliable t) (service : HttpService S) where
  -- A client of hyper that answers a request, with these bytes as the body. The request goes over
  -- another connection than the stream.
  pub record HasReply (req : service.Request) (resp : Incoming service.Body) (body : Bytes)
      : Type 0 where
    pub send_ok :
        (s : S)
        → (s' : S) × (service.send req s ≡ (ok resp, s'))
          × (R.outbox s' ≡ R.outbox s)
          × (R.writable s' ≡ R.writable s)
    pub copy_ok :
        (s : S)
        → R.writable s ≡ true
        → (n : ℕ) × (s' : S) × (service.copy_body resp.body s ≡ (ok n, s'))
          × (R.outbox s' ≡ R.outbox s ++ body)

  module _ ⦃ack : Codec AckMessage⦄ (cancel : Cancellation S)
      (lasts : (A : Type 0) (m : Io CrabError S A) (s : S) → or_cancelled cancel m s ≡ m s)
      (responses : Codec HttpResponse) (this : HttpRequest) (h : MessageHeader) where
    handle_http_request-steps :
        (req : service.Request) (resp : Incoming service.Body) (n : ℕ) (s s1 s2 s3 s4 : S)
        → make_request service.builder this service.stream_body ≡ ok req
        → write_message ack h.method h.option success s ≡ (ok tt, s1)
        → service.send req s1 ≡ (ok resp, s2)
        → write_message responses h.method h.option (answer_of resp) s2 ≡ (ok tt, s3)
        → service.copy_body resp.body s3 ≡ (ok n, s4)
        → handle_http_request cancel responses service this h s ≡ (ok tt, s4)
    unfolding handle_http_request request
    handle_http_request-steps req resp n s s1 s2 s3 s4 made e1 e2 e3 e4 =
        let asked =
          lasts (Result CrabError (HttpResponse × service.Body))
            (attempt (request service.send req)) s1 in
        let copied = lasts (Unit {0}) (do from io (service.copy_body resp.body); pure tt) s3 in
        rw made (rw e1 (rw asked (rw e2 (rw e3 (rw copied (rw e4 refl))))))

    -- For a request that can be made and is answered, the handler succeeds, and writes the
    -- acknowledgement, the response and the body.
    pub handle_http_request-answers :
        (req : service.Request) (resp : Incoming service.Body) (body ack_payload payload : Bytes)
        (s : S)
        → HasReply req resp body
        → make_request service.builder this service.stream_body ≡ ok req
        → ack.encode success ≡ some ack_payload
        → responses.encode (answer_of resp) ≡ some payload
        → R.writable s ≡ true
        → (s' : S) × (handle_http_request cancel responses service this h s ≡ (ok tt, s'))
          × (R.outbox s'
              ≡ ((R.outbox s ++ frame h.method h.option ack_payload)
                  ++ frame h.method h.option payload)
                ++ body)
    handle_http_request-answers req resp body ack_payload payload s a made enc enc' x =
        let (s1, e1, i1, o1, x1) =
          write_message-frame R ack h.method h.option success ack_payload s enc x in
        let (s2, e2, o2, x2) = a.send_ok s1 in
        let (s3, e3, i3, o3, x3) =
          write_message-frame R responses h.method h.option (answer_of resp) payload s2 enc'
            (x2 ∙ x1) in
        let (n, s4, e4, o4) = a.copy_ok s3 x3 in
        (
          s4,
          handle_http_request-steps req resp n s s1 s2 s3 s4 made e1 e2 e3 e4,
          o4 ∙ ap (λ o. o ++ body) (o3 ∙ ap (λ o. o ++ frame h.method h.option payload) (o2 ∙ o1)),
        )
