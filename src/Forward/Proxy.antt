-- ===== src/Forward/Proxy.antt =====
-- http.rs: the handler of an HTTP request, and the caller that has one sent by another node.
use crab_rs.Prelude.{ℕ, String, Result, ok, err}
use crab_rs.Prelude.Io.{act, Io, pure, raise, lift, from, attempt, match_on, ◌>>=◌, ◌>>◌}
use crab_rs.Errors.{CrabError, error_code, io}
use crab_rs.Errors.Codes
use crab_rs.Message.{AckMessage, success}
use crab_rs.Transport.{Transport, Codec}
use crab_rs.Stream.{read_message, write_message, write_error}
use crab_rs.Tasks.{Sender, send_or, send_ignored}
use crab_rs.Handle.{Handle, Channels}
use crab_rs.Http.{HttpRequest, HttpResponse, RequestBuilder, Incoming, make_request, request}
use crab_rs.Command.Files.{Cancellation}
use crab_rs.Command.Handlers.{Handler, or_cancelled}

-- The client of hyper. The body of a request is what is still to be read from the stream.
pub record HttpService (W : Type 0) : Type 1 where
  pub Body : Type 0
  pub Request : Type 0
  pub builder : RequestBuilder Body Request
  pub stream_body : Body
  pub send : Request → Io String W (Incoming Body)
  -- `io::copy` of a response's body to the stream, with the shutdown of the stream
  pub copy_body : Body → Io String W ℕ

module _ {W : Type 0} ⦃t : Transport W⦄ ⦃ack : Codec AckMessage⦄ (cancel : Cancellation W)
    (responses : Codec HttpResponse) where
  -- `HttpRequest::handle`
  unfoldable pub handle_http_request : HttpService W → HttpRequest → Handler W
  handle_http_request service this h = do
    req ←
        match_on (lift (make_request service.builder this service.stream_body))
          (λ req. do write_message ack h.method h.option success; pure req)
          (λ e. do write_error h.method h.option e; raise e)
    resp ← or_cancelled cancel (attempt (request service.send req))
    body ←
        match_on (lift resp)
          (λ (resp, body). do write_message responses h.method h.option resp; pure body)
          (λ e. do write_error h.method h.option e; raise e)
    or_cancelled cancel (do from io (service.copy_body body); pure tt)

  -- `do_http_request_proxy`. The request's body is copied by a task of its own, which is started and,
  -- at the end, waited for; the response's body goes to a pipe of the world.
  unfoldable pub do_http_request_proxy :
      (W → W)
      → Io String W ℕ
      → (W → W)
      → Sender W (Result CrabError HttpResponse)
      → Io CrabError W (Unit {0})
  do_http_request_proxy start_body copy_response wait_body resp_writer = do
    act start_body
    match_on (read_message responses)
        (λ (_, resp). send_or (error_code Codes.canceled_error) resp_writer (ok resp))
        (λ e. do send_ignored resp_writer (err e); raise (error_code Codes.canceled_error))
    or_cancelled cancel (from io copy_response)
    act wait_body

  -- `HttpForwarder for Handle`; `command` makes the command from the request.
  unfoldable pub http_proxy :
      {Command : Type 0}
      → (HttpRequest → Command)
      → Handle W Command
      → Channels W
      → (W → W)
      → Io String W ℕ
      → (W → W)
      → HttpRequest
      → Io CrabError W HttpResponse
  unfolding do_http_request_proxy
  http_proxy command h channels start_body copy_response wait_body req = do
    (ret_tx, ret_rx) ← λ w. let (ends, w') = channels.oneshot w in (ok ends, w')
    h.spawn (command req) (do_http_request_proxy start_body copy_response wait_body ret_tx)
    answer ← from (λ _. error_code Codes.canceled_error) ret_rx
    lift answer
