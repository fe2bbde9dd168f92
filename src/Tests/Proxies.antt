-- ===== src/Tests/Proxies.antt =====
-- A GET request that a node sends for its caller.
use crab_rs.Prelude.{
  ℕ, ◌≡◌, refl, ap, ◌∙◌, arith, String, true, ◌==◌, List, [], ◌∷◌, ◌++◌, length, Option, none, some,
  Result, ok, str_eq, if◌then◌else◌,
}
use crab_rs.Prelude.Bytes.{Bytes}
use crab_rs.Prelude.Io.{Io}
use crab_rs.Errors.{CrabError}
use crab_rs.Message.{command, option_none}
use crab_rs.Transport.{Codec}
use crab_rs.Stream.{frame, write_message, encode_message}
use crab_rs.Tasks.{Sender}
use crab_rs.Tasks.Reports.{Reported}
use crab_rs.Http.{
  HttpRequest, HttpResponse, RequestBuilder, Incoming, Headers, get, hyper_method, make_request,
}
use crab_rs.Command.Files.{Cancellation}
use crab_rs.Command.Handlers.{or_cancelled}
use crab_rs.Forward.Proxy.{HttpService, handle_http_request}
use crab_rs.Forward.Answered.{HasReply}
use crab_rs.Forward.ProxyLaws.{IsProxyPipe, proxy_task, http_proxy-delivers}
use crab_rs.Tests.Pipe.{Pipe, pipe, pipe_with, pipe-IsReliable, write_all, ack_codec, byte_codec}
use crab_rs.Tests.Reports.{read_exact_keeps_state, write_all_keeps_state}
use crab_rs.Tests.Stores.{header, ack_bytes, acks}

record Request : Type 0 where
  method : String
  headers : Headers
  uri : String
  body : Bytes

abbrev builder : RequestBuilder Bytes Request
builder = record {
  Builder = Request;
  builder = record { method = "GET"; headers = []; uri = ""; body = [] };
  method = λ m b. record b { method = m };
  header = λ k v b. record b { headers = b.headers ++ (k, v) ∷ [] };
  uri = λ u b. record b { uri = u };
  body = λ body b. ok (record b { body = body });
}

abbrev Node : Type 0
Node = Pipe String

-- The header of the response has a value that is no text.
abbrev response : Incoming Bytes
response = record { status = 200; headers = ("x-bin", none) ∷ []; body = 8 ∷ 9 ∷ [] }

-- The client of hyper keeps the address that was asked for.
abbrev service : HttpService Node
service = record {
  Body = Bytes;
  Request = Request;
  builder = builder;
  stream_body = [];
  send = λ req w. (ok response, record w { state = req.uri });
  copy_body = λ body w. (ok (length body), record w { outbox = w.outbox ++ body });
}

abbrev encode_response : Headers → ℕ → Option Bytes
encode_response [] n = some (n ∷ 0 ∷ [])
encode_response ((k, v) ∷ []) n = if str_eq k "x-bin" then some (n ∷ 1 ∷ []) else none
encode_response (_ ∷ _ ∷ _) n = none

abbrev decode_response : Bytes → Option (HttpResponse × ℕ)
decode_response (n ∷ k ∷ _) =
    some (record { status_code = n; headers = if k == 0 then [] else ("x-bin", "") ∷ [] }, 2)
decode_response _ = none

abbrev responses : Codec HttpResponse
responses = record {
  encode = λ r. encode_response r.headers r.status_code;
  decode = decode_response;
}

abbrev steady : {W : Type 0} → Cancellation W
steady = record { until_cancelled = λ work w. let (r, w') = work w in (some r, w') }

steady_lasts :
    {W : Type 0} (A : Type 0) (m : Io CrabError W A) (w : W) → or_cancelled steady m w ≡ m w
unfolding or_cancelled
steady_lasts A m w = refl

abbrev asked : HttpRequest
asked = record { method = get; request_uri = "http://a/"; headers = ("k", "v") ∷ [] }

abbrev request_made : Request
request_made = record { method = "GET"; headers = ("k", "v") ∷ []; uri = "http://a/"; body = [] }

service-HasReply : HasReply pipe-IsReliable service request_made response (8 ∷ 9 ∷ [])
service-HasReply = record {
  send_ok = λ s. (record s { state = "http://a/" }, refl, refl, refl);
  copy_ok = λ s x. (2, record s { outbox = s.outbox ++ 8 ∷ 9 ∷ [] }, refl, refl);
}

-- What the caller was told, and what is in the pipe of the response.
record Told : Type 0 where
  reports : List (Result CrabError HttpResponse)
  piped : Bytes

abbrev Client : Type 0
Client = Pipe Told

abbrev report : Sender Client (Result CrabError HttpResponse)
report v w = (true, record w { state = record w.state { reports = w.state.reports ++ v ∷ [] } })

unfoldable report-Reported : Reported pipe report
report-Reported = record {
  reported = λ w. w.state.reports;
  by_send = λ v w. refl;
  by_stream = λ l. record {
    by_read = λ n. record { at = λ w h. ap (λ s. s.reports) (read_exact_keeps_state n w) ∙ h };
    by_write =
        λ bytes. record { at = λ w h. ap (λ s. s.reports) (write_all_keeps_state bytes w) ∙ h };
  };
}

abbrev copy_response : Io String Client ℕ
copy_response w = (
  ok (length w.inbox),
  record w { inbox = []; state = record w.state { piped = w.state.piped ++ w.inbox } },
)

abbrev no_body : Client → Client
no_body w = w

unfoldable pipe-IsProxyPipe :
    IsProxyPipe pipe-IsReliable no_body no_body copy_response report-Reported
unfolding report-Reported
pipe-IsProxyPipe = record {
  piped = λ w. w.state.piped;
  by_stream = λ l. record {
    by_read = λ n. record { at = λ w h. ap (λ s. s.piped) (read_exact_keeps_state n w) ∙ h };
    by_write =
        λ bytes. record { at = λ w h. ap (λ s. s.piped) (write_all_keeps_state bytes w) ∙ h };
  };
  start_ok = λ w. (refl, refl, refl);
  wait_ok = λ w. (refl, refl);
  takes = λ v w. ((report v w).1, refl, refl, refl);
  copy_ok = λ w. (length w.inbox, (copy_response w).1, refl, refl, refl);
}

abbrev node : Node
node = pipe_with [] ""

abbrev answers : Bytes
answers = (handle_http_request steady responses service asked header node).1.outbox

abbrev client : Client
client = pipe_with answers (record { reports = []; piped = [] })

abbrev sent : Client
sent = record client { outbox = frame command option_none (5 ∷ []) }

command_sent : write_message byte_codec command option_none 5 client ≡ (ok tt, sent)
unfolding write_message encode_message write_all
command_sent = refl

http_proxy-delivers_example :
    let p = proxy_task steady responses no_body no_body copy_response report byte_codec 5 client in
    (p.0 ≡ ok tt)
    × (p.1.state.reports
        ≡ [] ++ ok (record { status_code = 200; headers = ("x-bin", "") ∷ [] }) ∷ [])
    × (p.1.state.piped ≡ [] ++ 8 ∷ 9 ∷ [])
unfolding report-Reported pipe-IsProxyPipe make_request hyper_method
http_proxy-delivers_example =
    http_proxy-delivers pipe-IsReliable pipe-IsReliable service steady steady_lasts steady
      (steady_lasts ℕ) responses header refl ack_bytes acks no_body no_body copy_response
      report-Reported pipe-IsProxyPipe byte_codec 5 asked request_made response (8 ∷ 9 ∷ [])
      (200 ∷ 1 ∷ []) answers node client sent refl service-HasReply (refl, refl) (omega arith) refl
      refl command_sent refl
