-- ===== src/Http.antt =====
-- app/utils/http.rs: HTTP methods, requests and responses, and the client that sends them.
--
-- The builder of requests and the client of hyper are taken as interfaces; a method of hyper is its
-- name.
pub mod Laws
use crab_rs.Prelude.{
  ℕ, String, Bool, Option, none, some, List, [], ◌∷◌, map, Result, ok, err, str_eq, if◌then◌else◌,
}
use crab_rs.Prelude.Io.{Io, pure, ◌>>=◌}
use crab_rs.Errors.{CrabError, error_code, error_code_with_message}
use crab_rs.Errors.Codes
use crab_rs.Tls
use crab_rs.Tls.{Rustls, build_client_config}

pub data HttpMethod : Type 0 where
  options get post put delete head trace connect patch : HttpMethod

-- `impl From<HttpMethod> for hyper::Method`
unfoldable pub hyper_method : HttpMethod → String
hyper_method options = "OPTIONS"
hyper_method get = "GET"
hyper_method post = "POST"
hyper_method put = "PUT"
hyper_method delete = "DELETE"
hyper_method head = "HEAD"
hyper_method trace = "TRACE"
hyper_method connect = "CONNECT"
hyper_method patch = "PATCH"

-- `impl TryFrom<&str> for HttpMethod`
unfoldable pub try_from : String → Result CrabError HttpMethod
try_from value =
    if str_eq value "GET"
    then ok get
    else if str_eq value "POST"
    then ok post
    else if str_eq value "PUT"
    then ok put
    else if str_eq value "DELETE"
    then ok delete
    else if str_eq value "HEAD"
    then ok head
    else if str_eq value "TRACE"
    then ok trace
    else if str_eq value "CONNECT"
    then ok connect
    else if str_eq value "PATCH"
    then ok patch
    else err (error_code Codes.bad_parameter)

abbrev pub Headers : Type 0
Headers = List (String × String)

pub record HttpRequest : Type 0 where
  pub method : HttpMethod
  pub request_uri : String
  pub headers : Headers

pub record HttpResponse : Type 0 where
  pub status_code : ℕ
  pub headers : Headers

-- `hyper::Request::builder`; building fails with a text.
pub record RequestBuilder (Body Request : Type 0) : Type 1 where
  pub Builder : Type 0
  pub builder : Builder
  pub method : String → Builder → Builder
  pub header : String → String → Builder → Builder
  pub uri : String → Builder → Builder
  pub body : Body → Builder → Result String Request

-- A response of hyper: a header's value that is no text is `none`.
pub record Incoming (Body : Type 0) : Type 0 where
  pub status : ℕ
  pub headers : List (String × Option String)
  pub body : Body

abbrev pub or_blank : Option String → String
or_blank none = ""
or_blank (some v) = v

abbrev pub text_header : String × Option String → String × String
text_header (k, v) = (k, or_blank v)

module _ {Body Request : Type 0} (b : RequestBuilder Body Request) where
  pub add_headers : Headers → b.Builder → b.Builder
  add_headers [] builder = builder
  add_headers ((k, v) ∷ headers) builder = add_headers headers (b.header k v builder)

  built : Result String Request → Result CrabError Request
  built (ok req) = ok req
  built (err e) = err (error_code Codes.bad_parameter)

  unfoldable pub make_request : HttpRequest → Body → Result CrabError Request
  unfolding built add_headers
  make_request req body =
      let builder = add_headers req.headers (b.method (hyper_method req.method) b.builder) in
      built (b.body body (b.uri req.request_uri builder))

answered : {Body : Type 0} → Result String (Incoming Body) → Result CrabError (HttpResponse × Body)
answered (ok resp) =
    ok (record { status_code = resp.status; headers = map text_header resp.headers }, resp.body)
answered (err e) = err (error_code_with_message Codes.unknown_error e)

-- `HttpClient::request`, from what the client of hyper gives.
unfoldable pub request :
    {W Body Request : Type 0}
    → (Request → Io String W (Incoming Body))
    → Request
    → Io CrabError W (HttpResponse × Body)
unfolding answered
request send req w = let (r, w') = send req w in (answered r, w')

abbrev pub connect_timeout : ℕ
connect_timeout = 15

-- `HttpClient::create`: hyper makes its client from the TLS configuration and the seconds that a
-- connection may take.
unfoldable pub create :
    {W Client : Type 0} (r : Rustls W)
    → (r.ClientConfig → ℕ → Client)
    → Tls.Config
    → Io CrabError W Client
create r connector tls = do
  tls_config ← build_client_config r tls
  pure (connector tls_config connect_timeout)
