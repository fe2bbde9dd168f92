-- ===== src/Control/Proxy.antt =====
-- ctrl.rs: the handler that has a request sent by a node.
--
-- The crate `url` is taken as an interface, as is the body of the request.
use crab_rs.Prelude.{
  ℕ, String, Option, none, some, List, [], ◌∷◌, Bool, ◌||◌, Result, ok, err, map_err, and_then,
  str_eq, if◌then◌else◌,
}
use crab_rs.Prelude.Io.{Io}
use crab_rs.Errors.{CrabError, error_code, error_code_with_message}
use crab_rs.Errors.Codes
use crab_rs.Message.{AckMessage}
use crab_rs.Transport.{Transport, Codec}
use crab_rs.Handle.{Handle, Channels}
use crab_rs.Manager.{DashMap, Node, Manager}
use crab_rs.Manager
use crab_rs.Http.{try_from, Headers, HttpRequest, HttpResponse, text_header}
use crab_rs.Command.Files.{Cancellation}
use crab_rs.Forward.Proxy.{http_proxy}
use crab_rs.Control.Answers.{ProxyResponse}

pub record Urls : Type 1 where
  pub Url : Type 0
  pub parse : String → Result String Url
  pub join : Url → String → Result String Url
  pub set_query : String → Url → Url
  pub to_string : Url → String

-- `axum::http::Request`, with its headers as they are iterated; a value that is no text is `none`.
pub record Request : Type 0 where
  pub method : String
  pub query : Option String
  pub headers : List (String × Option String)

abbrev pub header_x_target_host : String
header_x_target_host = "x-target-host"

abbrev pub header_host : String
header_host = "host"

-- The first value of a header, if that is a text.
pub get_text : String → List (String × Option String) → Option String
get_text name [] = none
get_text name ((k, v) ∷ headers) =
    let rest = get_text name headers in if str_eq k name then v else rest

unfoldable pub is_excluded : String → Bool
is_excluded k = str_eq k header_x_target_host || str_eq k header_host

unfoldable pub forwarded_headers : List (String × Option String) → Headers
unfolding is_excluded
forwarded_headers [] = []
forwarded_headers ((k, v) ∷ headers) =
    let rest = forwarded_headers headers in
    if is_excluded k then rest else text_header (k, v) ∷ rest

abbrev pub bad_request : String → ℕ × CrabError
bad_request e = (400, error_code_with_message 400 e)

module _ (u : Urls) where
  parse_target : Option String → Result (ℕ × CrabError) u.Url
  parse_target none = err (400, error_code Codes.bad_parameter)
  parse_target (some target_url) = map_err bad_request (u.parse target_url)

  join_path : Option String → u.Url → Result (ℕ × CrabError) u.Url
  join_path none url = ok url
  join_path (some path) url = map_err bad_request (u.join url path)

  with_query : Option String → u.Url → u.Url
  with_query none url = url
  with_query (some query) url = u.set_query query url

  -- The request that the node shall send, or the status and the error of a bad one.
  unfoldable pub forwarded_request : Option String → Request → Result (ℕ × CrabError) HttpRequest
  unfolding parse_target join_path with_query get_text forwarded_headers
  forwarded_request target_path req =
      and_then (parse_target (get_text header_x_target_host req.headers)) λ target.
        and_then (join_path target_path target) λ joined.
          let url = with_query req.query joined in
          and_then (map_err (λ _. (400, error_code Codes.unsupported_error)) (try_from req.method))
            λ method. ok (record {
              method = method;
              request_uri = u.to_string url;
              headers = forwarded_headers req.headers;
            })

  module _ {W NodeHandle Info Command : Type 0} ⦃t : Transport W⦄ ⦃ack : Codec AckMessage⦄
      (d : DashMap (Node NodeHandle Info)) (handle_of : NodeHandle → Handle W Command)
      (cancel : Cancellation W) (responses : Codec HttpResponse) (command : HttpRequest → Command)
      (channels : Channels W) (start_body : W → W) (copy_response : Io String W ℕ)
      (wait_body : W → W) where
    bad_gateway : Result CrabError HttpResponse × W → ProxyResponse × W
    bad_gateway (r, w) = (map_err (λ e. (502, e)) r, w)

    unfoldable pub send_through : Option (NodeHandle × Info) → HttpRequest → W → ProxyResponse × W
    unfolding bad_gateway
    send_through none req w = (err (502, error_code Codes.node_already_exit), w)
    send_through (some (handle, _)) req w = bad_gateway (
        http_proxy cancel responses command (handle_of handle) channels start_body copy_response
          wait_body req w)

    proxy : Option (NodeHandle × Info) → Result (ℕ × CrabError) HttpRequest → W → ProxyResponse × W
    unfolding send_through
    proxy found (err e) w = (err e, w)
    proxy found (ok req) w = send_through found req w

    -- `http_proxy`, with the table as it is when the node is looked up
    unfoldable pub handle_proxy :
        Manager d → String → Option String → Request → W → ProxyResponse × W
    unfolding proxy forwarded_request
    handle_proxy m node_id target_path req =
        proxy (Manager.get d node_id m) (forwarded_request target_path req)
