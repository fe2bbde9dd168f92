-- ===== src/Tests/Controls.antt =====
-- The control interface over a table of no nodes, and a client of the SOCKS5 server.
use crab_rs.Tasks.{send_or}
use crab_rs.Prelude.{
  ℕ, ◌≡◌, refl, String, true, Option, List, [], ◌∷◌, ◌++◌, none, some, All, Result, ok, err, str_eq,
  if◌then◌else◌,
}
use crab_rs.Prelude.Io.{pure, raise}
use crab_rs.Errors.{CrabError, error_code}
use crab_rs.Errors.Codes
use crab_rs.Transport.{Codec}
use crab_rs.Types.{SocketAddr, v4}
use crab_rs.Tasks.{Executor}
use crab_rs.Handle.{Handle, AckSender}
use crab_rs.Manager.{DashMap, Node}
use crab_rs.Manager.Table.{table}
use crab_rs.Http.{post, hyper_method, try_from, HttpRequest, text_header, Headers}
use crab_rs.Udp.Address.{Address}
use crab_rs.Command.Dispatch.{Command}
use crab_rs.Command.Dispatch
use crab_rs.Forward.Tcp.{TcpForwardParams}
use crab_rs.Control.Answers.{HeaderMap, proxy_response}
use crab_rs.Control.AnswerLaws.{proxy_response-last_value}
use crab_rs.Control.Proxy.{Urls, Request, forwarded_request, forwarded_headers}
use crab_rs.Control.ProxyLaws.{forwarded_request-eq-ok, IsForwarded}
use crab_rs.Socks.Session.{Client, Socks5Addr, socket_address, succeeded, serve_tcp, forward_params}
use crab_rs.Socks.Session
use crab_rs.Socks.SessionLaws.{serve_tcp-eq-ok}
use crab_rs.Tests.Pipe.{Pipe, pipe, pipe_with, ack_codec}

-- A map of headers is what a name has; every text is a name and a value.
abbrev values : (String → List String) → String → String → String → List String
values m k v j = if str_eq k j then v ∷ [] else m j

abbrev header_map : HeaderMap
header_map = record {
  Map = String → List String;
  empty = λ j. [];
  json_headers = λ j. if str_eq "content-type" j then "application/json" ∷ [] else [];
  insert = λ k v m. values m k v;
  get_all = λ m k. m k;
  header_name = λ k. some k;
  header_value = λ v. some v;
  status_code = λ n. some n;
  get_all-empty = λ k. refl;
  get_all-insert = λ k v j m. refl;
}

abbrev two_cookies : Headers
two_cookies = ("set-cookie", "a=1") ∷ ("set-cookie", "b=2") ∷ ("server", "x") ∷ []

proxy_response-last_value_example :
    (proxy_response header_map (ok (record { status_code = 200; headers = two_cookies }))).headers
      "set-cookie"
    ≡ "b=2" ∷ []
proxy_response-last_value_example =
    proxy_response-last_value header_map 200 (("set-cookie", "a=1") ∷ []) (("server", "x") ∷ [])
      "set-cookie" "b=2" "set-cookie" "b=2" refl refl (λ e. cc, tt)

abbrev urls : Urls
urls = record {
  Url = String;
  parse = λ s. ok s;
  join = λ url path. ok path;
  set_query = λ query url. url;
  to_string = λ url. url;
}

abbrev posted : Request
posted = record {
  method = "POST";
  query = none;
  headers = ("x-target-host", some "http://b/") ∷ ("accept", some "*/*") ∷ ("host", some "a") ∷ [];
}

abbrev forwarded : HttpRequest
forwarded = record { method = post; request_uri = "http://b/"; headers = ("accept", "*/*") ∷ [] }

forwarded_request-eq-ok_example :
    (hyper_method post ≡ "POST")
    × All IsForwarded forwarded.headers
    × ((before after : List (String × Option String)) (k : String) (v : Option String)
        → posted.headers ≡ before ++ (k, v) ∷ after
        → IsForwarded (k, "")
        → forwarded.headers
          ≡ forwarded_headers before ++ text_header (k, v) ∷ forwarded_headers after)
unfolding forwarded_request try_from
forwarded_request-eq-ok_example = forwarded_request-eq-ok urls none posted forwarded refl

abbrev World : Type 0
World = Pipe (List Socks5Addr)

abbrev world : World
world = pipe_with [] []

-- The handle of a node that answers with what one byte stands for and takes each executor.
abbrev take : AckSender World
take executor w = (true, w)

abbrev first_of : {I : Type 0} → Option (I × ℕ) → Result CrabError I
first_of none = err (error_code Codes.task_ack_failed)
first_of (some (i, _)) = ok i

abbrev with_sender : {I : Type 0} → Result CrabError I → Result CrabError (AckSender World × I)
with_sender (ok i) = ok (take, i)
with_sender (err e) = err e

abbrev Cmd : Type 0
Cmd = Command HttpRequest TcpForwardParams

abbrev handle : Handle World Cmd
handle = record {
  exec = λ cmd callback. raise (error_code Codes.task_ack_failed);
  exec_ack = λ i cmd w. (with_sender (first_of (i.decode (6 ∷ []))), w);
  spawn = λ cmd executor. pure tt;
}

abbrev nodes : DashMap (Node ℕ ℕ)
nodes = table (Node ℕ ℕ)

abbrev localhost : SocketAddr
localhost = v4 (127 ∷ 0 ∷ 0 ∷ 1 ∷ []) 80

abbrev addresses : Codec SocketAddr
addresses = record { encode = λ a. some (6 ∷ []); decode = λ bytes. some (localhost, 1) }

-- The replies are kept beside the stream.
abbrev client : Client World
client = record {
  reply = λ r a w. (ok tt, record w { state = w.state ++ a ∷ [] });
  peer_addr = λ w. (ok localhost, w);
}

abbrev forward : Executor World (Unit {0})
forward = pure tt

abbrev replied : World
replied = record world { state = socket_address localhost ∷ [] }

serve_tcp-eq-ok_example :
    (target : Address) × (sender : AckSender World) × (addr : SocketAddr) × (v u : World)
    × (Session.try_from (socket_address localhost) ≡ ok target)
    × (handle.exec_ack addresses (Dispatch.tcp_forward (forward_params target)) world
        ≡ (ok (sender, addr), v))
    × (client.reply succeeded (socket_address addr) v ≡ (ok tt, u))
    × (sender (ok forward) u ≡ (true, replied))
unfolding serve_tcp send_or
serve_tcp-eq-ok_example =
    serve_tcp-eq-ok client handle addresses Dispatch.tcp_forward forward (socket_address localhost)
      world replied refl
