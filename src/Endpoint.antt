-- ===== src/Endpoint.antt =====
-- crab/endpoint.rs: how an endpoint comes to its nodes, with `parse_remote_addr` of crab/utils.rs.
--
-- The endpoint of quinn, the name lookup, the timers and the channels are taken as actions; the
-- connection in use is part of the world. The loop of `start_remote_node` may go on for ever: it is
-- run on fuel, and `none` says that it goes on after that many rounds.
pub mod Laws
pub mod Rounds
pub mod Pipeline
pub mod Serve
pub mod Race
pub mod Refines
use crab_rs.Prelude.{
  ℕ, zero, suc, String, Bool, true, false, Option, none, some, List, [], ◌∷◌, Result, ok, err,
  if◌then◌else◌,
}
use crab_rs.Prelude.Io.{Io, pure, raise, lift, from, attempt, ◌>>=◌, ◌>>◌}
use crab_rs.Errors.{CrabError, error_code, io}
use crab_rs.Errors.Codes
use crab_rs.Types.{Options, SocketAddr, NodeMetadata}

pub record Network (W : Type 0) : Type 1 where
  -- `rsplit_once(':')`: the host, and what stands after the last colon
  pub rsplit_colon : String → Option (String × String)
  pub lookup_host : String → Io String W (List SocketAddr)
  -- `endpoint.connect(addr, host)`: whether the attempt could be started
  pub connect : SocketAddr → String → W → Bool × W
  -- `select!` between the attempt under its timeout and the token: nothing if the token came first,
  -- otherwise whether there is a connection
  pub connected : ℕ → W → Option Bool × W
  -- `select!` between a sleep and the token: whether the time was over first
  pub slept : ℕ → W → Bool × W
  pub is_cancelled : W → Bool × W
  -- Hand the connection over; wait until the service of its node is over. Both fail if the other
  -- end of the channel was dropped.
  pub send_connection : Io (Unit {0}) W (Unit {0})
  pub wait_exit : Io (Unit {0}) W (Unit {0})
  -- `select!` between an action, a sleep and the token
  pub raced : {A : Type 0} → ℕ → Io CrabError W A → W → Result Bool (Result CrabError A) × W

abbrev pub retry_delay : ℕ
retry_delay = 10

split_or_bad : Option (String × String) → Result CrabError (String × String)
split_or_bad none = err (error_code Codes.bad_remote_addr)
split_or_bad (some p) = ok p

module _ {W : Type 0} (net : Network W) where
  pub parse_remote_addr : String → Io CrabError W (String × List SocketAddr)
  unfolding split_or_bad
  parse_remote_addr addr = do
    (host, _) ← lift (split_or_bad (net.rsplit_colon addr))
    addresses ← from io (net.lookup_host addr)
    pure (host, addresses)

  after_attempt : Io CrabError W (Unit {0}) → Option Bool × W → Result CrabError (Unit {0}) × W
  after_attempt rest (none, w) = (err (error_code Codes.canceled_error), w)
  after_attempt rest (some true, w) = (ok tt, w)
  after_attempt rest (some false, w) = rest w

  try_connect : ℕ → Io CrabError W (Unit {0}) → Bool × W → Result CrabError (Unit {0}) × W
  unfolding after_attempt
  try_connect timeout rest (false, w) = rest w
  try_connect timeout rest (true, w) = after_attempt rest (net.connected timeout w)

  -- The `for` loop of `connect_remote_node`.
  pub connect_first : ℕ → String → List SocketAddr → Io CrabError W (Unit {0})
  unfolding try_connect
  connect_first timeout host [] w = (err (error_code Codes.connect_error), w)
  connect_first timeout host (addr ∷ rest) w =
      try_connect timeout (connect_first timeout host rest) (net.connect addr host w)

  unfoldable pub connect_remote_node : Options → String → Io CrabError W (Unit {0})
  unfolding parse_remote_addr connect_first
  connect_remote_node opts addr = do
    (host, addresses) ← parse_remote_addr addr
    connect_first opts.connect_timeout host addresses

  hand_over : Result CrabError (Unit {0}) → Io CrabError W (Unit {0})
  hand_over (err e) = pure tt
  hand_over (ok _) = do
    from (λ _. error_code Codes.canceled_error) net.send_connection
    from (λ _. error_code Codes.canceled_error) net.wait_exit

  -- What follows the sleep in a round of `start_remote_node`.
  pub connect_and_wait : Options → String → Io CrabError W (Unit {0})
  unfolding connect_remote_node hand_over
  connect_and_wait opts addr = do conn ← attempt (connect_remote_node opts addr); hand_over conn

  unfoldable after_round :
      (W → Option (Result CrabError (Unit {0})) × W)
      → Result CrabError (Unit {0}) × W
      → Option (Result CrabError (Unit {0})) × W
  after_round rest (ok _, w) = rest w
  after_round rest (err e, w) = (some (err e), w)

  after_sleep :
      Options
      → String
      → (W → Option (Result CrabError (Unit {0})) × W)
      → Bool × W
      → Option (Result CrabError (Unit {0})) × W
  unfolding after_round connect_and_wait
  after_sleep opts addr rest (false, w) = (some (ok tt), w)
  after_sleep opts addr rest (true, w) = after_round rest (connect_and_wait opts addr w)

  while_not_cancelled :
      Options
      → String
      → (W → Option (Result CrabError (Unit {0})) × W)
      → Bool × W
      → Option (Result CrabError (Unit {0})) × W
  unfolding after_sleep
  while_not_cancelled opts addr rest (true, w) = (some (ok tt), w)
  while_not_cancelled opts addr rest (false, w) =
      after_sleep opts addr rest (net.slept retry_delay w)

  pub start_remote_node : Options → String → ℕ → W → Option (Result CrabError (Unit {0})) × W
  unfolding while_not_cancelled
  start_remote_node opts addr zero w = (none, w)
  start_remote_node opts addr (suc fuel) w =
      while_not_cancelled opts addr (start_remote_node opts addr fuel) (net.is_cancelled w)

  abbrev raced_result : {A : Type 0} → Result Bool (Result CrabError A) → Result CrabError A
  raced_result (ok r) = r
  raced_result (err true) = err (error_code Codes.handshake_timeout)
  raced_result (err false) = err (error_code Codes.canceled_error)

  module _ {Handle Info : Type 0}
      (as_client_handshake server_handshake : Io CrabError W (NodeMetadata × Info))
      (new_node : NodeMetadata → W → Handle × W)
      (on_connection_accepted : Io CrabError W (Unit {0}))
      (on_node_accepted : NodeMetadata → Handle → Info → Io CrabError W (Unit {0})) where
    pub handshake : Bool → Io CrabError W (NodeMetadata × Info)
    handshake as_client = if as_client then as_client_handshake else server_handshake

    pub handshake_with_timeout : Options → Bool → Io CrabError W (NodeMetadata × Handle × Info)
    unfolding handshake
    handshake_with_timeout opts as_client = do
      (meta, extra) ← λ w.
          let (r, w') = net.raced opts.handshake_timeout (handshake as_client) w in
          (raced_result r, w')
      handle ← λ w. let (h, w') = new_node meta w in (ok h, w')
      pure (meta, handle, extra)

    -- The task that `serve_all_connection` spawns for a connection: the node, if it is to be served.
    unfoldable pub accept_connection : Options → Bool → Io CrabError W NodeMetadata
    unfolding handshake_with_timeout
    accept_connection opts as_client = do
      on_connection_accepted
      (meta, handle, extra) ← handshake_with_timeout opts as_client
      on_node_accepted meta handle extra
      pure meta
