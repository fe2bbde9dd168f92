-- ===== src/Node.antt =====
-- crab/nodes.rs: the life of a node that passed its handshake.
--
-- The timers and the cancellation token of tokio, and the tasks that run beside the heartbeat, are
-- taken as actions. The loop of the heartbeat may go on for ever: it is run on fuel, and
-- `none` says that it goes on after that many rounds.
pub mod Status
pub mod Streams
pub mod Tasks
pub mod StreamLaws
pub mod TaskLaws
pub mod Remote
use crab_rs.Prelude.{
  ℕ, zero, suc, String, Bool, true, false, Option, none, some, List, [], ◌∷◌, Result, ok, err,
  if◌then◌else◌,
}
use crab_rs.Prelude.Io.{Io, pure, raise, from, lift, ◌>>=◌, ◌>>◌}
use crab_rs.Errors.{CrabError, error_code, quic_connection_error, join_error}
use crab_rs.Errors.Codes
use crab_rs.Types.{NodeStatus, ready, running, stopping, stopped, Options, NodeMetadata}

same_status : NodeStatus → NodeStatus → Bool
same_status ready ready = true
same_status running running = true
same_status stopping stopping = true
same_status stopped stopped = true
same_status _ _ = false

-- The status channel, with the values that its receivers were told of, the last one first.
pub record StatusCell (W : Type 0) : Type 0 where
  pub status : NodeStatus
  pub changes : List NodeStatus
  pub world : W

-- `set_status`: the receivers are told of a status that differs from the one before only.
pub set_status : {W : Type 0} → NodeStatus → StatusCell W → StatusCell W
unfolding same_status
set_status status s =
    if same_status s.status status
    then s
    else record { status = status; changes = status ∷ s.changes; world = s.world }

abbrev pub on_world : {W A : Type 0} → Io CrabError W A → Io CrabError (StatusCell W) A
on_world m s = let (r, w) = m s.world in (r, record s { world = w })

-- `tokio::select!` and `tokio::time`: nothing if the token was cancelled, or the time was over,
-- first.
pub record Timers (W : Type 0) : Type 1 where
  pub cancelled_or : {A : Type 0} → Io CrabError W A → W → Option (Result CrabError A) × W
  pub timeout : {A : Type 0} → ℕ → Io CrabError W A → W → Option (Result CrabError A) × W
  pub sleep : ℕ → Io CrabError W (Unit {0})
  -- The token is cancelled, and with it the token of every task that has a clone of it.
  pub cancel : W → W

-- What a node uses: the connection's streams, and its hook's two heartbeats.
pub record NodeLinks (W : Type 0) : Type 0 where
  pub open_bi : Io String W (Unit {0})
  pub accept_bi : Io String W (Unit {0})
  pub heartbeat : NodeMetadata → Io CrabError W (Unit {0})
  pub heartbeat_as_client : NodeMetadata → Io CrabError W (Unit {0})
  -- The tasks `accept` and `serve_all_tasks` up to their ends: the errors of the joins, in their order.
  pub join_tasks : W → List (Option String) × W

or_code : {A : Type 0} → ℕ → Option (Result CrabError A) → Result CrabError A
or_code code none = err (error_code code)
or_code code (some r) = r

-- `r.get_or_insert(e)`
first_error : List (Option String) → Option String
first_error [] = none
first_error (none ∷ rest) = first_error rest
first_error (some e ∷ rest) = some e

exit_result : Option String → Result CrabError (Unit {0})
exit_result none = ok tt
exit_result (some e) = err (join_error e)

module _ {W : Type 0} (timers : Timers W) (links : NodeLinks W) (meta : NodeMetadata)
    (opts : Options) where
  unfoldable pub or_cancelled : {A : Type 0} → Io CrabError W A → Io CrabError W A
  unfolding or_code
  or_cancelled work w =
      let (r, w') = timers.cancelled_or work w in (or_code Codes.canceled_error r, w')

  unfoldable pub or_timeout : {A : Type 0} → ℕ → Io CrabError W A → Io CrabError W A
  unfolding or_code
  or_timeout seconds work w =
      let (r, w') = timers.timeout seconds work w in (or_code Codes.heartbeat_timeout r, w')

  -- The token is watched during the sleep only.
  unfoldable pub heartbeat_as_client : Io CrabError W (Unit {0})
  unfolding or_cancelled
  heartbeat_as_client = do
    or_cancelled (timers.sleep opts.heartbeat_interval)
    links.heartbeat_as_client meta

  pub heartbeat_as_server : Io CrabError W (Unit {0})
  unfolding or_cancelled or_timeout
  heartbeat_as_server = or_cancelled (or_timeout opts.heartbeat_timeout (links.heartbeat meta))

  unfoldable pub make_heartbeat : Io CrabError W (Unit {0})
  unfolding heartbeat_as_client heartbeat_as_server
  make_heartbeat = if meta.as_client then heartbeat_as_client else heartbeat_as_server

  unfoldable pub make_first_heartbeat : Io CrabError W (Unit {0})
  unfolding or_cancelled
  make_first_heartbeat = do
    from quic_connection_error (if meta.as_client then links.open_bi else links.accept_bi)
    or_cancelled (if meta.as_client then links.heartbeat_as_client meta else links.heartbeat meta)

  after_round : (W → Option CrabError × W) → Result CrabError (Unit {0}) × W → Option CrabError × W
  after_round rest (err e, w) = (some e, w)
  after_round rest (ok _, w) = rest w

  -- The error that ends the loop of `serve`.
  pub heartbeat_loop : ℕ → W → Option CrabError × W
  unfolding or_cancelled make_heartbeat after_round
  heartbeat_loop zero w = (none, w)
  heartbeat_loop (suc fuel) w = after_round (heartbeat_loop fuel) (or_cancelled make_heartbeat w)

  -- What `serve` does when the loop is over.
  pub stop_node : StatusCell W → Result CrabError (Unit {0}) × StatusCell W
  unfolding set_status first_error exit_result
  stop_node s =
      let stopping_node = set_status stopping s in
      let (joined, w) = links.join_tasks (timers.cancel stopping_node.world) in
      (exit_result (first_error joined), set_status stopped (record stopping_node { world = w }))

  after_loop :
      StatusCell W → Option CrabError × W → Option (Result CrabError (Unit {0})) × StatusCell W
  unfolding stop_node
  after_loop s (none, w) = (none, record s { world = w })
  after_loop s (some e, w) = let (r, s') = stop_node (record s { world = w }) in (some r, s')

  after_first :
      ℕ
      → Result CrabError (Unit {0}) × StatusCell W
      → Option (Result CrabError (Unit {0})) × StatusCell W
  unfolding set_status after_loop heartbeat_loop
  after_first fuel (err e, s) = (some (err e), s)
  after_first fuel (ok _, s) =
      let running_node = set_status running s in
      after_loop running_node (heartbeat_loop fuel running_node.world)

  -- `impl Worker for RemoteNode`
  pub serve : ℕ → StatusCell W → Option (Result CrabError (Unit {0})) × StatusCell W
  unfolding or_timeout make_first_heartbeat after_first
  serve fuel s =
      after_first fuel (on_world (or_timeout opts.first_heartbeat make_first_heartbeat) s)

abbrev pub new_cell : {W : Type 0} → W → StatusCell W
new_cell w = record { status = ready; changes = []; world = w }
