-- ===== src/Handle.antt =====
-- crab/node_handle.rs: the handle of a node, as its callers see it and over the node's channel.
use crab_rs.Prelude.{String, Bool, Result, ok}
use crab_rs.Prelude.Io.{Io, pure, ◌>>=◌}
use crab_rs.Errors.{CrabError}
use crab_rs.Message.{AckMessage}
use crab_rs.Transport.{Transport, Codec}
use crab_rs.Types.{NodeMetadata, NodeStatus, SocketAddr}
use crab_rs.Tasks.{
  Sender, Receiver, Executor, base_async_task, executor_wrapper, async_job, multi_stage_task,
  send_task,
}
use crab_rs.Tasks

-- The sender of the executor that handles the second stage of a task.
abbrev pub AckSender : Type 0 → Type 0
AckSender W = Sender W (Result CrabError (Executor W (Unit {0})))

-- What a caller may ask of a node, `Command` being the type of its commands.
pub record Handle (W Command : Type 0) : Type 1 where
  pub exec : {T : Type 0} → Command → Executor W T → Io CrabError W T
  pub exec_ack : {I : Type 0} → Codec I → Command → Io CrabError W (AckSender W × I)
  pub spawn : Command → Executor W (Unit {0}) → Io CrabError W (Unit {0})

-- `tokio::sync::oneshot::channel`
pub record Channels (W : Type 0) : Type 1 where
  pub oneshot : {T : Type 0} → W → (Sender W T × Receiver W T) × W

-- `ExecutorWrapper::wrap`
unfoldable pub wrap :
    {W T : Type 0}
    → Channels W
    → Executor W T
    → Io CrabError W (Executor W (Unit {0}) × Receiver W (Result CrabError T))
wrap channels executor w =
    let ((tx, rx), w') = channels.oneshot w in (ok (executor_wrapper tx executor, rx), w')

-- A task is what it does on the stream that the node opens for it.
abbrev pub Task : Type 0 → Type 0
Task W = Io CrabError W (Unit {0})

module _ {W Command : Type 0} ⦃t : Transport W⦄ ⦃ack : Codec AckMessage⦄ (channels : Channels W)
    (queue : Task W → Io (Unit {0}) W (Unit {0})) (c : Codec Command) where
  channel : {T : Type 0} → Io CrabError W (Sender W T × Receiver W T)
  channel w = let (ends, w') = channels.oneshot w in (ok ends, w')

  pub exec : {T : Type 0} → Command → Executor W T → Io CrabError W T
  unfolding channel
  exec cmd callback = do (tx, rx) ← channel; Tasks.exec queue (async_job c cmd callback tx) rx

  -- The channel of the second stage is made with that of the first.
  pub exec_ack : {I : Type 0} → Codec I → Command → Io CrabError W (AckSender W × I)
  unfolding channel
  exec_ack i cmd = do
    (initial_tx, initial_rx) ← channel
    (ack_tx, ack_rx) ← channel
    initial ← Tasks.exec queue (multi_stage_task c cmd i initial_tx ack_rx) initial_rx
    pure (ack_tx, initial)

  pub spawn : Command → Executor W (Unit {0}) → Io CrabError W (Unit {0})
  spawn cmd executor = send_task queue (base_async_task c cmd executor)

  unfoldable pub node_handle : Handle W Command
  unfolding exec exec_ack spawn
  node_handle = record { exec = exec; exec_ack = exec_ack; spawn = spawn }

-- `impl Node for Handle`: `status` is what the receiver of the status channel last saw.
pub record HandleInner : Type 0 where
  pub meta : NodeMetadata
  pub status_rx : NodeStatus

module _ (h : HandleInner) where
  unfoldable pub id : String
  id = h.meta.node_id

  unfoldable pub status : NodeStatus
  status = h.status_rx

  unfoldable pub addr : SocketAddr
  addr = h.meta.remote_addr

  unfoldable pub as_client : Bool
  as_client = h.meta.as_client
