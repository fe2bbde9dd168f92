-- ===== src/Tasks.antt =====
-- crab/proto/tasks.rs: what a node does with a command that it was handed, and crab/node_handle.rs:
-- how a caller hands it over.
--
-- The stream and the cancellation token are part of the world. Of the channels of tokio, `mpsc` and
-- `oneshot`, the ends that the code uses are taken as actions.
pub mod Reports
use crab_rs.Prelude.{Bool, Result, ok, err, if◌then◌else◌}
use crab_rs.Prelude.Io.{Io, pure, raise, lift, from, attempt, match_on, ◌>>=◌, ◌>>◌}
use crab_rs.Errors.{CrabError, error_code}
use crab_rs.Errors.Codes
use crab_rs.Message.{command, AckMessage, option_none, success}
use crab_rs.Transport.{Transport, Codec}
use crab_rs.Stream.{read_message, read_ack, write_message, write_error}

-- `oneshot::Sender<T>`: whether the receiver still was there to get the value.
abbrev pub Sender : Type 0 → Type 0 → Type 0
Sender W T = T → W → Bool × W

-- `oneshot::Receiver<T>`: it fails if the sender was dropped.
abbrev pub Receiver : Type 0 → Type 0 → Type 0
Receiver W T = Io (Unit {0}) W T

-- A trait object `Executor<Output = T>`.
abbrev pub Executor : Type 0 → Type 0 → Type 0
Executor W T = Io CrabError W T

module _ {W T : Type 0} where
  -- `tx.send(v).map_err(|_| e)`
  unfoldable pub send_or : CrabError → Sender W T → T → Io CrabError W (Unit {0})
  send_or e tx v w = let (sent, w') = tx v w in (if sent then ok tt else err e, w')

  -- `let _ = tx.send(v);`
  pub send_ignored : Sender W T → T → Io CrabError W (Unit {0})
  send_ignored tx v w = (ok tt, (tx v w).1)

module _ {W : Type 0} ⦃t : Transport W⦄ ⦃ack : Codec AckMessage⦄ where
  -- The stages of `MultiStageTask::execute`, the last one first.
  unfoldable pub run_executor :
      {T : Type 0} → Result CrabError (Executor W T) → Io CrabError W (Unit {0})
  run_executor (err e) = do write_error command option_none e; raise e
  run_executor (ok executor) = do write_message ack command option_none success; executor; pure tt

  unfoldable pub read_initial :
      {I : Type 0} → Codec I → Sender W (Result CrabError I) → Io CrabError W (Unit {0})
  read_initial i initial_tx =
      match_on (read_message i)
        (λ (_, initial). send_or (error_code Codes.canceled_error) initial_tx (ok initial))
        (λ e. do
          send_or (error_code Codes.canceled_error) initial_tx (err e)
          raise (error_code Codes.task_ack_failed))

module _ {W : Type 0} ⦃t : Transport W⦄ ⦃ack : Codec AckMessage⦄ {C : Type 0} (c : Codec C)
    (cmd : C) where
  -- `BaseAsyncTask::execute`
  unfoldable pub base_async_task : Executor W (Unit {0}) → Io CrabError W (Unit {0})
  base_async_task executor = do write_message c command option_none cmd; read_ack; executor

  -- `AsyncJob::execute`
  unfoldable pub async_job :
      {T : Type 0} → Executor W T → Sender W (Result CrabError T) → Io CrabError W (Unit {0})
  async_job callback tx = do
    write_message c command option_none cmd
    match_on read_ack (λ _. do ret ← attempt callback; send_ignored tx ret)
        (λ e. send_ignored tx (err e))

  unfoldable pub multi_stage_task :
      {I T : Type 0}
      → Codec I
      → Sender W (Result CrabError I)
      → Receiver W (Result CrabError (Executor W T))
      → Io CrabError W (Unit {0})
  unfolding run_executor read_initial
  multi_stage_task i initial_tx ack_rx =
      match_on (do write_message c command option_none cmd; read_ack)
        (λ _. do
          read_initial i initial_tx
          executor ← from (λ _. error_code Codes.canceled_error) ack_rx
          run_executor executor)
        (λ e. send_ignored initial_tx (err e))

-- `ExecutorWrapper::execute`
unfoldable pub executor_wrapper :
    {W T : Type 0} → Sender W (Result CrabError T) → Executor W T → Executor W (Unit {0})
executor_wrapper tx executor = do
  ret ← attempt executor
  send_or (error_code Codes.canceled_error) tx ret

-- node_handle.rs: `queue` hands the task to the node's channel.
module _ {W Task : Type 0} (queue : Task → Io (Unit {0}) W (Unit {0})) where
  pub send_task : Task → Io CrabError W (Unit {0})
  send_task task = from (λ _. error_code Codes.node_already_exit) (queue task)

  -- `Handle::exec` and `Handle::exec_ack`: hand over the task, and wait for what it sends.
  unfoldable pub exec : {T : Type 0} → Task → Receiver W (Result CrabError T) → Io CrabError W T
  unfolding send_task
  exec task rx = do
    send_task task
    answer ← from (λ _. error_code Codes.node_already_exit) rx
    lift answer
