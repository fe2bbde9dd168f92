-- ===== src/Workers/Exit.antt =====
-- crab/utils/runit.rs, crab/utils/runit/linux.rs and crab/utils/runit/win.rs: a worker that a signal of the system ends.
--
-- Signals, tasks of tokio and the join set are taken as actions.
use crab_rs.Prelude.{String, List, some}
use crab_rs.Prelude.Io.{Io, act, from, ◌>>◌}
use crab_rs.Errors.{CrabError, io}
use crab_rs.Workers.{Joined, OnceRunner, serve_vec}

pub data SignalKind : Type 0 where
  interrupt terminate : SignalKind
  -- of Windows
  ctrl_c ctrl_close : SignalKind

pub record Signals (W : Type 0) : Type 0 where
  -- `signal(kind)`: from then on a signal of that kind is seen
  pub signal : SignalKind → Io String W (Unit {0})
  -- The `select!` of `wait_exit`: it ends with the first of the signals or with ctrl+c, and on Windows
  -- with the token's cancellation too.
  pub first : W → W
  -- The token is cancelled, and every child token of it.
  pub cancel : W → W
  -- `tokio::spawn` of a task whose result is dropped
  pub spawn : Io CrabError W (Unit {0}) → W → W

-- `OnceRunnerWorker::new`
abbrev pub new_once_runner : {T W : Type 0} → T → W → OnceRunner T W
new_once_runner inner world = record { inner = some inner; world = world }

module _ {W : Type 0} (s : Signals W) where
  -- `wait_exit` of linux.rs
  unfoldable pub wait_exit : Io CrabError W (Unit {0})
  wait_exit = do
    from io (s.signal interrupt)
    from io (s.signal terminate)
    act s.first
    act s.cancel

  -- `wait_exit` of win.rs
  unfoldable pub wait_exit_windows : Io CrabError W (Unit {0})
  wait_exit_windows = do
    from io (s.signal ctrl_c)
    from io (s.signal ctrl_close)
    act s.first
    act s.cancel

  -- `impl OnceWorker for WaitExitWorker<T>`
  unfoldable pub serve_wait_exit : Io CrabError W (Unit {0}) → Io CrabError W (Unit {0})
  unfolding wait_exit
  serve_wait_exit worker = do act (s.spawn wait_exit); worker

-- `impl Worker for Vec<Arc<dyn Worker>>`, from the join set that all workers were spawned into: their
-- results, in the order in which they end.
unfoldable pub serve_workers : {W : Type 0} → (W → List Joined × W) → Io CrabError W (Unit {0})
serve_workers join_set w = let (joined, w') = join_set w in ((serve_vec joined).0, w')
