-- ===== src/Workers.antt =====
-- crab/utils/runit.rs and crab/utils/runit/utils.rs: workers, and the loops that run them.
pub mod Laws
pub mod Exit
use crab_rs.Prelude.{
  ℕ, String, Bool, true, false, Option, none, some, List, [], ◌∷◌, ◌++◌, Result, ok, err, ◌≡◌, ◌⊎◌,
}
use crab_rs.Prelude.Io.{Io}
use crab_rs.Errors.{CrabError, error_code, join_error}
use crab_rs.Errors.Codes

-- `OnceRunnerWorker`: the worker in its mutex, until it is taken; beside it the rest of the world.
pub record OnceRunner (T W : Type 0) : Type 0 where
  pub inner : Option T
  pub world : W

module _ {T W : Type 0} (serve : T → Io CrabError W (Unit {0})) where
  abbrev taken : Result CrabError (Unit {0}) × W → Result CrabError (Unit {0}) × OnceRunner T W
  taken (r, w) = (r, record { inner = none; world = w })

  abbrev serve_taken : Option T → Io CrabError W (Unit {0})
  serve_taken none w = (err (error_code Codes.already_served), w)
  serve_taken (some worker) w = serve worker w

  -- `impl Worker for OnceRunnerWorker<T>`: the worker is taken, whatever becomes of it.
  pub serve_once : Io CrabError (OnceRunner T W) (Unit {0})
  serve_once s = taken (serve_taken s.inner s.world)

-- What `JoinSet::join_next` gives of a worker: its result, or that it panicked or was aborted.
abbrev pub Joined : Type 0
Joined = Result String (Result CrabError (Unit {0}))

-- The loop of `impl Worker for Vec<Arc<dyn Worker>>`: whether the child token was cancelled, and
-- `first_err`.
pub record Collected : Type 0 where
  pub cancelled : Bool
  pub first_err : Option CrabError

abbrev pub get_or_insert : Option CrabError → CrabError → Option CrabError
get_or_insert none e = some e
get_or_insert (some first) e = some first

pub join_worker : Collected → Joined → Collected
join_worker c (ok (ok _)) = c
join_worker c (ok (err e)) = record { cancelled = true; first_err = get_or_insert c.first_err e }
join_worker c (err e) = record {
  cancelled = true;
  first_err = get_or_insert c.first_err (join_error e);
}

pub join_workers : Collected → List Joined → Collected
unfolding join_worker
join_workers c [] = c
join_workers c (j ∷ rest) = join_workers (join_worker c j) rest

abbrev pub first_result : Option CrabError → Result CrabError (Unit {0})
first_result none = ok tt
first_result (some e) = err e

-- The results of the workers in the order in which the workers end.
unfoldable pub serve_vec : List Joined → Result CrabError (Unit {0}) × Bool
unfolding join_workers
serve_vec joined =
    let c = join_workers (record { cancelled = false; first_err = none }) joined in
    (first_result c.first_err, c.cancelled)

-- The loops of `serve_all_workers` and of `impl OnceWorker for Receiver<T>`, one step for each arm
-- of their `select!`. `received` lists the workers that came from the channel, `join_set` those
-- that were spawned and not joined yet.
pub data Stage : Type 0 where
  receiving draining returned : Stage

pub record Loop (T : Type 0) : Type 0 where
  pub stage : Stage
  pub received : List T
  pub join_set : List T
  pub joined : List T

abbrev pub start : {T : Type 0} → Loop T
start = record { stage = receiving; received = []; join_set = []; joined = [] }

pub data Step {T : Type 0} (s : Loop T) : Loop T → Type 0 where
  cancelled : s.stage ≡ receiving → Step s (record s { stage = draining })
  received_none : s.stage ≡ receiving → Step s (record s { stage = draining })
  received_some :
      (worker : T)
      → s.stage ≡ receiving
      → Step s (record s { received = worker ∷ s.received; join_set = worker ∷ s.join_set })
  joined_next :
      (before after : List T) (worker : T)
      → (s.stage ≡ receiving) ⊎ (s.stage ≡ draining)
      → s.join_set ≡ before ++ worker ∷ after
      → Step s (record s { join_set = before ++ after; joined = worker ∷ s.joined })
  all_joined : s.stage ≡ draining → s.join_set ≡ [] → Step s (record s { stage = returned })

pub data Reach {T : Type 0} (s : Loop T) : Loop T → Type 0 where
  here : Reach s s
  next : {t u : Loop T} → Reach s t → Step t u → Reach s u

-- `InvokeWithCancel::invoke`, from whether the token was cancelled before, and the outcome of the
-- biased `select!`: `none` if the cancellation came first.
unfoldable pub invoke : {A : Type 0} → Bool → Option (Result CrabError A) → Result CrabError A
invoke true ended = err (error_code Codes.canceled_error)
invoke false none = err (error_code Codes.canceled_error)
invoke false (some r) = r
