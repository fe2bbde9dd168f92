-- ===== src/Tests/Nodes.antt =====
-- A node whose heartbeats succeed until its world, a number, is used up.
use crab_rs.Prelude.{
  ℕ, zero, suc, ◌≡◌, refl, arith, true, [], ◌∷◌, Option, none, some, Result, ok, err,
}
use crab_rs.Prelude.Io.{Io, pure}
use crab_rs.Errors.{CrabError, error_code}
use crab_rs.Errors.Codes
use crab_rs.Types.{default_options, running, stopping, stopped, NodeMetadata, v4}
use crab_rs.Node.{
  Timers, NodeLinks, new_cell, serve, heartbeat_loop, or_cancelled, make_heartbeat, or_timeout,
  make_first_heartbeat,
}
use crab_rs.Node.Status.{
  first_heartbeat, ended, joined, all_joined, serve-IsRun, none_yet, one_more, heartbeat_loop-ends,
}

abbrev in_time : {A : Type 0} → Io CrabError ℕ A → ℕ → Option (Result CrabError A) × ℕ
in_time work w = let (r, w') = work w in (some r, w')

abbrev timers : Timers ℕ
timers = record {
  cancelled_or = in_time;
  timeout = λ n work. in_time work;
  sleep = λ n. pure tt;
  cancel = λ w. w;
}

abbrev beat : NodeMetadata → Io CrabError ℕ (Unit {0})
beat meta zero = (err (error_code Codes.unknown_error), zero)
beat meta (suc n) = (ok tt, n)

abbrev links : NodeLinks ℕ
links = record {
  open_bi = pure tt;
  accept_bi = pure tt;
  heartbeat = beat;
  heartbeat_as_client = beat;
  join_tasks = λ w. (none ∷ none ∷ [], w);
}

abbrev meta : NodeMetadata
meta = record { node_id = "a"; remote_addr = v4 (127 ∷ 0 ∷ 0 ∷ 1 ∷ []) 8443; as_client = true }

abbrev round : Io CrabError ℕ (Unit {0})
round =
    or_cancelled timers links meta default_options
      (make_heartbeat timers links meta default_options)

round_ok : (n : ℕ) → round (suc n) ≡ (ok tt, n)
unfolding or_cancelled make_heartbeat
round_ok n = refl

round_failed : round 0 ≡ (err (error_code Codes.unknown_error), 0)
unfolding or_cancelled make_heartbeat
round_failed = refl

heartbeat_loop-ends_example :
    heartbeat_loop timers links meta default_options 6 2
    ≡ (some (error_code Codes.unknown_error), 0)
heartbeat_loop-ends_example =
    heartbeat_loop-ends timers links meta default_options (error_code Codes.unknown_error) 3
      (one_more (round_ok 1) (one_more (round_ok 0) none_yet)) round_failed

first_ok : first_heartbeat timers links meta default_options 3 ≡ (ok tt, 2)
unfolding or_timeout make_first_heartbeat or_cancelled
first_ok = refl

serve-IsRun_example : serve timers links meta default_options 5 (new_cell 3) ≡ (
  some (ok tt),
  record { status = stopped; changes = stopped ∷ stopping ∷ running ∷ []; world = 0 },
)
serve-IsRun_example =
    (serve-IsRun timers links meta default_options 5 3 (some (ok tt))
        (record { status = stopped; changes = stopped ∷ stopping ∷ running ∷ []; world = 0 })).1
      (ended first_ok (one_more (round_ok 1) (one_more (round_ok 0) none_yet)) (omega arith)
        round_failed refl (joined (joined all_joined)))
