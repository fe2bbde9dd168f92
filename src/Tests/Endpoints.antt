-- ===== src/Tests/Endpoints.antt =====
-- An endpoint that reaches one address; its world counts the attempts.
use crab_rs.Prelude.{
  ℕ, suc, ◌≡◌, refl, arith, Bool, true, false, [], ◌∷◌, some, Result, ok, err, ltb,
}
use crab_rs.Prelude.Io.{Io}
use crab_rs.Errors.{CrabError, error_code}
use crab_rs.Errors.Codes
use crab_rs.Types.{SocketAddr, v4, default_options}
use crab_rs.Endpoint.{Network, connect_remote_node, start_remote_node}
use crab_rs.Endpoint.Rounds.{
  IsDelayed, unconnected, notice_dropped, no_round, one_more, ends, start_remote_node-IsRun,
}

abbrev local_address : ℕ → SocketAddr
local_address n = v4 (127 ∷ 0 ∷ 0 ∷ n ∷ []) 8443

abbrev raced_now : {A : Type 0} → Io CrabError ℕ A → ℕ → Result Bool (Result CrabError A) × ℕ
raced_now work w = let (r, w') = work w in (ok r, w')

-- The first three attempts give no connection; the node of the fourth drops its notice.
abbrev flaky : Network ℕ
flaky = record {
  rsplit_colon = λ addr. some ("host", "8443");
  lookup_host = λ addr w. (ok (local_address 1 ∷ local_address 2 ∷ local_address 3 ∷ []), w);
  connect = λ addr host w. (true, suc w);
  connected = λ timeout w. (some (ltb 3 w), w);
  slept = λ delay w. (true, w);
  is_cancelled = λ w. (false, w);
  send_connection = λ w. (ok tt, w);
  wait_exit = λ w. (err tt, w);
  raced = λ delay. raced_now;
}

-- The first round has no connection, the second one has.
abbrev outcome : ℕ → Result CrabError (Unit {0}) × ℕ
outcome = connect_remote_node flaky default_options "host:8443"

first_fails : outcome 0 ≡ (err (error_code Codes.connect_error), 3)
unfolding connect_remote_node
first_fails = refl

second_connects : outcome 3 ≡ (ok tt, 4)
unfolding connect_remote_node
second_connects = refl

delayed : (n : ℕ) → IsDelayed flaky default_options "host:8443" n n
delayed n = record { checked = n; goes_on = refl; slept = refl }

start_remote_node-IsRun_example :
    start_remote_node flaky default_options "host:8443" 9 0
    ≡ (some (err (error_code Codes.canceled_error)), 4)
start_remote_node-IsRun_example =
    (start_remote_node-IsRun flaky default_options "host:8443" 9 0
        (some (err (error_code Codes.canceled_error))) 4).1
      (ends (one_more (unconnected (delayed 0) first_fails) no_round) (omega arith)
        (notice_dropped (delayed 3) second_connects refl refl))
